-- ===== src/Padding/Laws.antt =====
-- `pad` and `unpad` of crates/krcm-core/src/padding.rs together.
use mathlib.Core.Path.{subst}
use native.Mathlib.Nat.{mod-eq_of_lt}
use krcm_spn.Base.{
  All-append, All-replicate, All-take, Bytes, IsByte, IsBytes, Option, [], ap, ap₂, arith, drop,
  false, length, length-append, length-drop, length-replicate, length-take, none, ok, refl,
  replicate, slice, slice_first, slice_last, slice_prefix, slice_suffix, some, suc, sym, take,
  take-append, take-append-drop, zero, ℕ, ◌%◌, ◌++◌, ◌+◌, ◌-◌, ◌<◌, ◌↔◌, ◌∙◌, ◌∷◌, ◌≡◌, ◌≤◌,
}
use krcm_spn.Padding.{any_other, last, pad, pad_length, unpad}

pub pad_length_lem :
    (input : Bytes)
    → (1 ≤ pad_length input)
      × (pad_length input ≤ 32)
      × ((length input + pad_length input) % 32 ≡ 0)
unfolding pad_length
pad_length_lem input = ground arith

pub length-pad : (input : Bytes) → length (pad input) ≡ length input + pad_length input
unfolding pad
length-pad input = omega (
  arith,
  length-append input (replicate (pad_length input) (pad_length input % 256)),
  length-replicate (pad_length input) (pad_length input % 256),
)

pub pad-IsBytes : (input : Bytes) → IsBytes input → IsBytes (pad input)
unfolding pad
pad-IsBytes input h =
    All-append IsByte input _ h (All-replicate IsByte (pad_length input) _ (omega arith))

-- What `pad` writes is 1 to 32 bytes longer than its input and a whole number of blocks.
pub pad-aligned :
    (input : Bytes)
    → (length input < length (pad input))
      × (length (pad input) ≤ length input + 32)
      × (length (pad input) % 32 ≡ 0)
pad-aligned input = omega (arith, pad_length_lem input, length-pad input)

last-append : (xs : Bytes) (x : ℕ) (ys : Bytes) → last (xs ++ x ∷ ys) ≡ last (x ∷ ys)
last-append [] x ys = refl
last-append (z ∷ []) x ys = refl
last-append (z ∷ w ∷ xs) x ys = last-append (w ∷ xs) x ys

last-replicate : (n : ℕ) (v : ℕ) → last (replicate (suc n) v) ≡ some v
last-replicate zero v = refl
last-replicate (suc n) v = last-replicate n v

any_other-replicate : (n v : ℕ) → any_other v (replicate n v) ≡ false
any_other-replicate zero v = refl
any_other-replicate (suc n) v = ground (arith, any_other-replicate n v)

replicate_of_any_other :
    (v : ℕ) (xs : Bytes) → any_other v xs ≡ false → xs ≡ replicate (length xs) v
replicate_of_any_other v [] h = refl
replicate_of_any_other v (x ∷ xs) h = ground (arith, replicate_of_any_other v xs)

last_of_padding : (xs : Bytes) (n v : ℕ) → 1 ≤ n → last (xs ++ replicate n v) ≡ some v
last_of_padding xs zero v h = absurd (omega arith)
last_of_padding xs (suc n) v h = last-append xs v (replicate n v) ∙ last-replicate n v

module _ (xs : Bytes) (p : ℕ) where
  padded_tail :
      slice (xs ++ replicate p p) (length (xs ++ replicate p p) - p) (length (xs ++ replicate p p))
      ≡ ok (replicate p p)
  padded_tail =
      slice_last xs (replicate p p) _ _
        (omega (arith, length-append xs (replicate p p), length-replicate p p))
        (omega (arith, length-append xs (replicate p p), length-replicate p p))

  padded_front : slice (xs ++ replicate p p) 0 (length (xs ++ replicate p p) - p) ≡ ok xs
  padded_front =
      slice_first xs (replicate p p) _
        (omega (arith, length-append xs (replicate p p), length-replicate p p))

  unpad_padded : 1 ≤ p → p ≤ 32 → (length xs + p) % 32 ≡ 0 → unpad (xs ++ replicate p p) ≡ ok xs
  unfolding unpad
  unpad_padded lo hi aligned =
      let whole : length (xs ++ replicate p p) ≡ length xs + p =
        omega (arith, length-append xs (replicate p p), length-replicate p p) in
      ground (arith, last_of_padding xs p p lo, padded_tail, padded_front, any_other-replicate p p)

-- `unpad` gives back what `pad` was given, on every input.
pub unpad-pad : (input : Bytes) → unpad (pad input) ≡ ok input
unfolding pad
unpad-pad input =
    let (lo, hi, aligned) = pad_length_lem input in
    ap (λ (v : ℕ). unpad (input ++ replicate (pad_length input) v))
      (mod-eq_of_lt {n = pad_length input} {m = 256} (omega arith))
    ∙ unpad_padded input (pad_length input) lo hi aligned

any_other_split :
    (v : ℕ) (xs : Bytes) (n : ℕ)
    → any_other v (drop n xs) ≡ false
    → xs ≡ take n xs ++ replicate (length xs - n) v
any_other_split v xs n h =
    sym (take-append-drop n xs)
    ∙ ap (λ (t : Bytes). take n xs ++ t)
        (replicate_of_any_other v (drop n xs) h ∙ ap (λ (k : ℕ). replicate k v) (length-drop n xs))

-- A pad byte `v` that passes every test of `unpad`.
record IsPadByte (input output : Bytes) (v : ℕ) : Type 0 where
  at_least : 1 ≤ v
  at_most : v ≤ 32
  inside : v ≤ length input
  aligned : length input % 32 ≡ 0
  same : any_other v (drop (length input - v) input) ≡ false
  front : output ≡ take (length input - v) input

IsPadByte-of_unpad :
    (input output : Bytes) (o : Option ℕ)
    → last input ≡ o
    → unpad input ≡ ok output
    → (v : ℕ) × IsPadByte input output v
unfolding unpad
IsPadByte-of_unpad input output none e h = ground arith
IsPadByte-of_unpad input output (some v) e h = (v, body)
  where
    body : IsPadByte input output v
    body =
        let tail = slice_suffix input (length input - v) (omega arith) in
        let front = slice_prefix input (length input - v) (omega arith) in
        record {
          at_least = ground arith;
          at_most = ground arith;
          inside = ground arith;
          aligned = ground arith;
          same = ground (arith, tail);
          front = ground (arith, tail, front);
        }

pad_length_of_aligned :
    (xs : Bytes) (v : ℕ) → 1 ≤ v → v ≤ 32 → (length xs + v) % 32 ≡ 0 → pad_length xs ≡ v
unfolding pad_length
pad_length_of_aligned xs v lo hi aligned = ground arith

-- `unpad` accepts nothing but padded data: what it takes apart into `output` is exactly `pad
-- output`.
pub pad-unpad : (input output : Bytes) → unpad input ≡ ok output → input ≡ pad output
unfolding pad
pad-unpad input output h =
    let (v, p) = IsPadByte-of_unpad input output (last input) refl h in
    let shorter : length output ≡ length input - v =
      ap length p.front ∙ omega (arith, length-take (length input - v) input, p.inside) in
    let byte : pad_length output ≡ v =
      pad_length_of_aligned output v p.at_least p.at_most
        (rw shorter (omega (arith, p.inside, p.aligned))) in
    let size : length input - (length input - v) ≡ v = omega (arith, p.inside) in
    let low : v ≡ pad_length output % 256 = omega (arith, p.at_most, byte) in
    any_other_split v input (length input - v) p.same
    ∙ ap₂ (λ (front : Bytes) (k : ℕ). front ++ replicate k v) (sym p.front) size
    ∙ ap₂ (λ (k w : ℕ). output ++ replicate k w) (sym byte) low

-- What was padded into bytes is bytes.
pub pad-IsBytes_iff : (input : Bytes) → IsBytes (pad input) ↔ IsBytes input
unfolding pad
pad-IsBytes_iff input = (
  λ h.
      subst IsBytes
        (take-append (length input) input (replicate (pad_length input) (pad_length input % 256))
          refl)
        (All-take IsByte (length input) (pad input) h),
  pad-IsBytes input,
)
