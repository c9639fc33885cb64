-- ===== src/Cli/Size/Laws.antt =====
-- What `parse_size` of crates/krcm-cli/src/main.rs reads.
use krcm_spn.Base.{
  All, Bool, Bool-cases, Bytes, IsDigit, Option, [], ap, append-nil, ap₂, arith, decimal,
  digits-IsDigit, digits_last, digits_nonempty, err, false, if◌then◌else◌, inl, inr,
  invalid_parameter, ltb, ne→==_false, none, ok, parse_usize-decimal, refl, some, sym, true, ℕ,
  ◌&&◌, ◌*◌, ◌++◌, ◌<◌, ◌==◌, ◌^◌, ◌∙◌, ◌∷◌, ◌≡◌,
}
use krcm_spn.Cli.Size.{
  choose_unit, is_empty, is_whitespace, parse_size, prepend, split_unit, strip_suffix,
  to_ascii_uppercase, trim, trim_end, trim_start, upper,
}
use krcm_spn.Padding.{last}

pub data SizeUnit : Type 0 where
  one kilo mega : SizeUnit

abbrev pub multiplier : SizeUnit → ℕ
multiplier one = 1
multiplier kilo = 1024
multiplier mega = 1024 * 1024

-- The letter behind the digits, in either case.
abbrev pub suffix : SizeUnit → Bool → Bytes
suffix one lower = []
suffix kilo lower = (if lower then b'k' else b'K') ∷ []
suffix mega lower = (if lower then b'm' else b'M') ∷ []

abbrev pub IsBlank : Bytes → Type 0
IsBlank = All (λ x. is_whitespace x ≡ true)

trim_start-blank : (a rest : Bytes) → IsBlank a → trim_start (a ++ rest) ≡ trim_start rest
unfolding trim_start
trim_start-blank [] rest h = refl
trim_start-blank (x ∷ xs) rest h = rw h.0 (trim_start-blank xs rest h.1)

trim_end-blank : (xs b : Bytes) → IsBlank b → trim_end (xs ++ b) ≡ trim_end xs
unfolding trim_end
trim_end-blank [] [] h = refl
trim_end-blank [] (y ∷ b) h = rw (trim_end-blank [] b h.1, h.0) refl
trim_end-blank (x ∷ xs) b h = rw (trim_end-blank xs b h) refl

is_empty-append : (xs : Bytes) (y : ℕ) → is_empty (xs ++ y ∷ []) ≡ false
is_empty-append [] y = refl
is_empty-append (x ∷ xs) y = refl

and_false : (b : Bool) → (b && false) ≡ false
and_false true = refl
and_false false = refl

trim_end-text :
    (xs : Bytes) (y : ℕ) → is_whitespace y ≡ false → trim_end (xs ++ y ∷ []) ≡ xs ++ y ∷ []
unfolding trim_end
trim_end-text [] y h = rw h refl
trim_end-text (x ∷ xs) y h =
    rw (trim_end-text xs y h, is_empty-append xs y, and_false (is_whitespace x)) refl

trim_start-text : (x : ℕ) (xs : Bytes) → is_whitespace x ≡ false → trim_start (x ∷ xs) ≡ x ∷ xs
unfolding trim_start
trim_start-text x xs h = rw h refl

digit-is_whitespace : (x : ℕ) → IsDigit x → is_whitespace x ≡ false
digit-is_whitespace x h = ground arith

strip_suffix-cons :
    (s x y : ℕ) (xs : Bytes)
    → strip_suffix s (x ∷ (xs ++ y ∷ [])) ≡ prepend x (strip_suffix s (xs ++ y ∷ []))
unfolding strip_suffix
strip_suffix-cons s x y [] = refl
strip_suffix-cons s x y (z ∷ zs) = refl

strip_suffix-text :
    (s y : ℕ) (xs : Bytes) → strip_suffix s (xs ++ y ∷ []) ≡ (if y == s then some xs else none)
unfolding strip_suffix
strip_suffix-text s y [] = refl
strip_suffix-text s y (x ∷ xs) =
    strip_suffix-cons s x y xs
    ∙ ap (prepend x) (strip_suffix-text s y xs)
    ∙ elim (Bool-cases (y == s)) [ inl same ↦ rw same refl | inr other ↦ rw other refl ]

to_ascii_uppercase-append :
    (xs ys : Bytes) → to_ascii_uppercase (xs ++ ys) ≡ to_ascii_uppercase xs ++ to_ascii_uppercase ys
unfolding to_ascii_uppercase
to_ascii_uppercase-append [] ys = refl
to_ascii_uppercase-append (x ∷ xs) ys = ap (λ t. upper x ∷ t) (to_ascii_uppercase-append xs ys)

upper-digit : (x : ℕ) → IsDigit x → upper x ≡ x
upper-digit x h = ground arith

to_ascii_uppercase-digits : (xs : Bytes) → All IsDigit xs → to_ascii_uppercase xs ≡ xs
unfolding to_ascii_uppercase
to_ascii_uppercase-digits [] h = refl
to_ascii_uppercase-digits (x ∷ xs) h =
    ap₂ (λ (a : ℕ) (t : Bytes). a ∷ t) (upper-digit x h.0) (to_ascii_uppercase-digits xs h.1)

parse_size-trimmed :
    (a b xs : Bytes) (x y : ℕ) (tail : Bytes)
    → IsBlank a
    → IsBlank b
    → is_whitespace x ≡ false
    → is_whitespace y ≡ false
    → x ∷ tail ≡ xs ++ y ∷ []
    → trim (a ++ ((x ∷ tail) ++ b)) ≡ x ∷ tail
parse_size-trimmed a b xs x y tail ha hb hx hy e =
    ap trim_end (trim_start-blank a ((x ∷ tail) ++ b) ha ∙ trim_start-text x (tail ++ b) hx)
    ∙ trim_end-blank (x ∷ tail) b hb
    ∙ ap trim_end e
    ∙ trim_end-text xs y hy
    ∙ sym e

-- The digits and the letter, as they stand after `trim`.
abbrev body : ℕ → SizeUnit → Bool → Bytes
body n unit lower = decimal n ++ suffix unit lower

last_of_body :
    (n : ℕ) (unit : SizeUnit) (lower : Bool)
    → (front : Bytes) × (y : ℕ) × (body n unit lower ≡ front ++ y ∷ []) × (is_whitespace y ≡ false)
last_of_body n one lower =
    let (front, y, e, d) = digits_last 19 n in
    (front, y, append-nil (decimal n) ∙ e, digit-is_whitespace y d)
last_of_body n kilo true = (decimal n, b'k', refl, refl)
last_of_body n kilo false = (decimal n, b'K', refl, refl)
last_of_body n mega true = (decimal n, b'm', refl, refl)
last_of_body n mega false = (decimal n, b'M', refl, refl)

trim-body :
    (a b : Bytes) (n : ℕ) (unit : SizeUnit) (lower : Bool)
    → IsBlank a
    → IsBlank b
    → trim (a ++ (body n unit lower ++ b)) ≡ body n unit lower
trim-body a b n unit lower ha hb =
    let (x, xs, e, d) = digits_nonempty 19 n in
    let (front, y, last, solid) = last_of_body n unit lower in
    let whole : body n unit lower ≡ x ∷ (xs ++ suffix unit lower) =
      ap (λ (t : Bytes). t ++ suffix unit lower) e in
    ap (λ (t : Bytes). trim (a ++ (t ++ b))) whole
    ∙ parse_size-trimmed a b front x y (xs ++ suffix unit lower) ha hb (digit-is_whitespace x d)
        solid (sym whole ∙ last)
    ∙ sym whole

strip_suffix-digits : (s n : ℕ) → 57 < s → strip_suffix s (decimal n) ≡ none
strip_suffix-digits s n h =
    let (front, y, e, d) = digits_last 19 n in
    let other : (y == s) ≡ false = ne→==_false y s (λ same. absurd (omega arith)) in
    ap (strip_suffix s) e ∙ strip_suffix-text s y front ∙ rw other refl

upper-body :
    (n : ℕ) (unit : SizeUnit) (lower : Bool)
    → to_ascii_uppercase (body n unit lower) ≡ body n unit false
unfolding to_ascii_uppercase
upper-body n unit lower =
    to_ascii_uppercase-append (decimal n) (suffix unit lower)
    ∙ ap₂ (λ (s t : Bytes). s ++ t) (to_ascii_uppercase-digits (decimal n) (digits-IsDigit 20 n))
        (upper-suffix unit lower)
  where
    upper-suffix :
        (unit : SizeUnit) (lower : Bool)
        → to_ascii_uppercase (suffix unit lower) ≡ suffix unit false
    upper-suffix one lower = refl
    upper-suffix kilo true = refl
    upper-suffix kilo false = refl
    upper-suffix mega true = refl
    upper-suffix mega false = refl

split_unit-body :
    (n : ℕ) (unit : SizeUnit) → split_unit (body n unit false) ≡ (decimal n, multiplier unit)
unfolding split_unit
split_unit-body n one =
    ap split_unit (append-nil (decimal n))
    ∙ ap₂ (λ (m k : Option Bytes). choose_unit m k (decimal n))
        (strip_suffix-digits b'M' n (omega arith)) (strip_suffix-digits b'K' n (omega arith))
split_unit-body n kilo =
    ap₂ (λ (m k : Option Bytes). choose_unit m k (decimal n ++ b'K' ∷ []))
      (strip_suffix-text b'M' b'K' (decimal n)) (strip_suffix-text b'K' b'K' (decimal n))
split_unit-body n mega =
    ap
      (λ (m : Option Bytes).
        choose_unit m (strip_suffix b'K' (decimal n ++ b'M' ∷ [])) (decimal n ++ b'M' ∷ []))
      (strip_suffix-text b'M' b'M' (decimal n))

-- Blanks, a number below 2 ^ 64 in decimal, nothing or `K` or `M` in either case, and blanks are
-- parsed to the number times 1, 1024 or 1024 * 1024 where this is positive and below 2 ^ 64, and
-- are an invalid parameter otherwise.
pub parse_size-decimal :
    (a b : Bytes) (n : ℕ) (unit : SizeUnit) (lower : Bool)
    → IsBlank a
    → IsBlank b
    → n < 2 ^ 64
    → parse_size (a ++ ((decimal n ++ suffix unit lower) ++ b)) ≡ (
        if ltb (n * multiplier unit) (2 ^ 64) && ltb 0 (n * multiplier unit)
        then ok (n * multiplier unit)
        else err invalid_parameter)
unfolding parse_size
parse_size-decimal a b n unit lower ha hb fits =
    let m = multiplier unit in
    rw
      (
        trim-body a b n unit lower ha hb,
        upper-body n unit lower,
        split_unit-body n unit,
        parse_usize-decimal n fits,
      )
      (elim (Bool-cases (ltb (n * m) (2 ^ 64) && ltb 0 (n * m))) [
        | inl good ↦ rw good refl
        | inr bad ↦ rw bad refl
      ])
