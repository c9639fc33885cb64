-- ===== src/Base/Results.antt =====
-- What a call comes to: a value, an error of crates/krcm-core/src/error.rs, a panic, or, where a
-- loop of the source may run on, no answer within the fuel.
use Prim.Native.Nat.{ℕ, ◌+◌, ◌-◌, ◌%◌, ◌^◌, ◌≤◌, ◌<◌}
use mathlib.Core.Path.{◌≡◌, refl, ap, sym, ◌∙◌}
use mathlib.Core.Bool.{Bool, true, false, ◌||◌}
use mathlib.Core.Logic.{inl, inr}
use mathlib.Core.Option.{Option, none, some}
use mathlib.Core.List.{◌∷◌, List, [], ◌++◌, append-nil}
use native.Mathlib.Omega.{arith}
use krcm_spn.Base.Tests.{ltb→lt, lt→ltb, Bool-cases, if◌then◌else◌, ltb}
use krcm_spn.Base.Lists.{
  drop, drop-append, get_or, length, length-append, length-drop, take, take-all, take-append,
}

pub data KrcmError : Type 0 where
  format authentication invalid_password invalid_parameter unsupported_version io internal :
      KrcmError

pub data Outcome {ℓ} (V : Type ℓ) : Type ℓ where
  panic : Outcome V
  diverged : Outcome V
  err : KrcmError → Outcome V
  ok : V → Outcome V

infixl 5 ◌>>◌ ◌>>=◌
-- `?`: what is no value ends the call.
abbrev pub ◌>>=◌ {ℓ κ} : {V : Type ℓ} {W : Type κ} → Outcome V → (V → Outcome W) → Outcome W
panic >>= next = panic
diverged >>= next = diverged
err why >>= next = err why
ok v >>= next = next v

abbrev pub ◌>>◌ {ℓ} : {W : Type ℓ} → Outcome (Unit {0}) → Outcome W → Outcome W
first >> next = first >>= λ _. next

-- `if test { return Err(e) }`
abbrev pub fail_if : Bool → KrcmError → Outcome (Unit {0})
fail_if true e = err e
fail_if false e = ok tt

-- `option.ok_or(e)?`
abbrev pub ok_or {ℓ} : {A : Type ℓ} → Option A → KrcmError → Outcome A
ok_or none e = err e
ok_or (some a) e = ok a

-- Inversion of a bind that gave a value.
pub >>=-eq-ok {ℓ κ} :
    {V : Type ℓ} {W : Type κ} (first : Outcome V) (next : V → Outcome W) {w : W}
    → (first >>= next) ≡ ok w
    → (v : V) × (first ≡ ok v) × (next v ≡ ok w)
>>=-eq-ok panic next e = cc
>>=-eq-ok diverged next e = cc
>>=-eq-ok (err why) next e = cc
>>=-eq-ok (ok v) next e = (v, refl, e)

-- What follows a call may be replaced by what is equal to it.
pub >>=-ap {ℓ κ} :
    {V : Type ℓ} {W : Type κ} (first : Outcome V) {next other : V → Outcome W}
    → ((v : V) → next v ≡ other v)
    → (first >>= next) ≡ (first >>= other)
>>=-ap panic h = refl
>>=-ap diverged h = refl
>>=-ap (err why) h = refl
>>=-ap (ok v) h = h v

pub Outcome-ok-injective {ℓ} : {A : Type ℓ} {a b : A} → ◌≡◌ {A = Outcome A} (ok a) (ok b) → a ≡ b
Outcome-ok-injective h = cc

pub some-injective {ℓ} : {A : Type ℓ} {a b : A} → ◌≡◌ {A = Option A} (some a) (some b) → a ≡ b
some-injective e = cc

-- `a + b` on u64 or usize: an overflow panics where overflow checks are compiled in, and wraps
-- where they are not.
unfoldable pub add_u64 : Bool → ℕ → ℕ → Outcome ℕ
add_u64 checks a b =
    if ltb (a + b) (2 ^ 64) then ok (a + b) else (if checks then panic else ok ((a + b) % 2 ^ 64))

pub add_u64_fits : (checks : Bool) (a b : ℕ) → a + b < 2 ^ 64 → add_u64 checks a b ≡ ok (a + b)
unfolding add_u64
add_u64_fits checks a b h = ground arith

-- `a.checked_add(b)` on u64.
abbrev pub checked_add : ℕ → ℕ → Option ℕ
checked_add a b = if ltb (a + b) (2 ^ 64) then some (a + b) else none

-- `&xs[start..end]`, which panics unless `start <= end <= xs.len()`.
unfoldable pub slice : List ℕ → ℕ → ℕ → Outcome (List ℕ)
slice xs start end =
    if ltb end start || ltb (length xs) end then panic else ok (take (end - start) (drop start xs))

pub slice_in_range :
    (xs : List ℕ) (start end : ℕ)
    → start ≤ end
    → end ≤ length xs
    → slice xs start end ≡ ok (take (end - start) (drop start xs))
unfolding slice
slice_in_range xs start end h k = ground arith

-- `xs[i]`, which panics unless `i < xs.len()`.
unfoldable pub index : List ℕ → ℕ → Outcome ℕ
index xs i = if ltb i (length xs) then ok (get_or xs i 0) else panic

pub index_in_range : (xs : List ℕ) (i : ℕ) → i < length xs → index xs i ≡ ok (get_or xs i 0)
unfolding index
index_in_range xs i h = rw (lt→ltb i (length xs) h) refl

-- Three guards with the same error are one.
pub three_guards {ℓ} :
    {A : Type ℓ} (a b d : Bool) (e : KrcmError) (rest : Outcome A)
    → (fail_if a e >> (fail_if b e >> (fail_if d e >> rest))) ≡ (fail_if (a || b || d) e >> rest)
three_guards true b d e rest = refl
three_guards false true d e rest = refl
three_guards false false true e rest = refl
three_guards false false false e rest = refl

pub six_guards {ℓ} :
    {A : Type ℓ} (a b d f g h : Bool) (e : KrcmError) (rest : Outcome A)
    → (fail_if a e
        >> (fail_if b e
            >> (fail_if d e >> (fail_if f e >> (fail_if g e >> (fail_if h e >> rest))))))
      ≡ (fail_if (a || b || d || f || g || h) e >> rest)
six_guards true b d f g h e rest = refl
six_guards false true d f g h e rest = refl
six_guards false false true f g h e rest = refl
six_guards false false false true g h e rest = refl
six_guards false false false false true h e rest = refl
six_guards false false false false false true e rest = refl
six_guards false false false false false false e rest = refl

pub slice_reversed : (xs : List ℕ) (start end : ℕ) → end < start → slice xs start end ≡ panic
unfolding slice
slice_reversed xs start end h = rw (lt→ltb end start h) refl

-- Slicing at the joints of a concatenation.
pub slice_middle :
    (a b c : List ℕ) (start end : ℕ)
    → start ≡ length a
    → end ≡ length a + length b
    → slice (a ++ (b ++ c)) start end ≡ ok b
slice_middle a b c start end hs he =
    let whole : length (a ++ (b ++ c)) ≡ length a + (length b + length c) =
      omega (arith, length-append a (b ++ c), length-append b c) in
    slice_in_range (a ++ (b ++ c)) start end (omega arith) (omega arith)
    ∙ ap (λ (t : List ℕ). ok (take (end - start) t)) (drop-append start a (b ++ c) (omega arith))
    ∙ ap ok (take-append (end - start) b c (omega arith))

pub slice_last :
    (a b : List ℕ) (start end : ℕ)
    → start ≡ length a
    → end ≡ length a + length b
    → slice (a ++ b) start end ≡ ok b
slice_last a b start end hs he =
    ap (λ t. slice (a ++ t) start end) (sym (append-nil b)) ∙ slice_middle a b [] start end hs he

pub slice_first : (a b : List ℕ) (end : ℕ) → end ≡ length a → slice (a ++ b) 0 end ≡ ok a
slice_first a b end he = slice_middle [] a b 0 end refl (omega arith)

-- Inversion of the guards and of a slice in a call that succeeded.
pub fail_if_passed {ℓ} :
    {A : Type ℓ} (test : Bool) (e : KrcmError) (rest : Outcome A) {a : A}
    → (fail_if test e >> rest) ≡ ok a
    → (test ≡ false) × (rest ≡ ok a)
fail_if_passed true e rest h = cc
fail_if_passed false e rest h = (refl, h)

pub slice_passed :
    (xs : List ℕ) (start end : ℕ) {ys : List ℕ}
    → slice xs start end ≡ ok ys
    → (start ≤ end) × (end ≤ length xs) × (ys ≡ take (end - start) (drop start xs))
unfolding slice
slice_passed xs start end h = elim (Bool-cases (ltb end start || ltb (length xs) end)) [
  | inl bad ↦ cc (rw bad at h)
  | inr good ↦ let same = rw good at h in (ground arith, ground arith, cc)
]

pub slice_suffix :
    (xs : List ℕ) (start : ℕ) → start ≤ length xs → slice xs start (length xs) ≡ ok (drop start xs)
slice_suffix xs start h =
    slice_in_range xs start (length xs) h (omega arith)
    ∙ ap ok (take-all (length xs - start) (drop start xs) (omega (arith, length-drop start xs)))

pub slice_prefix : (xs : List ℕ) (end : ℕ) → end ≤ length xs → slice xs 0 end ≡ ok (take end xs)
slice_prefix xs end h =
    slice_in_range xs 0 end (omega arith) h
    ∙ ap (λ (k : ℕ). ok (take k xs)) {x = end - 0} {y = end} (omega arith)

-- `iter().map(f).collect::<Result<Vec<_>, _>>()`
unfoldable pub collect {ℓ κ} :
    {A : Type ℓ} {B : Type κ} → (A → Outcome B) → List A → Outcome (List B)
collect f [] = ok []
collect f (x ∷ xs) = f x >>= λ y. collect f xs >>= λ ys. ok (y ∷ ys)

pub checked_add_passed :
    (a b : ℕ) (e : KrcmError) {s : ℕ}
    → ok_or (checked_add a b) e ≡ ok s
    → (s ≡ a + b) × (a + b < 2 ^ 64)
checked_add_passed a b e h = elim (Bool-cases (ltb (a + b) (2 ^ 64))) [
  | inl fits ↦ let same = rw fits at h in (cc, ltb→lt _ _ fits)
  | inr over ↦ cc (rw over at h)
]

pub add_u64_passed :
    (checks : Bool) (a b : ℕ) {s : ℕ} → a + b < 2 ^ 64 → add_u64 checks a b ≡ ok s → s ≡ a + b
add_u64_passed checks a b fits h = Outcome-ok-injective (sym h ∙ add_u64_fits checks a b fits)

pub ok_or-eq-ok {ℓ} :
    {V : Type ℓ} (o : Option V) (why : KrcmError) {v : V} → ok_or o why ≡ ok v → o ≡ some v
ok_or-eq-ok none why e = cc
ok_or-eq-ok (some w) why e = cc
