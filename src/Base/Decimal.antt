-- ===== src/Base/Decimal.antt =====
-- Decimal numbers: `{}` of an unsigned integer, and `str::parse`.
use Prim.Native.Nat.{ℕ, zero, suc, ◌+◌, ◌-◌, ◌*◌, ◌/◌, ◌%◌, ◌^◌, ◌≤◌, ◌<◌}
use mathlib.Core.Path.{◌≡◌, refl, ap, ◌∙◌, sym}
use mathlib.Core.Bool.{Bool, true, false, ◌&&◌}
use mathlib.Core.Logic.{inl, inr}
use mathlib.Core.Option.{Option, none, some}
use mathlib.Core.List.{[], ◌∷◌, ◌++◌}
use native.Mathlib.Nat.{pow-suc}
use native.Mathlib.Omega.{arith}
use krcm_spn.Base.Tests.{ltb, leb, ◌==◌, if◌then◌else◌, Bool-cases, lt→ltb, ==_iff, ne→==_false}
use krcm_spn.Base.Lists.{length, length-append, All, All-append}
use krcm_spn.Base.Octets.{Bytes}
use krcm_spn.Base.Results.{some-injective}

-- The digits of `n`, at most `w` of them.
unfoldable pub digits : ℕ → ℕ → Bytes
digits zero n = []
digits (suc w) n =
    let front = digits w (n / 10) in
    let last = (48 + n % 10) ∷ [] in if n / 10 == 0 then last else front ++ last

-- `{}` of an integer of at most 64 bits, which has 20 digits at most.
abbrev pub decimal : ℕ → Bytes
decimal n = digits 20 n

abbrev pub is_digit : ℕ → Bool
is_digit x = leb 48 x && leb x 57

-- The digits behind the value `acc`; `none` where one is no digit or the value leaves 64 bits.
unfoldable pub parse_digits : ℕ → Bytes → Option ℕ
parse_digits acc [] = some acc
parse_digits acc (x ∷ xs) =
    let next = acc * 10 + (x - 48) in
    let rest = parse_digits next xs in if is_digit x && ltb next (2 ^ 64) then rest else none

-- `text.parse::<usize>()`: a sign `+` is taken, and there is one digit at least.
unfoldable pub parse_usize : Bytes → Option ℕ
parse_usize [] = none
parse_usize (x ∷ xs) = if x == 43 then parse_unsigned xs else parse_digits 0 (x ∷ xs)
  where
    parse_unsigned : Bytes → Option ℕ
    parse_unsigned [] = none
    parse_unsigned (y ∷ ys) = parse_digits 0 (y ∷ ys)

abbrev pub IsDigit : ℕ → Type 0
IsDigit x = (48 ≤ x) × (x ≤ 57)

pub digits-IsDigit : (w n : ℕ) → All IsDigit (digits w n)
unfolding digits
digits-IsDigit zero n = tt
digits-IsDigit (suc w) n = elim (Bool-cases (n / 10 == 0)) [
  | inl one ↦ rw one ((omega arith, omega arith), tt)
  | inr more ↦ rw more (
      All-append IsDigit (digits w (n / 10)) ((48 + n % 10) ∷ []) (digits-IsDigit w (n / 10))
        ((omega arith, omega arith), tt))
]

pub length-digits : (w n : ℕ) → length (digits w n) ≤ w
unfolding digits
length-digits zero n = omega arith
length-digits (suc w) n = elim (Bool-cases (n / 10 == 0)) [
  | inl one ↦ rw one (omega arith)
  | inr more ↦ rw more (
      omega
        (arith, length-append (digits w (n / 10)) ((48 + n % 10) ∷ []), length-digits w (n / 10)))
]

-- There is a first digit.
pub digits_nonempty : (w n : ℕ) → (x : ℕ) × (xs : Bytes) × (digits (suc w) n ≡ x ∷ xs) × IsDigit x
unfolding digits
digits_nonempty zero n = elim (Bool-cases (n / 10 == 0)) [
  | inl one ↦ rw one (48 + n % 10, [], refl, (omega arith, omega arith))
  | inr more ↦ rw more (48 + n % 10, [], refl, (omega arith, omega arith))
]
digits_nonempty (suc w) n =
    let (x, xs, e, d) = digits_nonempty w (n / 10) in
    elim (Bool-cases (n / 10 == 0)) [
      | inl one ↦ rw one (48 + n % 10, [], refl, (omega arith, omega arith))
      | inr more ↦
          rw more (x, xs ++ (48 + n % 10) ∷ [], ap (λ (t : Bytes). t ++ (48 + n % 10) ∷ []) e, d)
    ]

-- There is a last digit.
pub digits_last :
    (w n : ℕ) → (front : Bytes) × (y : ℕ) × (digits (suc w) n ≡ front ++ y ∷ []) × IsDigit y
unfolding digits
digits_last w n = elim (Bool-cases (n / 10 == 0)) [
  | inl one ↦ rw one ([], 48 + n % 10, refl, (omega arith, omega arith))
  | inr more ↦ rw more (digits w (n / 10), 48 + n % 10, refl, (omega arith, omega arith))
]

parse_digits-append :
    (acc v : ℕ) (xs ys : Bytes)
    → parse_digits acc xs ≡ some v
    → parse_digits acc (xs ++ ys) ≡ parse_digits v ys
unfolding parse_digits
parse_digits-append acc v [] ys e =
    ap (λ (k : ℕ). parse_digits k ys) {x = acc} {y = v} (some-injective e)
parse_digits-append acc v (x ∷ xs) ys e =
    let next = acc * 10 + (x - 48) in
    elim (Bool-cases (is_digit x && ltb next (2 ^ 64))) [
      | inl good ↦ rw good (parse_digits-append next v xs ys (rw good at e))
      | inr bad ↦ cc (rw bad at e)
    ]

pub parse_digits-digits : (w n : ℕ) → n < 10 ^ w → n < 2 ^ 64 → parse_digits 0 (digits w n) ≡ some n
unfolding parse_digits digits
parse_digits-digits zero n small fits = ap some (omega arith)
parse_digits-digits (suc w) n small fits =
    let d = 48 + n % 10 in
    let digit : is_digit d ≡ true = ground arith in
    elim (Bool-cases (n / 10 == 0)) [
      | inl one ↦
          let e = (==_iff (n / 10) 0).0 one in
          let few : ltb (0 * 10 + (d - 48)) (2 ^ 64) ≡ true = lt→ltb _ _ (omega arith) in
          rw (one, digit, few) (ap some (omega arith))
      | inr more ↦
          let front : parse_digits 0 (digits w (n / 10)) ≡ some (n / 10) =
            parse_digits-digits w (n / 10) (omega (arith, pow-suc 10 w)) (omega arith) in
          let few : ltb (n / 10 * 10 + (d - 48)) (2 ^ 64) ≡ true = lt→ltb _ _ (omega arith) in
          rw more (
            parse_digits-append 0 (n / 10) (digits w (n / 10)) (d ∷ []) front
            ∙ rw (digit, few) (ap some (omega arith)))
    ]

-- A printed number of 64 bits is parsed back.
pub parse_usize-decimal : (n : ℕ) → n < 2 ^ 64 → parse_usize (decimal n) ≡ some n
unfolding parse_usize
parse_usize-decimal n fits =
    let (x, xs, e, d) = digits_nonempty 19 n in
    let unsigned : (x == 43) ≡ false = ne→==_false x 43 (λ h. absurd (omega arith)) in
    ap parse_usize e
    ∙ rw unsigned refl
    ∙ ap (parse_digits 0) (sym e)
    ∙ parse_digits-digits 20 n (omega arith) fits
