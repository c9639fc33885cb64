-- ===== src/Base/Octets.antt =====
-- Byte strings: lists of numbers below 256, big-endian integers, text literals, comparison.
use Prim.Native.Nat.{ℕ, zero, suc, ◌+◌, ◌*◌, ◌/◌, ◌%◌, ◌^◌, ◌<◌}
use Prim.Native.Char.{code}
use Prim.Native.String.{String}
use mathlib.Core.Path.{◌≡◌, refl, ap, ap₂, ◌∙◌, sym, subst}
use mathlib.Core.Bool.{Bool, true, false, ◌&&◌}
use mathlib.Core.List.{List, [], ◌∷◌, ◌++◌, append_assoc, append-nil}
use native.Mathlib.Nat.{le_trans, pow-suc, mul-le-mul_right}
use native.Mathlib.Omega.{arith}
use krcm_spn.Base.Tests.{◌==◌}
use krcm_spn.Base.Lists.{length, length-append, All, All-append}

abbrev pub Bytes : Type 0
Bytes = List ℕ

abbrev pub IsByte : ℕ → Type 0
IsByte b = b < 256

abbrev pub IsBytes : Bytes → Type 0
IsBytes = All IsByte

-- A byte array of a fixed size, `[u8; n]`.
abbrev pub IsArray : ℕ → Bytes → Type 0
IsArray n xs = (length xs ≡ n) × IsBytes xs

-- `b"..."` of an ASCII text.
abbrev pub codes : String → Bytes
codes String.[] = []
codes (String.◌∷◌ c s) = code c ∷ codes s

-- `==` of byte slices.
abbrev pub bytes_eq : Bytes → Bytes → Bool
bytes_eq [] [] = true
bytes_eq (x ∷ xs) (y ∷ ys) = (x == y) && bytes_eq xs ys
bytes_eq _ _ = false

pub bytes_eq_refl : (xs : Bytes) → bytes_eq xs xs ≡ true
bytes_eq_refl [] = refl
bytes_eq_refl (x ∷ xs) = ground (arith, bytes_eq_refl xs)

pub bytes_eq→eq : (xs ys : Bytes) → bytes_eq xs ys ≡ true → xs ≡ ys
bytes_eq→eq [] [] h = refl
bytes_eq→eq [] (y ∷ ys) h = ground arith
bytes_eq→eq (x ∷ xs) [] h = ground arith
bytes_eq→eq (x ∷ xs) (y ∷ ys) h = ground (arith, bytes_eq→eq xs ys)

-- `slice.starts_with(prefix)`.
abbrev pub starts_with : Bytes → Bytes → Bool
starts_with xs [] = true
starts_with [] (p ∷ ps) = false
starts_with (x ∷ xs) (p ∷ ps) = (x == p) && starts_with xs ps

pub starts_with-append : (ps xs : Bytes) → starts_with (ps ++ xs) ps ≡ true
starts_with-append [] xs = refl
starts_with-append (p ∷ ps) xs = ground (arith, starts_with-append ps xs)

-- `iter().any(|&b| b != 0)`.
abbrev pub any_nonzero : Bytes → Bool
any_nonzero [] = false
any_nonzero (x ∷ xs) = elim (x == 0) [ true ↦ any_nonzero xs | false ↦ true ]

-- `n.to_be_bytes()` of a `w`-byte integer.
unfoldable pub to_be_bytes : ℕ → ℕ → Bytes
to_be_bytes zero n = []
to_be_bytes (suc w) n = to_be_bytes w (n / 256) ++ (n % 256 ∷ [])

-- `from_be_bytes`, with the value read so far.
unfoldable pub from_be_acc : ℕ → Bytes → ℕ
from_be_acc acc [] = acc
from_be_acc acc (x ∷ xs) = from_be_acc (acc * 256 + x) xs

abbrev pub from_be_bytes : Bytes → ℕ
from_be_bytes = from_be_acc 0

pub length-to_be_bytes : (w n : ℕ) → length (to_be_bytes w n) ≡ w
unfolding to_be_bytes
length-to_be_bytes zero n = refl
length-to_be_bytes (suc w) n =
    omega (
      arith,
      length-append (to_be_bytes w (n / 256)) (n % 256 ∷ []),
      length-to_be_bytes w (n / 256),
    )

pub to_be_bytes-IsBytes : (w n : ℕ) → IsBytes (to_be_bytes w n)
unfolding to_be_bytes
to_be_bytes-IsBytes zero n = tt
to_be_bytes-IsBytes (suc w) n =
    All-append IsByte (to_be_bytes w (n / 256)) _ (to_be_bytes-IsBytes w (n / 256)) (omega arith)

from_be_acc-append :
    (acc : ℕ) (xs ys : Bytes) → from_be_acc acc (xs ++ ys) ≡ from_be_acc (from_be_acc acc xs) ys
unfolding from_be_acc
from_be_acc-append acc [] ys = refl
from_be_acc-append acc (x ∷ xs) ys = from_be_acc-append (acc * 256 + x) xs ys

-- Reading what was written gives the integer back, if it fits.
pub from_be_bytes-to_be_bytes : (w n : ℕ) → n < 256 ^ w → from_be_bytes (to_be_bytes w n) ≡ n
unfolding to_be_bytes from_be_acc
from_be_bytes-to_be_bytes zero n h = omega arith
from_be_bytes-to_be_bytes (suc w) n h =
    from_be_acc-append 0 (to_be_bytes w (n / 256)) (n % 256 ∷ [])
    ∙ omega (arith, from_be_bytes-to_be_bytes w (n / 256) (omega arith))

to_be_bytes-from_be_acc :
    (w acc : ℕ) (xs : Bytes)
    → IsBytes xs
    → to_be_bytes (length xs + w) (from_be_acc acc xs) ≡ to_be_bytes w acc ++ xs
unfolding to_be_bytes from_be_acc
to_be_bytes-from_be_acc w acc [] h =
    ap (λ (k : ℕ). to_be_bytes k acc) {x = 0 + w} {y = w} (omega arith)
    ∙ sym (append-nil (to_be_bytes w acc))
to_be_bytes-from_be_acc w acc (x ∷ xs) h =
    ap (λ (k : ℕ). to_be_bytes k (from_be_acc (acc * 256 + x) xs)) {x = suc (length xs) + w}
      {y = length xs + suc w} (omega arith)
    ∙ to_be_bytes-from_be_acc (suc w) (acc * 256 + x) xs h.1
    ∙ append_assoc (to_be_bytes w ((acc * 256 + x) / 256)) ((acc * 256 + x) % 256 ∷ []) xs
    ∙ ap₂ (λ (a b : ℕ). to_be_bytes w a ++ b ∷ xs) (omega arith) (omega arith)

-- Writing what was read gives the bytes back.
pub to_be_bytes-from_be_bytes :
    (w : ℕ) (xs : Bytes) → IsArray w xs → to_be_bytes w (from_be_bytes xs) ≡ xs
unfolding to_be_bytes
to_be_bytes-from_be_bytes w xs h =
    ap (λ (k : ℕ). to_be_bytes k (from_be_bytes xs)) {x = w} {y = length xs + 0} (omega arith)
    ∙ to_be_bytes-from_be_acc 0 0 xs h.1

pub from_be_acc-lt :
    (acc : ℕ) (xs : Bytes) → IsBytes xs → from_be_acc acc xs < (acc + 1) * 256 ^ length xs
unfolding from_be_acc
from_be_acc-lt acc [] h = omega arith
from_be_acc-lt acc (x ∷ xs) h =
    le_trans (from_be_acc-lt (acc * 256 + x) xs h.1)
      (rw (pow-suc 256 (length xs)) (omega (arith, mul-le-mul_right (256 ^ length xs) h.0)))

-- An integer read from `w` bytes fits `w` bytes.
pub from_be_bytes-lt : (w : ℕ) (xs : Bytes) → IsArray w xs → from_be_bytes xs < 256 ^ w
from_be_bytes-lt w xs h =
    subst (λ (k : ℕ). from_be_bytes xs < 256 ^ k) h.0 (omega (arith, from_be_acc-lt 0 xs h.1))
