-- ===== src/Reference.antt =====
-- krcm/core.py, which the crates call their reference: what a call comes to, and the conversions of
-- numbers to bytes.
pub mod Agree
pub mod Int
pub mod Words
pub mod Sample
pub mod Cipher
pub mod Affine
pub mod Blocks
pub mod Container
use krcm_spn.Base.{
  Bool, Bytes, false, if◌then◌else◌, ltb, lt→ltb, refl, to_be_bytes, true, ℕ, ◌<◌, ◌^◌, ◌≡◌,
}

-- `ValueError`, `OverflowError`, `KeyError`, `TypeError`, `AttributeError`, `FormatError` and
-- `AuthenticationError`.
pub data Exception : Type 0 where
  bad_value out_of_range missing_key wrong_type no_attribute bad_format not_authentic : Exception

pub data Attempt {ℓ} (V : Type ℓ) : Type ℓ where
  unfinished : Attempt V
  raised : Exception → Attempt V
  done : V → Attempt V

infixl 5 ◌>>=◌ ◌>>◌
abbrev pub ◌>>=◌ {ℓ κ} : {V : Type ℓ} {W : Type κ} → Attempt V → (V → Attempt W) → Attempt W
unfinished >>= next = unfinished
raised why >>= next = raised why
done v >>= next = next v

abbrev pub ◌>>◌ {ℓ} : {W : Type ℓ} → Attempt (Unit {0}) → Attempt W → Attempt W
first >> next = first >>= λ _. next

-- `if test: raise why`
abbrev pub raise_if : Bool → Exception → Attempt (Unit {0})
raise_if true why = raised why
raise_if false why = done tt

-- `n.to_bytes(w, "big")`
abbrev pub to_bytes : ℕ → ℕ → Attempt Bytes
to_bytes w n = if ltb n (256 ^ w) then done (to_be_bytes w n) else raised out_of_range

pub to_bytes_fits : (w n : ℕ) → n < 256 ^ w → to_bytes w n ≡ done (to_be_bytes w n)
to_bytes_fits w n h = rw (lt→ltb n (256 ^ w) h) refl
