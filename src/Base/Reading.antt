-- ===== src/Base/Reading.antt =====
-- Reading the fields of a byte string one behind the other.
use Prim.Native.Nat.{ℕ, ◌+◌, ◌-◌, ◌^◌, ◌≤◌, ◌<◌}
use mathlib.Core.Path.{◌≡◌, ap, ◌∙◌, sym}
use mathlib.Core.Bool.{Bool, false}
use mathlib.Core.List.{◌++◌}
use native.Mathlib.Omega.{arith}
use krcm_spn.Base.Tests.{ltb, le→ltb_false}
use krcm_spn.Base.Lists.{length, take, drop, length-append, take-append, drop-append, drop-drop}
use krcm_spn.Base.Octets.{Bytes}
use krcm_spn.Base.Results.{ok, add_u64, add_u64_fits, slice, slice_in_range}

-- What stands from an offset on.
pub record Cursor (container : Bytes) (offset : ℕ) (rest : Bytes) : Type 0 where
  pub at : drop offset container ≡ rest
  pub size : offset + length rest ≡ length container
  pub fits : length container < 2 ^ 64

pub advance :
    {container : Bytes} {offset : ℕ} (part rest : Bytes) (k : ℕ)
    → Cursor container offset (part ++ rest)
    → length part ≡ k
    → Cursor container (offset + k) rest
advance {container} {offset} part rest k h e = record {
  at = sym (drop-drop k offset container) ∙ ap (drop k) h.at ∙ drop-append k part rest e;
  size = omega (arith, h.size, length-append part rest);
  fits = h.fits;
}

pub slice_at :
    {container : Bytes} {offset : ℕ} (part rest : Bytes) (k : ℕ)
    → Cursor container offset (part ++ rest)
    → length part ≡ k
    → slice container offset (offset + k) ≡ ok part
slice_at {container} {offset} part rest k h e =
    slice_in_range container offset (offset + k) (omega arith)
      (omega (arith, h.size, length-append part rest))
    ∙ ap (λ (n : ℕ). ok (take n (drop offset container))) {x = offset + k - offset} {y = k}
        (omega arith)
    ∙ ap (λ (t : Bytes). ok (take k t)) h.at
    ∙ ap ok (take-append k part rest e)

module _ (checks : Bool) {container : Bytes} {offset : ℕ} where
  pub end_at :
      (part rest : Bytes) (k : ℕ)
      → Cursor container offset (part ++ rest)
      → length part ≡ k
      → (add_u64 checks offset k ≡ ok (offset + k)) × (ltb (length container) (offset + k) ≡ false)
  end_at part rest k h e =
      let inside : offset + k ≤ length container = omega (arith, h.size, length-append part rest) in
      let bounded = h.fits in
      (
        add_u64_fits checks offset k (omega arith),
        le→ltb_false (length container) (offset + k) inside,
      )
