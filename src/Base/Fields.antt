-- ===== src/Base/Fields.antt =====
-- Big-endian fields at an offset of a byte string.
use Prim.Native.Nat.{ℕ, ◌+◌, ◌^◌, ◌≤◌, ◌<◌}
use mathlib.Core.Path.{◌≡◌, ap, ◌∙◌, sym}
use mathlib.Core.List.{◌++◌}
use native.Mathlib.Omega.{arith}
use krcm_spn.Base.Lists.{
  length, take, drop, take-append, drop-append, drop-drop, take-append-drop, length-take,
  length-drop, All-take, All-drop,
}
use krcm_spn.Base.Octets.{
  Bytes, IsByte, IsBytes, from_be_bytes, to_be_bytes, length-to_be_bytes, from_be_bytes-to_be_bytes,
  to_be_bytes-from_be_bytes, from_be_bytes-lt,
}

-- `from_be_bytes(bytes[start..start + w])`
abbrev pub read_be : ℕ → Bytes → ℕ → ℕ
read_be w bytes start = from_be_bytes (take w (drop start bytes))

-- `read_u64_be(&bytes[start..start + 8])`
abbrev pub read_u64_be : Bytes → ℕ → ℕ
read_u64_be = read_be 8

-- The field at the front of what stands behind `front`.
pub read_be-append :
    (w n : ℕ) (front rest : Bytes) (start : ℕ)
    → length front ≡ start
    → n < 256 ^ w
    → read_be w (front ++ (to_be_bytes w n ++ rest)) start ≡ n
read_be-append w n front rest start h k =
    ap (λ (t : Bytes). from_be_bytes (take w t))
      (drop-append start front (to_be_bytes w n ++ rest) h)
    ∙ ap from_be_bytes (take-append w (to_be_bytes w n) rest (length-to_be_bytes w n))
    ∙ from_be_bytes-to_be_bytes w n k

-- A field of the part that stands behind `front`.
pub read_be_behind :
    (w size start : ℕ) (front rest : Bytes)
    → length front ≡ size
    → read_be w (front ++ rest) (size + start) ≡ read_be w rest start
read_be_behind w size start front rest h =
    ap (λ (t : Bytes). from_be_bytes (take w t))
      (sym (drop-drop start size (front ++ rest)) ∙ ap (drop start) (drop-append size front rest h))

-- A field read and written again.
pub to_be_bytes-read_be :
    (w : ℕ) (bytes : Bytes) (start : ℕ)
    → IsBytes bytes
    → start + w ≤ length bytes
    → to_be_bytes w (read_be w bytes start) ≡ take w (drop start bytes)
to_be_bytes-read_be w bytes start h k = to_be_bytes-from_be_bytes w (take w (drop start bytes)) (
  omega (arith, length-take w (drop start bytes), length-drop start bytes),
  All-take IsByte w (drop start bytes) (All-drop IsByte start bytes h),
)

pub read_be-lt :
    (w : ℕ) (bytes : Bytes) (start : ℕ)
    → IsBytes bytes
    → start + w ≤ length bytes
    → read_be w bytes start < 256 ^ w
read_be-lt w bytes start h k = from_be_bytes-lt w (take w (drop start bytes)) (
  omega (arith, length-take w (drop start bytes), length-drop start bytes),
  All-take IsByte w (drop start bytes) (All-drop IsByte start bytes h),
)

-- A byte string cut at a field.
pub cut_field :
    (w : ℕ) (bytes rest : Bytes) (start : ℕ)
    → rest ≡ drop (start + w) bytes
    → take w (drop start bytes) ++ rest ≡ drop start bytes
cut_field w bytes rest start e =
    ap (λ t. take w (drop start bytes) ++ t) (e ∙ sym (drop-drop w start bytes))
    ∙ take-append-drop w (drop start bytes)
