-- ===== src/Json.antt =====
-- What crates/krcm-core/src/header_v4.rs takes from other crates: serde_json and base64. The law of
-- the parser is about objects of texts and numbers without escapes, printed without blanks.
pub mod Size
use krcm_spn.Base.{
  All, Bytes, IsBytes, List, Option, [], bytes_eq, decimal, if◌then◌else◌, length, none, some, ℕ,
  ◌*◌, ◌++◌, ◌+◌, ◌<◌, ◌^◌, ◌∷◌, ◌≡◌, ◌≢◌, ◌≤◌,
}

pub data Field : Type 0 where
  text : Bytes → Field
  number : ℕ → Field

-- Characters that a JSON string holds as they are.
abbrev pub IsPlain : Bytes → Type 0
IsPlain = All (λ b. (32 ≤ b) × (b < 127) × (b ≢ 34) × (b ≢ 92))

abbrev pub print_field : Field → Bytes → Bytes
print_field (text t) rest = 34 ∷ (t ++ 34 ∷ rest)
print_field (number n) rest = decimal n ++ rest

abbrev pub print_member : Bytes × Field → Bytes → Bytes
print_member (key, field) rest = 34 ∷ (key ++ 34 ∷ (58 ∷ print_field field rest))

abbrev pub print_members : List (Bytes × Field) → Bytes
print_members [] = 125 ∷ []
print_members (m ∷ ms) = 44 ∷ print_member m (print_members ms)

-- `{"key":"text","key":12}`
abbrev pub print_object : List (Bytes × Field) → Bytes
print_object [] = 123 ∷ (125 ∷ [])
print_object (m ∷ ms) = 123 ∷ print_member m (print_members ms)

abbrev pub find : Bytes → List (Bytes × Field) → Option Field
find key [] = none
find key ((k, field) ∷ ms) = let rest = find key ms in if bytes_eq key k then some field else rest

abbrev pub IsPlainField : Field → Type 0
IsPlainField (text t) = IsPlain t
IsPlainField (number n) = n < 2 ^ 64

-- Plain keys, no two alike, and plain fields.
abbrev pub IsPlainObject : List (Bytes × Field) → Type 0
IsPlainObject [] = Unit
IsPlainObject ((key, field) ∷ ms) =
    IsPlain key × IsPlainField field × (find key ms ≡ none) × IsPlainObject ms

pub record Json : Type 1 where
  pub Value : Type 0
  -- `serde_json::from_slice`
  pub from_slice : Bytes → Option Value
  -- `payload.get(key).and_then(Value::as_str)` and `Value::as_u64`
  pub get_str : Bytes → Value → Option Bytes
  pub get_u64 : Bytes → Value → Option ℕ
  pub get_u64-lt : (key : Bytes) (value : Value) {n : ℕ} → get_u64 key value ≡ some n → n < 2 ^ 64
  pub from_slice-print_object :
      (ms : List (Bytes × Field))
      → IsPlainObject ms
      → (value : Value) × (from_slice (print_object ms) ≡ some value)
        × ((key t : Bytes) → find key ms ≡ some (text t) → get_str key value ≡ some t)
        × ((key : Bytes) (n : ℕ) → find key ms ≡ some (number n) → get_u64 key value ≡ some n)

-- `STANDARD` of base64: four characters for three bytes, the last group filled up.
pub record Base64 : Type 0 where
  pub encode : Bytes → Bytes
  pub decode : Bytes → Option Bytes
  pub encode-IsPlain : (bytes : Bytes) → IsBytes bytes → IsPlain (encode bytes)
  pub length-encode : (bytes : Bytes) → length (encode bytes) ≤ 2 * length bytes + 4
  pub decode-encode : (bytes : Bytes) → IsBytes bytes → decode (encode bytes) ≡ some bytes
  pub decode-IsBytes : (input : Bytes) {bytes : Bytes} → decode input ≡ some bytes → IsBytes bytes
