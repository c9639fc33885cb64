-- ===== src/HeaderV4/Laws.antt =====
-- `to_json_bytes` and `from_json_bytes` of crates/krcm-core/src/header_v4.rs.
use krcm_spn.Base.{
  Bool-cases, Bytes, IsArray, arith, codes, eq→!=_false, false, inl, inr, leb, length, ok, refl,
  true, ℕ, ◌%◌, ◌<◌, ◌==◌, ◌^◌, ◌≡◌, ◌≤◌,
}
use krcm_spn.HeaderV4.{
  HeaderV4, construction, decode_fixed, from_json_bytes, members, new_header, read_fields,
  to_json_bytes,
}
use krcm_spn.Json.{Base64, IsPlain, IsPlainObject, Json}
use krcm_spn.Json.Size.{length-print_object, room}
use krcm_spn.Kdf.{bad_iterations}
use krcm_spn.Matrix.{u64}

-- What `from_json_bytes` takes.
abbrev pub IsValidHeader : HeaderV4 → Type 0
IsValidHeader header =
    (2 ≤ header.version)
    × (header.version ≤ 4)
    × (1 ≤ header.iterations)
    × (header.iterations ≤ 1_000_000)
    × IsArray 16 header.salt
    × IsArray 16 header.nonce
    × (header.original_length < 2 ^ 64)

pub construction-IsPlain : (version : ℕ) → IsPlain (construction version)
construction-IsPlain version = elim (Bool-cases (version == 3)) [
  | inl three ↦ rw three (omega arith)
  | inr other ↦ rw other (omega arith)
]

pub iterations_test : (i : ℕ) → 1 ≤ i → i ≤ 1_000_000 → bad_iterations i ≡ false
iterations_test i lo hi = ground arith

pub new_header-IsValidHeader :
    (iterations : ℕ) (salt nonce : Bytes) (original_length : ℕ)
    → 1 ≤ iterations
    → iterations ≤ 1_000_000
    → IsArray 16 salt
    → IsArray 16 nonce
    → original_length < 2 ^ 64
    → IsValidHeader (new_header iterations salt nonce original_length)
unfolding new_header
new_header-IsValidHeader iterations salt nonce original_length lo hi hs hn fits =
    (omega arith, omega arith, lo, hi, hs, hn, fits)

module _ (base64 : Base64) where
  pub members-IsPlainObject :
      (header : HeaderV4) → IsValidHeader header → IsPlainObject (members base64 header)
  unfolding members
  members-IsPlainObject header (v1, v2, i1, i2, hs, hn, fits) =
      let plain_salt = base64.encode-IsPlain header.salt hs.1 in
      let plain_nonce = base64.encode-IsPlain header.nonce hn.1 in
      let plain_name = construction-IsPlain header.version in
      (
        omega arith,
        omega arith,
        refl,
        (
          omega arith,
          plain_name,
          refl,
          (
            omega arith,
            omega arith,
            refl,
            (
              omega arith,
              omega arith,
              refl,
              (
                omega arith,
                plain_nonce,
                refl,
                (
                  omega arith,
                  fits,
                  refl,
                  (
                    omega arith,
                    omega arith,
                    refl,
                    (
                      omega arith,
                      plain_salt,
                      refl,
                      (omega arith, omega arith, refl, (omega arith, omega arith, refl, tt)),
                    ),
                  ),
                ),
              ),
            ),
          ),
        ),
      )

  decode_fixed-encode :
      (n : ℕ) (bytes : Bytes)
      → IsArray n bytes
      → decode_fixed base64 n (base64.encode bytes) ≡ ok bytes
  unfolding decode_fixed
  decode_fixed-encode n bytes h =
      rw (base64.decode-encode bytes h.1, eq→!=_false (length bytes) n h.0) refl

  length-construction : (version : ℕ) → length (construction version) ≤ 33
  length-construction version = elim (Bool-cases (version == 3)) [
    | inl three ↦ rw three (omega arith)
    | inr other ↦ rw other (omega arith)
  ]

  -- The length of a valid header fits the limit of a container.
  pub length-to_json_bytes :
      (header : HeaderV4)
      → IsValidHeader header
      → (1 ≤ length (to_json_bytes base64 header)) × (length (to_json_bytes base64 header) ≤ 4096)
  unfolding to_json_bytes members
  length-to_json_bytes header h =
      let (some_byte, few) = length-print_object (members base64 header) in
      let name = length-construction header.version in
      let (v1, v2, i1, i2, hs, hn, fits) = h in
      let salt_room = base64.length-encode header.salt in
      let nonce_room = base64.length-encode header.nonce in
      let total : room (members base64 header) ≤ 4000 =
        omega (arith, name, salt_room, nonce_room, hs.0, hn.0) in
      omega (arith, some_byte, few, total)

module _ (json : Json) (base64 : Base64) where
  -- A valid header is read back.
  pub from_json_bytes-to_json_bytes :
      (header : HeaderV4)
      → IsValidHeader header
      → from_json_bytes json base64 (to_json_bytes base64 header) ≡ ok header
  unfolding from_json_bytes read_fields to_json_bytes members
  from_json_bytes-to_json_bytes header h =
      let (v1, v2, i1, i2, hs, hn, fits) = h in
      let (payload, parsed, str, u64) =
        json.from_slice-print_object (members base64 header)
          (members-IsPlainObject base64 header h) in
      let small : header.version % 256 ≡ header.version = omega arith in
      let low : leb 2 header.version ≡ true = ground arith in
      let high : leb header.version 4 ≡ true = ground arith in
      let some_round : bad_iterations header.iterations ≡ false = ground arith in
      rw
        (
          parsed,
          str (codes "magic") (codes "AMPCRYPT") refl,
          u64 (codes "version") header.version refl,
          small,
          low,
          high,
          u64 (codes "block_bytes") 32 refl,
          u64 (codes "rounds") 10 refl,
          u64 (codes "iterations") header.iterations refl,
          some_round,
          u64 (codes "original_length") header.original_length refl,
          str (codes "salt") (base64.encode header.salt) refl,
          decode_fixed-encode base64 16 header.salt hs,
          str (codes "nonce") (base64.encode header.nonce) refl,
          decode_fixed-encode base64 16 header.nonce hn,
        )
        refl
