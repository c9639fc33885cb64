-- ===== src/ContainerV4/Total.antt =====
-- `decrypt_v4` of crates/krcm-core/src/format_v4.rs up to the tag, its first reads without a panic.
use krcm_spn.Base.{
  Bool, Bool-cases, Bytes, Outcome, add_u64, arith, bytes_eq, checked_add, fail_if, format, inl,
  inr, length, ltb, ltb_false→le, not, ok, ok_or, read_be, refl, slice, slice_in_range, take, ℕ,
  ◌+◌, ◌-◌, ◌==◌, ◌>>=◌, ◌>>◌, ◌||◌, ◌≡◌,
}
use krcm_spn.Constants.{magic_v4, max_header_bytes, tag_bytes}
use krcm_spn.ContainerV4.{PartsV4, read_v4}
use krcm_spn.HeaderV4.{from_json_bytes}
use krcm_spn.Json.{Base64, Json}
use krcm_spn.Primitives.{Primitives, Rng}

module _ (json : Json) (base64 : Base64) (checks : Bool) where
  unfoldable pub read_v4_total : Bytes → Outcome PartsV4
  read_v4_total container = do
    fail_if
        (ltb (length container) (8 + 4 + tag_bytes) || not (bytes_eq (take 8 container) magic_v4))
        format
    let header_len = read_be 4 container 8
    end ← ok_or (checked_add (8 + 4) header_len) format
    fail_if ((header_len == 0) || ltb max_header_bytes header_len) format
    tag_end ← add_u64 checks end tag_bytes
    fail_if (ltb (length container) tag_end) format
    header_bytes ← slice container (8 + 4) end
    header ← from_json_bytes json base64 header_bytes
    ciphertext ← slice container end (length container - tag_bytes)
    tag ← slice container (length container - tag_bytes) (length container)
    ok (record { header_bytes = header_bytes; header = header; ciphertext = ciphertext; tag = tag })

module _ (c : Primitives) (rng : Rng) (json : Json) (base64 : Base64) (fuel : ℕ)
    (checks : Bool) where
  -- The length is compared before anything is read, so the first reads do not panic.
  pub read_v4_lem :
      (container : Bytes)
      → read_v4 c rng json base64 fuel checks container ≡ read_v4_total json base64 checks container
  unfolding read_v4 read_v4_total
  read_v4_lem container = elim (Bool-cases (ltb (length container) 44)) [
    | inl short ↦ rw short refl
    | inr long ↦
        let size = ltb_false→le (length container) 44 long in
        rw
          (
            long,
            slice_in_range container 0 8 (omega arith) (omega arith),
            slice_in_range container 8 12 (omega arith) (omega arith),
          )
          refl
  ]
