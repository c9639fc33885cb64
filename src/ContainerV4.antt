-- ===== src/ContainerV4.antt =====
-- A version 4 container: crates/krcm-core/src/format_v4.rs.
pub mod Total
pub mod RoundTrip
pub mod Authentic
pub mod Settles
pub mod Sized
use krcm_spn.Base.{
  Bool, Bytes, Option, Outcome, add_u64, authentication, bytes_eq, checked_add, fail_if, format,
  from_be_bytes, invalid_parameter, length, ltb, none, not, ok, ok_or, slice, to_be_bytes, ℕ, ◌!=◌,
  ◌%◌, ◌++◌, ◌+◌, ◌-◌, ◌==◌, ◌>>=◌, ◌>>◌, ◌^◌, ◌||◌,
}
use krcm_spn.Block.{decrypt_blocks, encrypt_blocks}
use krcm_spn.Constants.{default_iterations, magic_v4, max_header_bytes, tag_bytes}
use krcm_spn.HeaderV4.{HeaderV4, from_json_bytes, new_header, to_json_bytes}
use krcm_spn.Json.{Base64, Json}
use krcm_spn.Kdf.{bad_iterations, derive_keys, make_tag}
use krcm_spn.Padding.{pad, unpad}
use krcm_spn.Primitives.{Primitives, Rng, unwrap_or_fill}

pub record EncryptV4Options : Type 0 where
  pub iterations : ℕ
  pub salt : Option Bytes
  pub nonce : Option Bytes

-- `EncryptV4Options::default()`
abbrev pub default_options : EncryptV4Options
default_options = record { iterations = default_iterations; salt = none; nonce = none }

-- The pieces that a container is cut into.
pub record PartsV4 : Type 0 where
  pub header_bytes : Bytes
  pub header : HeaderV4
  pub ciphertext : Bytes
  pub tag : Bytes

-- The layout of a container.
unfoldable pub assemble_v4 : Bytes → Bytes → Bytes → Bytes
assemble_v4 header_bytes ciphertext tag =
    magic_v4
    ++ (to_be_bytes 4 (length header_bytes % 2 ^ 32) ++ (header_bytes ++ (ciphertext ++ tag)))

module _ (c : Primitives) (rng : Rng) (json : Json) (base64 : Base64) (fuel : ℕ)
    (checks : Bool) where
  unfoldable pub encrypt_v4 : Bytes → Bytes → EncryptV4Options → Outcome Bytes
  encrypt_v4 input password opts = do
    fail_if (bad_iterations opts.iterations) invalid_parameter
    let (salt, call) = unwrap_or_fill rng opts.salt 0
    let (nonce, call') = unwrap_or_fill rng opts.nonce call
    let header = new_header opts.iterations salt nonce (length input)
    (enc_key, auth_key) ← derive_keys c password salt opts.iterations
    ciphertext ← encrypt_blocks c fuel (pad input) enc_key nonce
    let header_bytes = to_json_bytes base64 header
    let tag = make_tag c auth_key header_bytes ciphertext
    ok (assemble_v4 header_bytes ciphertext tag)

  -- `decrypt_v4` up to the tag.
  unfoldable pub read_v4 : Bytes → Outcome PartsV4
  read_v4 container = do
    fail_if (ltb (length container) (8 + 4 + tag_bytes)) format
    magic ← slice container 0 8
    fail_if (not (bytes_eq magic magic_v4)) format
    len_bytes ← slice container 8 (8 + 4)
    let header_len = from_be_bytes len_bytes
    end ← ok_or (checked_add (8 + 4) header_len) format
    fail_if ((header_len == 0) || ltb max_header_bytes header_len) format
    tag_end ← add_u64 checks end tag_bytes
    fail_if (ltb (length container) tag_end) format
    header_bytes ← slice container (8 + 4) end
    header ← from_json_bytes json base64 header_bytes
    ciphertext ← slice container end (length container - tag_bytes)
    tag ← slice container (length container - tag_bytes) (length container)
    ok (record { header_bytes = header_bytes; header = header; ciphertext = ciphertext; tag = tag })

  -- `decrypt_v4` from the tag on.
  unfoldable pub open_v4 : PartsV4 → Bytes → Outcome Bytes
  open_v4 parts password = do
    let header = parts.header
    (enc_key, auth_key) ← derive_keys c password header.salt header.iterations
    let expected = make_tag c auth_key parts.header_bytes parts.ciphertext
    fail_if (not (c.ct_eq parts.tag expected)) authentication
    padded ← decrypt_blocks c fuel parts.ciphertext enc_key header.nonce
    plain ← unpad padded
    fail_if (length plain != header.original_length) authentication
    ok plain

  unfoldable pub decrypt_v4 : Bytes → Bytes → Outcome Bytes
  decrypt_v4 container password = read_v4 container >>= λ parts. open_v4 parts password
