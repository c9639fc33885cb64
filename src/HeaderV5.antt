-- ===== src/HeaderV5.antt =====
-- The 64 bytes of the public header of crates/krcm-core/src/format_v5.rs.
pub mod Total
pub mod Laws
pub mod Sound
use krcm_spn.Base.{
  Bool, Bytes, Option, Outcome, [], any_nonzero, bytes_eq, err, fail_if, format, from_be_bytes,
  if◌then◌else◌, index, invalid_parameter, leb, length, ltb, max, not, ok, panic, replicate, slice,
  suc, to_be_bytes, zero, ℕ, ◌!=◌, ◌%◌, ◌++◌, ◌+◌, ◌==◌, ◌>>=◌, ◌>>◌, ◌^◌, ◌∷◌,
}
use krcm_spn.Constants.{block_bytes, header_v5_size, magic_v5}
use krcm_spn.Kdf.{KdfParams, bad_iterations, bad_scrypt, pbkdf2_params, scrypt_params}

pub data PaddingPolicy : Type 0 where
  minimal_block : PaddingPolicy
  random_blocks : ℕ → PaddingPolicy

pub record EncryptV5Options : Type 0 where
  pub kdf : KdfParams
  pub padding_policy : PaddingPolicy
  pub segment_size : ℕ
  pub workers : ℕ
  pub salt : Option Bytes
  pub public_nonce : Option Bytes

pub record ParsedHeader : Type 0 where
  pub kdf : KdfParams
  pub salt : Bytes
  pub public_nonce : Bytes

-- The smallest k from `start` on with n at most 2 ^ k, looked for in `fuel` steps.
unfoldable pub log_from : ℕ → ℕ → ℕ → ℕ
log_from zero start n = start
log_from (suc fuel) start n =
    let rest = log_from fuel (start + 1) n in if leb n (2 ^ start) then start else rest

-- `n.next_power_of_two().trailing_zeros()` on usize: past 2 ^ 63 the power overflows, which panics
-- with overflow checks and gives 0, with 64 trailing zeros, without.
unfoldable pub segment_size_log2 : Bool → ℕ → Outcome ℕ
segment_size_log2 checks n =
    if ltb (2 ^ 63) n then (if checks then panic else ok 64) else ok (log_from 63 0 n)

-- Bytes 10 to 24: the function's id, a reserved byte and the four parameter fields.
unfoldable pub pack_kdf : KdfParams → Outcome Bytes
pack_kdf (pbkdf2_params iterations) = do
  fail_if (bad_iterations iterations) invalid_parameter
  ok ((1 ∷ 0 ∷ []) ++ (to_be_bytes 4 iterations ++ replicate 9 0))
pack_kdf (scrypt_params n_log2 r p) = do
  fail_if (bad_scrypt n_log2 r p) invalid_parameter
  ok ((2 ∷ 0 ∷ 0 ∷ 0 ∷ 0 ∷ 0 ∷ n_log2 ∷ []) ++ (to_be_bytes 4 r ++ to_be_bytes 4 p))

abbrev pub padding_id : PaddingPolicy → ℕ
padding_id minimal_block = 0
padding_id (random_blocks max_blocks) = 1

unfoldable pub pack_public_header : Bool → EncryptV5Options → Bytes → Bytes → Outcome Bytes
pack_public_header checks opts salt public_nonce = do
  kdf ← pack_kdf opts.kdf
  size_log2 ← segment_size_log2 checks (max opts.segment_size block_bytes)
  ok (
      (magic_v5 ++ 5 ∷ 1 ∷ [])
      ++ (kdf
          ++ ((size_log2 % 256 ∷ padding_id opts.padding_policy ∷ 0 ∷ 0 ∷ 0 ∷ 0 ∷ 0 ∷ [])
              ++ (salt ++ public_nonce))))

-- `match header[10]`
unfoldable pub parse_pbkdf2 : Bytes → Outcome KdfParams
parse_pbkdf2 header = do
  iterations ← slice header 12 16
  ok (pbkdf2_params (from_be_bytes iterations))

unfoldable pub parse_scrypt : Bytes → Outcome KdfParams
parse_scrypt header = do
  n_log2 ← index header 16
  r ← slice header 17 21
  p ← slice header 21 25
  ok (scrypt_params n_log2 (from_be_bytes r) (from_be_bytes p))

unfoldable pub parse_kdf : Bytes → Outcome KdfParams
parse_kdf header = do
  kind ← index header 10
  if kind == 1
      then parse_pbkdf2 header
      else (if kind == 2 then parse_scrypt header else err invalid_parameter)

-- The operands of `||` one after the other: what is behind one that holds is not read.
unfoldable pub parse_public_header : Bytes → Outcome ParsedHeader
parse_public_header header = do
  fail_if (length header != header_v5_size) format
  magic ← slice header 0 8
  fail_if (not (bytes_eq magic magic_v5)) format
  version ← index header 8
  fail_if (version != 5) format
  header_version ← index header 9
  fail_if (header_version != 1) format
  flags ← index header 11
  fail_if (flags != 0) format
  reserved ← slice header 27 32
  fail_if (any_nonzero reserved) format
  padding ← index header 26
  fail_if (ltb 1 padding) invalid_parameter
  kdf ← parse_kdf header
  salt ← slice header 32 48
  public_nonce ← slice header 48 64
  ok (record { kdf = kdf; salt = salt; public_nonce = public_nonce })
