-- ===== src/InnerV5.antt =====
-- The inner plaintext of crates/krcm-core/src/format_v5.rs: a header of 76 bytes, the payload, and
-- random padding.
pub mod Total
pub mod Laws
pub mod Sound
pub mod Settles
pub mod Overflow
use krcm_spn.Base.{
  Bool, Bytes, Outcome, [], add_u64, any_nonzero, authentication, bytes_eq, fail_if, from_be_bytes,
  get_or, if◌then◌else◌, index, length, ltb, min, not, ok, replicate, slice, to_be_bytes, ℕ, ◌!=◌,
  ◌%◌, ◌*◌, ◌++◌, ◌+◌, ◌==◌, ◌>>=◌, ◌>>◌, ◌||◌, ◌∷◌,
}
use krcm_spn.Constants.{block_bytes, inner_header_bytes, inner_magic, rounds}
use krcm_spn.HeaderV5.{PaddingPolicy, minimal_block, random_blocks}
use krcm_spn.Primitives.{Primitives, Rng}

pub record InnerInfo : Type 0 where
  pub original_length : ℕ
  pub payload_length : ℕ

module _ (c : Primitives) (rng : Rng) (checks : Bool) where
  -- The length of the random padding, and the number of the next call of the generator.
  unfoldable pub random_padding_len : PaddingPolicy → ℕ → ℕ × ℕ
  random_padding_len minimal_block call = (0, call)
  random_padding_len (random_blocks max_blocks) call =
      let limit = min max_blocks 15 in
      let count = get_or (rng.fill_bytes call 1) 0 0 in
      if limit == 0 then (0, call) else ((count % (limit + 1)) * block_bytes, call + 1)

  -- The first 28 bytes, up to the digest, and the 16 behind it.
  unfoldable pub inner_front : ℕ → Bytes
  inner_front size =
      (inner_magic ++ 1 ∷ 0 ∷ 0 ∷ 0 ∷ []) ++ (to_be_bytes 8 size ++ to_be_bytes 8 size)

  unfoldable pub inner_back : Bytes
  inner_back = (0 ∷ 1 ∷ 0 ∷ 32 ∷ 0 ∷ 10 ∷ []) ++ replicate 10 0

  unfoldable pub pack_inner : Bytes → PaddingPolicy → ℕ → Bytes
  pack_inner input padding call =
      let (random_len, call') = random_padding_len padding call in
      let random = (if random_len == 0 then [] else rng.fill_bytes call' random_len) in
      inner_front (length input) ++ (c.sha256 input ++ (inner_back ++ (input ++ random)))

  -- The operands of `||` one after the other: what is behind one that holds is not read.
  unfoldable pub inspect_inner : Bytes → Outcome InnerInfo
  inspect_inner inner = do
    fail_if (ltb (length inner) inner_header_bytes) authentication
    magic ← slice inner 0 8
    fail_if (not (bytes_eq magic inner_magic)) authentication
    version ← index inner 8
    fail_if (version != 1) authentication
    flags ← index inner 9
    fail_if (flags != 0) authentication
    reserved ← slice inner 10 12
    fail_if (not (bytes_eq reserved (0 ∷ 0 ∷ []))) authentication
    cipher_version ← slice inner 60 62
    fail_if (from_be_bytes cipher_version != 1) authentication
    stated_block ← slice inner 62 64
    fail_if (from_be_bytes stated_block != block_bytes) authentication
    stated_rounds ← slice inner 64 66
    fail_if (from_be_bytes stated_rounds != rounds) authentication
    zeros ← slice inner 66 76
    fail_if (any_nonzero zeros) authentication
    original_bytes ← slice inner 12 20
    let original_length = from_be_bytes original_bytes
    payload_bytes ← slice inner 20 28
    let payload_length = from_be_bytes payload_bytes
    payload_end ← add_u64 checks inner_header_bytes payload_length
    fail_if (ltb (length inner) payload_end || ltb payload_length original_length) authentication
    payload ← slice inner inner_header_bytes payload_end
    digest ← slice inner 28 60
    fail_if (not (c.ct_eq digest (c.sha256 payload))) authentication
    ok (record { original_length = original_length; payload_length = payload_length })

  unfoldable pub unpack_inner : Bytes → Outcome Bytes
  unpack_inner inner = do
    info ← inspect_inner inner
    payload_end ← add_u64 checks inner_header_bytes info.payload_length
    payload ← slice inner inner_header_bytes payload_end
    slice payload 0 info.original_length
