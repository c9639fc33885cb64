-- ===== src/Segment.antt =====
-- The segment table of crates/krcm-core/src/format_v5.rs: one entry of 40 bytes for each segment.
pub mod Total
pub mod Table
pub mod Entries
pub mod Cipher
pub mod Chunks
pub mod RoundTrip
pub mod Settles
pub mod Sized
use krcm_spn.Base.{
  Bytes, List, Outcome, [], checked_add, drop, fail_if, format, from_be_bytes, length, ok, ok_or,
  slice, suc, take, to_be_bytes, zero, ℕ, ◌!=◌, ◌%◌, ◌++◌, ◌+◌, ◌/◌, ◌<◌, ◌==◌, ◌>>=◌, ◌>>◌, ◌^◌,
  ◌||◌, ◌∷◌, ◌≡◌, ◌≤◌,
}
use krcm_spn.Constants.{block_bytes, segment_entry_bytes}
use krcm_spn.Padding.{last}
use krcm_spn.Sampler.Stream.{chunk}

pub record SegmentEntry : Type 0 where
  pub segment_index : ℕ
  pub plain_offset : ℕ
  pub plain_length : ℕ
  pub ciphertext_offset : ℕ
  pub ciphertext_length : ℕ

unfoldable pub serialize_entry : SegmentEntry → Bytes
serialize_entry e =
    to_be_bytes 8 e.segment_index
    ++ (to_be_bytes 8 e.plain_offset
        ++ (to_be_bytes 8 e.plain_length
            ++ (to_be_bytes 8 e.ciphertext_offset ++ to_be_bytes 8 e.ciphertext_length)))

unfoldable pub serialize_segment_table : List SegmentEntry → Bytes
serialize_segment_table [] = []
serialize_segment_table (e ∷ es) = serialize_entry e ++ serialize_segment_table es

-- `read_u64(&chunk[start..start + 8])`, five times.
unfoldable pub read_entry : Bytes → Outcome SegmentEntry
read_entry chunk = do
  segment_index ← slice chunk 0 8
  plain_offset ← slice chunk 8 16
  plain_length ← slice chunk 16 24
  ciphertext_offset ← slice chunk 24 32
  ciphertext_length ← slice chunk 32 40
  ok (record {
    segment_index = from_be_bytes segment_index;
    plain_offset = from_be_bytes plain_offset;
    plain_length = from_be_bytes plain_length;
    ciphertext_offset = from_be_bytes ciphertext_offset;
    ciphertext_length = from_be_bytes ciphertext_length;
  })

-- The loop over `chunks_exact(40).enumerate()` from the entry `ordinal` on, with `n` entries left
-- and the two expected offsets; the last expected ciphertext offset is returned too.
unfoldable pub parse_entries : ℕ → ℕ → ℕ → ℕ → Bytes → Outcome (List SegmentEntry × ℕ)
parse_entries zero ordinal plain cipher table = ok ([], cipher)
parse_entries (suc n) ordinal plain cipher table = do
  entry ← read_entry (take segment_entry_bytes table)
  fail_if
      ((entry.segment_index != ordinal)
        || (entry.plain_offset != plain)
        || (entry.ciphertext_offset != cipher)
        || (entry.ciphertext_length == 0)
        || (entry.ciphertext_length % block_bytes != 0))
      format
  plain' ← ok_or (checked_add plain entry.plain_length) format
  cipher' ← ok_or (checked_add cipher entry.ciphertext_length) format
  (entries, last) ← parse_entries n (ordinal + 1) plain' cipher' (drop segment_entry_bytes table)
  ok (entry ∷ entries, last)

unfoldable pub parse_segment_table : Bytes → ℕ → Outcome (List SegmentEntry)
parse_segment_table table ciphertext_len = do
  fail_if ((length table == 0) || (length table % segment_entry_bytes != 0)) format
  (entries, last) ← parse_entries (length table / segment_entry_bytes) 0 0 0 table
  fail_if (last != ciphertext_len) format
  ok entries

-- What a table must be: the entries are numbered, and lie one behind the other in the plaintext and
-- in the ciphertext from the given offsets on, up to `last`.
abbrev pub Contiguous : ℕ → ℕ → ℕ → ℕ → List SegmentEntry → Type 0
Contiguous ordinal plain cipher last [] = cipher ≡ last
Contiguous ordinal plain cipher last (e ∷ es) =
    (e.segment_index ≡ ordinal)
    × (ordinal < 2 ^ 64)
    × (e.plain_offset ≡ plain)
    × (e.ciphertext_offset ≡ cipher)
    × (1 ≤ e.ciphertext_length)
    × (e.ciphertext_length % 32 ≡ 0)
    × (plain + e.plain_length < 2 ^ 64)
    × (cipher + e.ciphertext_length < 2 ^ 64)
    × Contiguous (ordinal + 1) (plain + e.plain_length) (cipher + e.ciphertext_length) last es
