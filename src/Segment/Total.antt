-- ===== src/Segment/Total.antt =====
-- The segment table of crates/krcm-core/src/format_v5.rs, with reads that do not panic.
use krcm_spn.Base.{
  >>=-ap, Bool-cases, Bytes, List, Outcome, [], ap, arith, checked_add, drop, fail_if, format, inl,
  inr, length, length-drop, length-take, ok, ok_or, read_u64_be, refl, slice_in_range, suc, take,
  zero, ℕ, ◌!=◌, ◌%◌, ◌*◌, ◌+◌, ◌/◌, ◌==◌, ◌>>=◌, ◌>>◌, ◌||◌, ◌∷◌, ◌≡◌,
}
use krcm_spn.Constants.{block_bytes, segment_entry_bytes}
use krcm_spn.Segment.{SegmentEntry, parse_entries, parse_segment_table, read_entry}

-- `read_u64(&chunk[start..start + 8])`, five times.
unfoldable pub read_entry_total : Bytes → SegmentEntry
read_entry_total chunk = record {
  segment_index = read_u64_be chunk 0;
  plain_offset = read_u64_be chunk 8;
  plain_length = read_u64_be chunk 16;
  ciphertext_offset = read_u64_be chunk 24;
  ciphertext_length = read_u64_be chunk 32;
}

-- The loop over `chunks_exact(40).enumerate()` from the entry `ordinal` on, with `n` entries left
-- and the two expected offsets; the last expected ciphertext offset is returned too.
unfoldable pub parse_entries_total : ℕ → ℕ → ℕ → ℕ → Bytes → Outcome (List SegmentEntry × ℕ)
parse_entries_total zero ordinal plain cipher table = ok ([], cipher)
parse_entries_total (suc n) ordinal plain cipher table = do
  let entry = read_entry_total (take segment_entry_bytes table)
  fail_if
      ((entry.segment_index != ordinal)
        || (entry.plain_offset != plain)
        || (entry.ciphertext_offset != cipher)
        || (entry.ciphertext_length == 0)
        || (entry.ciphertext_length % block_bytes != 0))
      format
  plain' ← ok_or (checked_add plain entry.plain_length) format
  cipher' ← ok_or (checked_add cipher entry.ciphertext_length) format
  (entries, last) ←
      parse_entries_total n (ordinal + 1) plain' cipher' (drop segment_entry_bytes table)
  ok (entry ∷ entries, last)

unfoldable pub parse_segment_table_total : Bytes → ℕ → Outcome (List SegmentEntry)
parse_segment_table_total table ciphertext_len = do
  fail_if ((length table == 0) || (length table % segment_entry_bytes != 0)) format
  (entries, last) ← parse_entries_total (length table / segment_entry_bytes) 0 0 0 table
  fail_if (last != ciphertext_len) format
  ok entries

read_entry_lem :
    (chunk : Bytes) → length chunk ≡ 40 → read_entry chunk ≡ ok (read_entry_total chunk)
unfolding read_entry read_entry_total
read_entry_lem chunk size =
    rw
      (
        slice_in_range chunk 0 8 (omega arith) (omega arith),
        slice_in_range chunk 8 16 (omega arith) (omega arith),
        slice_in_range chunk 16 24 (omega arith) (omega arith),
        slice_in_range chunk 24 32 (omega arith) (omega arith),
        slice_in_range chunk 32 40 (omega arith) (omega arith),
      )
      refl

parse_entries_lem :
    (n ordinal plain cipher : ℕ) (table : Bytes)
    → length table ≡ 40 * n
    → parse_entries n ordinal plain cipher table ≡ parse_entries_total n ordinal plain cipher table
unfolding parse_entries parse_entries_total
parse_entries_lem zero ordinal plain cipher table size = refl
parse_entries_lem (suc n) ordinal plain cipher table size =
    let entry = read_entry_total (take 40 table) in
    let bad =
      (entry.segment_index != ordinal)
      || (entry.plain_offset != plain)
      || (entry.ciphertext_offset != cipher)
      || (entry.ciphertext_length == 0)
      || (entry.ciphertext_length % 32 != 0) in
    rw (read_entry_lem (take 40 table) (omega (arith, length-take 40 table))) (
      >>=-ap (fail_if bad format) (λ _.
        >>=-ap (ok_or (checked_add plain entry.plain_length) format) (λ p.
          >>=-ap (ok_or (checked_add cipher entry.ciphertext_length) format) (λ q.
            ap
              (λ (r : Outcome (List SegmentEntry × ℕ)). r >>= (λ (t : List SegmentEntry × ℕ).
                let out : Outcome (List SegmentEntry × ℕ) = ok (entry ∷ t.0, t.1) in out))
              (parse_entries_lem n (ordinal + 1) p q (drop 40 table)
                (omega (arith, length-drop 40 table)))))))

-- The entries have 40 bytes each, so no read of the table panics.
pub parse_segment_table_lem :
    (table : Bytes) (ciphertext_len : ℕ)
    → parse_segment_table table ciphertext_len ≡ parse_segment_table_total table ciphertext_len
unfolding parse_segment_table parse_segment_table_total
parse_segment_table_lem table ciphertext_len =
    elim (Bool-cases ((length table == 0) || (length table % 40 != 0))) [
      | inl bad ↦ rw bad refl
      | inr good ↦
          let size : length table ≡ 40 * (length table / 40) = ground arith in
          rw (parse_entries_lem (length table / 40) 0 0 0 table size) refl
    ]
