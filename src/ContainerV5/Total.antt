-- ===== src/ContainerV5/Total.antt =====
-- `decrypt_v5` of crates/krcm-core/src/format_v5.rs up to the tag, its fixed reads without a panic.
use krcm_spn.Base.{
  Bool, Bool-cases, Bytes, Outcome, add_u64, arith, bytes_eq, drop, fail_if, format, get_or,
  index_in_range, inl, inr, length, ltb, ltb_false→le, not, ok, read_be, refl, slice,
  slice_in_range, take, ◌!=◌, ◌%◌, ◌+◌, ◌>>=◌, ◌>>◌, ◌||◌, ◌≡◌,
}
use krcm_spn.Constants.{
  header_v5_size, magic_v5, outer_prefix_bytes, segment_entry_bytes, synthetic_iv_bytes, tag_bytes,
}
use krcm_spn.ContainerV5.{Parts, read_fixed_32, read_parts, read_u64_at}
use krcm_spn.HeaderV5.{parse_public_header}

module _ (checks : Bool) where
  unfoldable pub read_parts_total : Bytes → Outcome Parts
  read_parts_total container = do
    fail_if
        (ltb (length container)
          (outer_prefix_bytes + header_v5_size + synthetic_iv_bytes + tag_bytes))
        format
    fail_if (not (bytes_eq (take 8 container) magic_v5) || (get_or container 8 0 != 5)) format
    fail_if (read_be 4 container 9 != header_v5_size) format
    let public_header = take header_v5_size (drop 13 container)
    parsed ← parse_public_header public_header
    (stored_iv, offset1) ← read_fixed_32 checks container (13 + header_v5_size)
    (segment_table_len, offset2) ← read_u64_at checks container offset1
    fail_if (segment_table_len % segment_entry_bytes != 0) format
    table_end ← add_u64 checks offset2 segment_table_len
    fail_if (ltb (length container) table_end) format
    segment_table ← slice container offset2 table_end
    (ciphertext_len, offset3) ← read_u64_at checks container table_end
    ciphertext_end ← add_u64 checks offset3 ciphertext_len
    container_end ← add_u64 checks ciphertext_end tag_bytes
    fail_if (container_end != length container) format
    ciphertext ← slice container offset3 ciphertext_end
    tag ← slice container ciphertext_end (length container)
    ok (record {
      public_header = public_header;
      parsed = parsed;
      stored_synthetic_iv = stored_iv;
      segment_table = segment_table;
      ciphertext = ciphertext;
      tag = tag;
    })

  -- The length is compared before anything is read, so the fixed reads do not panic.
  pub read_parts_lem :
      (container : Bytes) → read_parts checks container ≡ read_parts_total container
  unfolding read_parts read_parts_total
  read_parts_lem container = elim (Bool-cases (ltb (length container) 141)) [
    | inl short ↦ rw short refl
    | inr long ↦
        let size = ltb_false→le (length container) 141 long in
        let first = slice_in_range container 0 8 (omega arith) (omega arith) in
        elim (Bool-cases (bytes_eq (take 8 container) magic_v5)) [
          | inl named ↦
              rw
                (
                  long,
                  first,
                  named,
                  index_in_range container 8 (omega arith),
                  slice_in_range container 9 13 (omega arith) (omega arith),
                  slice_in_range container 13 77 (omega arith) (omega arith),
                )
                refl
          | inr other ↦ rw (long, first, other) refl
        ]
  ]
