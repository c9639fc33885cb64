-- ===== src/Segment/Entries.antt =====
-- One entry of 40 bytes of the segment table of crates/krcm-core/src/format_v5.rs.
use krcm_spn.Base.{
  All-append, Bytes, IsArray, IsByte, [], ap, append-nil, arith, cut_field, drop, length-append,
  length-drop, length-to_be_bytes, read_be, read_be-append, read_be-lt, read_be_behind, refl, sym,
  take-all, to_be_bytes, to_be_bytes-IsBytes, to_be_bytes-read_be, ℕ, ◌++◌, ◌<◌, ◌^◌, ◌∙◌, ◌≡◌,
}
use krcm_spn.Sampler.Stream.{chunk}
use krcm_spn.Segment.{SegmentEntry, serialize_entry}
use krcm_spn.Segment.Total.{read_entry_total}

pub record IsEntryWords (e : SegmentEntry) : Type 0 where
  pub index_fits : e.segment_index < 2 ^ 64
  pub plain_fits : e.plain_offset < 2 ^ 64
  pub plain_length_fits : e.plain_length < 2 ^ 64
  pub ciphertext_fits : e.ciphertext_offset < 2 ^ 64
  pub ciphertext_length_fits : e.ciphertext_length < 2 ^ 64

pub serialize_entry-IsArray : (e : SegmentEntry) → IsArray 40 (serialize_entry e)
unfolding serialize_entry
serialize_entry-IsArray e =
    let b0 = to_be_bytes 8 e.segment_index in
    let b1 = to_be_bytes 8 e.plain_offset in
    let b2 = to_be_bytes 8 e.plain_length in
    let b3 = to_be_bytes 8 e.ciphertext_offset in
    let b4 = to_be_bytes 8 e.ciphertext_length in
    (
      omega (
        arith,
        length-append b0 (b1 ++ (b2 ++ (b3 ++ b4))),
        length-append b1 (b2 ++ (b3 ++ b4)),
        length-append b2 (b3 ++ b4),
        length-append b3 b4,
        length-to_be_bytes 8 e.segment_index,
        length-to_be_bytes 8 e.plain_offset,
        length-to_be_bytes 8 e.plain_length,
        length-to_be_bytes 8 e.ciphertext_offset,
        length-to_be_bytes 8 e.ciphertext_length,
      ),
      All-append IsByte b0 _ (to_be_bytes-IsBytes 8 e.segment_index) (
          All-append IsByte b1 _ (to_be_bytes-IsBytes 8 e.plain_offset) (
            All-append IsByte b2 _ (to_be_bytes-IsBytes 8 e.plain_length) (
              All-append IsByte b3 _ (to_be_bytes-IsBytes 8 e.ciphertext_offset)
                (to_be_bytes-IsBytes 8 e.ciphertext_length)))),
    )

pub read_entry_total-serialize_entry :
    (e : SegmentEntry) → IsEntryWords e → read_entry_total (serialize_entry e) ≡ e
unfolding read_entry_total serialize_entry
read_entry_total-serialize_entry e h =
    let b0 = to_be_bytes 8 e.segment_index in
    let b1 = to_be_bytes 8 e.plain_offset in
    let b2 = to_be_bytes 8 e.plain_length in
    let b3 = to_be_bytes 8 e.ciphertext_offset in
    let b4 = to_be_bytes 8 e.ciphertext_length in
    let s0 = length-to_be_bytes 8 e.segment_index in
    let s1 = length-to_be_bytes 8 e.plain_offset in
    let s2 = length-to_be_bytes 8 e.plain_length in
    let s3 = length-to_be_bytes 8 e.ciphertext_offset in
    let r1 = λ (start : ℕ). read_be_behind 8 8 start b0 (b1 ++ (b2 ++ (b3 ++ b4))) s0 in
    let r2 = λ (start : ℕ). read_be_behind 8 8 start b1 (b2 ++ (b3 ++ b4)) s1 in
    let r3 = λ (start : ℕ). read_be_behind 8 8 start b2 (b3 ++ b4) s2 in
    let e0 = read_be-append 8 e.segment_index [] (b1 ++ (b2 ++ (b3 ++ b4))) 0 refl h.index_fits in
    let e1 = read_be-append 8 e.plain_offset b0 (b2 ++ (b3 ++ b4)) 8 s0 h.plain_fits in
    let e2 = r1 8 ∙ read_be-append 8 e.plain_length b1 (b3 ++ b4) 8 s1 h.plain_length_fits in
    let e3 = r1 16 ∙ r2 8 ∙ read_be-append 8 e.ciphertext_offset b2 b4 8 s2 h.ciphertext_fits in
    let e4 =
      r1 24
      ∙ r2 16
      ∙ r3 8
      ∙ ap (λ t. read_be 8 (b3 ++ t) 8) (sym (append-nil b4))
      ∙ read_be-append 8 e.ciphertext_length b3 [] 8 s3 h.ciphertext_length_fits in
    λ i. record {
      segment_index = e0 i;
      plain_offset = e1 i;
      plain_length = e2 i;
      ciphertext_offset = e3 i;
      ciphertext_length = e4 i;
    }

pub serialize_entry-read_entry_total :
    (chunk : Bytes) → IsArray 40 chunk → serialize_entry (read_entry_total chunk) ≡ chunk
unfolding read_entry_total serialize_entry
serialize_entry-read_entry_total chunk h =
    rw
      (
        to_be_bytes-read_be 8 chunk 0 h.1 (omega (arith, h.0)),
        to_be_bytes-read_be 8 chunk 8 h.1 (omega (arith, h.0)),
        to_be_bytes-read_be 8 chunk 16 h.1 (omega (arith, h.0)),
        to_be_bytes-read_be 8 chunk 24 h.1 (omega (arith, h.0)),
        to_be_bytes-read_be 8 chunk 32 h.1 (omega (arith, h.0)),
      )
      (cut_field 8 chunk _ 0 (
        cut_field 8 chunk _ 8 (
          cut_field 8 chunk _ 16 (
            cut_field 8 chunk _ 24
              (take-all 8 (drop 32 chunk) (omega (arith, length-drop 32 chunk, h.0)))))))

pub read_entry_total-IsEntryWords :
    (chunk : Bytes) → IsArray 40 chunk → IsEntryWords (read_entry_total chunk)
unfolding read_entry_total
read_entry_total-IsEntryWords chunk h = record {
  index_fits = read_be-lt 8 chunk 0 h.1 (omega (arith, h.0));
  plain_fits = read_be-lt 8 chunk 8 h.1 (omega (arith, h.0));
  plain_length_fits = read_be-lt 8 chunk 16 h.1 (omega (arith, h.0));
  ciphertext_fits = read_be-lt 8 chunk 24 h.1 (omega (arith, h.0));
  ciphertext_length_fits = read_be-lt 8 chunk 32 h.1 (omega (arith, h.0));
}
