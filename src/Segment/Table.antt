-- ===== src/Segment/Table.antt =====
-- `serialize_segment_table` and `parse_segment_table` of crates/krcm-core/src/format_v5.rs.
use mathlib.Core.Path.{subst, subst₂}
use krcm_spn.Base.{
  >>=-eq-ok, All-append, All-drop, All-take, Bytes, IsArray, IsByte, IsBytes, List, Outcome,
  Outcome-ok-injective, [], ap, ap₂, arith, checked_add, checked_add_passed, drop, drop-append,
  fail_if, fail_if_passed, false, format, length, length-append, length-drop, length-take, ok,
  ok_or, refl, suc, sym, take, take-append, take-append-drop, zero, ℕ, ◌!=◌, ◌%◌, ◌*◌, ◌++◌, ◌+◌,
  ◌/◌, ◌<◌, ◌==◌, ◌>>=◌, ◌>>◌, ◌^◌, ◌||◌, ◌↔◌, ◌∙◌, ◌∷◌, ◌≡◌, ◌≤◌,
}
use krcm_spn.Padding.{last}
use krcm_spn.Segment.{
  Contiguous, SegmentEntry, parse_segment_table, serialize_entry, serialize_segment_table,
}
use krcm_spn.Segment.Entries.{
  IsEntryWords, read_entry_total-IsEntryWords, read_entry_total-serialize_entry,
  serialize_entry-IsArray, serialize_entry-read_entry_total,
}
use krcm_spn.Segment.Total.{
  parse_entries_total, parse_segment_table_lem, parse_segment_table_total, read_entry_total,
}

-- Offsets that stay below 2 ^ 64 keep every field a word.
IsEntryWords-of_Contiguous :
    (ordinal plain cipher last : ℕ) (e : SegmentEntry) (es : List SegmentEntry)
    → Contiguous ordinal plain cipher last (e ∷ es)
    → IsEntryWords e
IsEntryWords-of_Contiguous ordinal plain cipher last e es h = omega arith

pub length-serialize_segment_table :
    (es : List SegmentEntry) → length (serialize_segment_table es) ≡ 40 * length es
unfolding serialize_segment_table
length-serialize_segment_table [] = refl
length-serialize_segment_table (e ∷ es) = omega (
  arith,
  length-append (serialize_entry e) (serialize_segment_table es),
  (serialize_entry-IsArray e).0,
  length-serialize_segment_table es,
)

pub serialize_segment_table-IsBytes :
    (es : List SegmentEntry) → IsBytes (serialize_segment_table es)
unfolding serialize_segment_table
serialize_segment_table-IsBytes [] = tt
serialize_segment_table-IsBytes (e ∷ es) =
    All-append IsByte (serialize_entry e) _ (serialize_entry-IsArray e).1
      (serialize_segment_table-IsBytes es)

parse_entries_total-serialize :
    (es : List SegmentEntry) (ordinal plain cipher last : ℕ)
    → Contiguous ordinal plain cipher last es
    → parse_entries_total (length es) ordinal plain cipher (serialize_segment_table es)
      ≡ ok (es, last)
unfolding parse_entries_total serialize_segment_table
parse_entries_total-serialize [] ordinal plain cipher last h = rw h
parse_entries_total-serialize (e ∷ es) ordinal plain cipher last h =
    let chunk : take 40 (serialize_entry e ++ serialize_segment_table es) ≡ serialize_entry e =
      take-append 40 (serialize_entry e) (serialize_segment_table es)
        (serialize_entry-IsArray e).0 in
    let rest : drop 40 (serialize_entry e ++ serialize_segment_table es)
        ≡ serialize_segment_table es =
      drop-append 40 (serialize_entry e) (serialize_segment_table es)
        (serialize_entry-IsArray e).0 in
    let entry : read_entry_total (serialize_entry e) ≡ e =
      read_entry_total-serialize_entry e
        (IsEntryWords-of_Contiguous ordinal plain cipher last e es h) in
    let later =
      parse_entries_total-serialize es (ordinal + 1) (plain + e.plain_length)
        (cipher + e.ciphertext_length) last h.8 in
    rw (chunk, rest, entry) (ground arith)

tests_passed :
    (entry : SegmentEntry) (ordinal plain cipher : ℕ)
    → ((entry.segment_index != ordinal)
        || (entry.plain_offset != plain)
        || (entry.ciphertext_offset != cipher)
        || (entry.ciphertext_length == 0)
        || (entry.ciphertext_length % 32 != 0))
      ≡ false
    → (entry.segment_index ≡ ordinal)
      × (entry.plain_offset ≡ plain)
      × (entry.ciphertext_offset ≡ cipher)
      × (1 ≤ entry.ciphertext_length)
      × (entry.ciphertext_length % 32 ≡ 0)
tests_passed entry ordinal plain cipher h = ground arith

-- What the loop has established when it returns.
parse_entries_sound :
    (n ordinal plain cipher : ℕ) (table : Bytes) (es : List SegmentEntry) (last : ℕ)
    → length table ≡ 40 * n
    → IsBytes table
    → parse_entries_total n ordinal plain cipher table ≡ ok (es, last)
    → Contiguous ordinal plain cipher last es × (serialize_segment_table es ≡ table)
unfolding parse_entries_total serialize_segment_table
parse_entries_sound zero ordinal plain cipher [] es last size bytes e =
    let same = Outcome-ok-injective e in
    let none_left : es ≡ [] = ap (λ (t : List SegmentEntry × ℕ). t.0) (sym same) in
    rw none_left (ap (λ (t : List SegmentEntry × ℕ). t.1) same, refl)
parse_entries_sound zero ordinal plain cipher (b ∷ bs) es last size bytes e = absurd (omega arith)
parse_entries_sound (suc n) ordinal plain cipher table es last size bytes e =
    let entry = read_entry_total (take 40 table) in
    let rest = λ (p q : ℕ). parse_entries_total n (ordinal + 1) p q (drop 40 table) in
    let finish = λ (t : List SegmentEntry × ℕ).
      let r : Outcome (List SegmentEntry × ℕ) = ok (entry ∷ t.0, t.1) in r in
    let (good, e1) =
      fail_if_passed
        ((entry.segment_index != ordinal)
          || (entry.plain_offset != plain)
          || (entry.ciphertext_offset != cipher)
          || (entry.ciphertext_length == 0)
          || (entry.ciphertext_length % 32 != 0))
        format
        (ok_or (checked_add plain entry.plain_length) format >>= (λ (p : ℕ).
          ok_or (checked_add cipher entry.ciphertext_length) format
          >>= (λ (q : ℕ). rest p q >>= finish)))
        e in
    let (p, e2, e3) =
      >>=-eq-ok (ok_or (checked_add plain entry.plain_length) format)
        (λ (p : ℕ).
          ok_or (checked_add cipher entry.ciphertext_length) format
          >>= (λ (q : ℕ). rest p q >>= finish))
        e1 in
    let (q, e4, e5) =
      >>=-eq-ok (ok_or (checked_add cipher entry.ciphertext_length) format)
        (λ (q : ℕ). rest p q >>= finish) e3 in
    let (t, e6, e7) = >>=-eq-ok (rest p q) finish e5 in
    let (p_sum, p_fits) = checked_add_passed plain entry.plain_length format e2 in
    let (q_sum, q_fits) = checked_add_passed cipher entry.ciphertext_length format e4 in
    let chunk : IsArray 40 (take 40 table) =
      (omega (arith, length-take 40 table), All-take IsByte 40 table bytes) in
    let words = read_entry_total-IsEntryWords (take 40 table) chunk in
    let (ordered, written) =
      parse_entries_sound n (ordinal + 1) p q (drop 40 table) t.0 t.1
        (omega (arith, length-drop 40 table)) (All-drop IsByte 40 table bytes) e6 in
    let tests = tests_passed entry ordinal plain cipher good in
    let same = Outcome-ok-injective e7 in
    subst
      (λ (r : List SegmentEntry × ℕ).
        Contiguous ordinal plain cipher r.1 r.0 × (serialize_segment_table r.0 ≡ table))
      same
      (
        (
          tests.0,
          subst (λ (k : ℕ). k < 2 ^ 64) tests.0 words.index_fits,
          tests.1,
          tests.2,
          tests.3,
          tests.4,
          p_fits,
          q_fits,
          subst₂ (λ (a b : ℕ). Contiguous (ordinal + 1) a b t.1 t.0) p_sum q_sum ordered,
        ),
        ap₂ (λ (a b : Bytes). a ++ b) (serialize_entry-read_entry_total (take 40 table) chunk)
              written
            ∙ take-append-drop 40 table,
      )

sizes_passed : (n : ℕ) → ((n == 0) || (n % 40 != 0)) ≡ false → (1 ≤ n) × (n ≡ 40 * (n / 40))
sizes_passed n h = ground arith

parse-serialize_segment_table :
    (table : Bytes) (ciphertext_len : ℕ) (entries : List SegmentEntry)
    → length table ≡ 40 * length entries
    → table ≡ serialize_segment_table entries
    → 1 ≤ length entries
    → Contiguous 0 0 0 ciphertext_len entries
    → parse_segment_table table ciphertext_len ≡ ok entries
unfolding parse_segment_table_total
parse-serialize_segment_table table ciphertext_len entries size e nonempty h =
    let count : length table / 40 ≡ length entries = omega (arith, size) in
    let parsed : parse_entries_total (length table / 40) 0 0 0 table
        ≡ ok (entries, ciphertext_len) =
      ap₂ (λ (n : ℕ) (t : Bytes). parse_entries_total n 0 0 0 t) count e
      ∙ parse_entries_total-serialize entries 0 0 0 ciphertext_len h in
    parse_segment_table_lem table ciphertext_len ∙ ground arith

-- For a table of bytes, `parse_segment_table` returns `entries` exactly when the table is what
-- `serialize_segment_table` writes of them, there is at least one, and they are numbered from 0 on
-- and lie one behind the other, without overflow and with whole blocks, up to the end of the
-- ciphertext.
pub parse_segment_table_iff :
    (table : Bytes) (ciphertext_len : ℕ) (entries : List SegmentEntry)
    → IsBytes table
    → (parse_segment_table table ciphertext_len ≡ ok entries) ↔ (
        (table ≡ serialize_segment_table entries)
        × (1 ≤ length entries)
        × Contiguous 0 0 0 ciphertext_len entries)
unfolding parse_segment_table_total
parse_segment_table_iff table ciphertext_len entries bytes = (
  λ e0.
      let e = sym (parse_segment_table_lem table ciphertext_len) ∙ e0 in
      let finish =
        λ (t : List SegmentEntry × ℕ). fail_if (t.1 != ciphertext_len) format >> ok t.0 in
      let (sizes, e1) =
        fail_if_passed ((length table == 0) || (length table % 40 != 0)) format
          (parse_entries_total (length table / 40) 0 0 0 table >>= finish) e in
      let (t, e2, e3) = >>=-eq-ok (parse_entries_total (length table / 40) 0 0 0 table) finish e1 in
      let (whole, e4) = fail_if_passed (t.1 != ciphertext_len) format (ok t.0) e3 in
      let found = sizes_passed (length table) sizes in
      let (ordered, written) =
        parse_entries_sound (length table / 40) 0 0 0 table t.0 t.1 found.1 bytes e2 in
      let last : t.1 ≡ ciphertext_len = ground arith in
      let count = ap length written in
      subst
        (λ (es : List SegmentEntry).
          (table ≡ serialize_segment_table es)
          × (1 ≤ length es)
          × Contiguous 0 0 0 ciphertext_len es)
        (Outcome-ok-injective e4)
        (
          sym written,
          omega (arith, count, length-serialize_segment_table t.0, found.0),
          subst (λ (k : ℕ). Contiguous 0 0 0 k t.0) last ordered,
        ),
  λ h.
      let size = ap length h.0 ∙ length-serialize_segment_table entries in
      parse-serialize_segment_table table ciphertext_len entries size h.0 h.1 h.2,
)
