-- ===== src/Segment/Settles.antt =====
-- `decrypt_segments` of crates/krcm-core/src/format_v5.rs on the entries of a table that was parsed.
use krcm_spn.Base.{
  >>=-Settled, Bool, Bytes, IsBytes, List, Settled, Settled-returns, [], add_u64_fits, arith,
  authentication, checked_add, diverged, drop, fail_if-Settled, format, index, length, length-drop,
  length-take, ok, ok_or-Settled, panic, slice_in_range, suc, take, zero, ℕ, ◌!=◌, ◌%◌, ◌+◌, ◌-◌,
  ◌/◌, ◌==◌, ◌||◌, ◌∷◌, ◌≡◌, ◌≢◌, ◌≤◌,
}
use krcm_spn.Block.Total.{decrypt_blocks_total}
use krcm_spn.Kdf.{V5Keys}
use krcm_spn.Padding.{unpad}
use krcm_spn.Padding.Settles.{unpad-Settled}
use krcm_spn.Primitives.{Primitives}
use krcm_spn.Sampler.Draws.{Accepting}
use krcm_spn.Segment.{Contiguous, SegmentEntry, parse_segment_table}
use krcm_spn.Segment.Cipher.{decrypt_segments, segment_nonce}
use krcm_spn.Segment.Table.{parse_segment_table_iff}
use krcm_spn.Segment.Total.{
  parse_entries_total, parse_segment_table_lem, parse_segment_table_total, read_entry_total,
}

parse_entries_total-Settled :
    (n ordinal plain cipher : ℕ) (table : Bytes)
    → Settled (parse_entries_total n ordinal plain cipher table)
unfolding parse_entries_total
parse_entries_total-Settled zero ordinal plain cipher table = tt
parse_entries_total-Settled (suc n) ordinal plain cipher table =
    let entry = read_entry_total (take 40 table) in
    fail_if-Settled
      ((entry.segment_index != ordinal)
        || (entry.plain_offset != plain)
        || (entry.ciphertext_offset != cipher)
        || (entry.ciphertext_length == 0)
        || (entry.ciphertext_length % 32 != 0))
      format _
      (λ tested.
        >>=-Settled _ _ (ok_or-Settled (checked_add plain entry.plain_length) format) (λ plain'.
          >>=-Settled _ _ (ok_or-Settled (checked_add cipher entry.ciphertext_length) format)
            (λ cipher'.
              >>=-Settled _ _
                (parse_entries_total-Settled n (ordinal + 1) plain' cipher' (drop 40 table))
                (λ r. tt))))

-- Any table is parsed or refused.
pub parse_segment_table-Settled :
    (table : Bytes) (ciphertext_len : ℕ) → Settled (parse_segment_table table ciphertext_len)
unfolding parse_segment_table_total
parse_segment_table-Settled table ciphertext_len =
    rw (parse_segment_table_lem table ciphertext_len) (
      fail_if-Settled ((length table == 0) || (length table % 40 != 0)) format _ (λ whole.
        >>=-Settled _ _ (parse_entries_total-Settled (length table / 40) 0 0 0 table)
          (λ r. fail_if-Settled (r.1 != ciphertext_len) format _ (λ last. tt))))

Contiguous-le :
    (ordinal plain cipher limit : ℕ) (es : List SegmentEntry)
    → Contiguous ordinal plain cipher limit es
    → cipher ≤ limit
Contiguous-le ordinal plain cipher limit [] h = omega arith
Contiguous-le ordinal plain cipher limit (e ∷ es)
      (index, small, at_plain, at_cipher, longer, aligned, plain_fits, cipher_fits, later) =
    let behind =
      Contiguous-le (ordinal + 1) (plain + e.plain_length) (cipher + e.ciphertext_length) limit es
        later in
    omega (arith, behind)

module _ (c : Primitives) (fuel : ℕ) (accepting : Accepting c fuel) (checks : Bool) (keys : V5Keys)
    (public_nonce iv : Bytes) where
  pub decrypt_segments-Settled :
      (ordinal plain cipher : ℕ) (es : List SegmentEntry) (ciphertext : Bytes)
      → Contiguous ordinal plain cipher (length ciphertext) es
      → Settled (decrypt_segments c fuel checks es ciphertext keys public_nonce iv)
  unfolding decrypt_segments
  decrypt_segments-Settled ordinal plain cipher [] ciphertext h = tt
  decrypt_segments-Settled ordinal plain cipher (e ∷ es) ciphertext
        (index, small, at_plain, at_cipher, longer, aligned, plain_fits, cipher_fits, later) =
      let start = e.ciphertext_offset in
      let end = start + e.ciphertext_length in
      let inside : end ≤ length ciphertext = omega (
        arith,
        Contiguous-le (ordinal + 1) (plain + e.plain_length) (cipher + e.ciphertext_length)
            (length ciphertext) es later,
      ) in
      let part = take (end - start) (drop start ciphertext) in
      let size : length part ≡ e.ciphertext_length =
        omega (
          arith,
          length-take (end - start) (drop start ciphertext),
          length-drop start ciphertext,
        ) in
      let (padded, decrypted) =
        decrypt_blocks_total c fuel accepting part keys.enc_key
          (segment_nonce c fuel checks keys public_nonce iv e.segment_index)
          (omega (arith, size)) in
      let rest = decrypt_segments c fuel checks es ciphertext keys public_nonce iv in
      rw
        (
          add_u64_fits checks start e.ciphertext_length (omega arith),
          slice_in_range ciphertext start end (omega arith) inside,
          decrypted,
        )
        (>>=-Settled (unpad padded) _ (unpad-Settled padded) (λ text.
          fail_if-Settled (length text != e.plain_length) authentication _ (λ same.
            >>=-Settled rest _
              (decrypt_segments-Settled (ordinal + 1) (plain + e.plain_length)
                (cipher + e.ciphertext_length) es ciphertext later)
              (λ more. tt))))

  -- For samplers whose every draw ends within the fuel: where `parse_segment_table` accepts a table
  -- of bytes for the length of a ciphertext, `decrypt_segments` of its entries and that ciphertext
  -- neither panics nor runs on, for all keys, nonces and synthetic IVs, and for every content of
  -- the ciphertext.
  pub parsed_segments_return :
      (table ciphertext : Bytes) (entries : List SegmentEntry)
      → IsBytes table
      → parse_segment_table table (length ciphertext) ≡ ok entries
      → (decrypt_segments c fuel checks entries ciphertext keys public_nonce iv ≢ panic)
        × (decrypt_segments c fuel checks entries ciphertext keys public_nonce iv ≢ diverged)
  parsed_segments_return table ciphertext entries bytes parsed =
      let (written, nonempty, ordered) =
        (parse_segment_table_iff table (length ciphertext) entries bytes).0 parsed in
      Settled-returns _ (decrypt_segments-Settled 0 0 0 entries ciphertext ordered)
