-- ===== src/ContainerV5/Settles.antt =====
-- `decrypt_v5` of crates/krcm-core/src/format_v5.rs on containers whose lengths do not overflow.
use krcm_spn.Base.{
  >>=-Settled, >>=-Settled_at, Bool, Bytes, IsBytes, List, Settled, Settled-returns,
  SettledWith-Settled, SettledWith-ok, authentication, diverged, fail_if-Settled, format, length,
  ltb, not, not-false, ok, panic, read_be, ℕ, ◌!=◌, ◌+◌, ◌<◌, ◌^◌, ◌||◌, ◌≡◌, ◌≢◌,
}
use krcm_spn.ContainerV5.{Parts, decrypt_v5, open_parts, read_parts, synthetic_iv, tag_v5}
use krcm_spn.ContainerV5.Reads.{NoOverflow, plain_length_sum-Settled, read_parts-SettledWith}
use krcm_spn.InnerV5.Settles.{inspect_inner-Settled, unpack_inner-Settled}
use krcm_spn.Kdf.{derive_root_key, derive_v5_keys}
use krcm_spn.Kdf.Laws.{derive_root_key-Settled}
use krcm_spn.Primitives.{Primitives, Rng}
use krcm_spn.Sampler.Draws.{Accepting}
use krcm_spn.Segment.{SegmentEntry, parse_segment_table}
use krcm_spn.Segment.Cipher.{decrypt_segments}
use krcm_spn.Segment.Settles.{decrypt_segments-Settled, parse_segment_table-Settled}
use krcm_spn.Segment.Table.{parse_segment_table_iff}

module _ (c : Primitives) (rng : Rng) (fuel : ℕ) (accepting : Accepting c fuel)
    (checks : Bool) where
  -- An inner plaintext to which the segments of a container decrypt under the keys of a password,
  -- and whose synthetic IV is the one of the container.
  pub record IsInner (parts : Parts) (password inner : Bytes) : Type 0 where
    pub root : Bytes
    pub entries : List SegmentEntry
    pub derived : derive_root_key c password parts.parsed.salt parts.parsed.kdf ≡ ok root
    pub parsed_as : parse_segment_table parts.segment_table (length parts.ciphertext) ≡ ok entries
    pub decrypted :
        decrypt_segments c fuel checks entries parts.ciphertext
          (derive_v5_keys c root)
          parts.parsed.public_nonce
          parts.stored_synthetic_iv
        ≡ ok inner
    pub same_iv :
        parts.stored_synthetic_iv ≡ synthetic_iv c (derive_v5_keys c root) parts.public_header inner

  open_parts-Settled :
      (parts : Parts) (password : Bytes)
      → IsBytes parts.segment_table
      → ((inner : Bytes) → IsInner parts password inner → 76 + read_be 8 inner 20 < 2 ^ 64)
      → Settled (open_parts c rng fuel checks parts password)
  unfolding open_parts
  open_parts-Settled parts password bytes fits =
      let header = parts.parsed in
      let iv = parts.stored_synthetic_iv in
      let table = parts.segment_table in
      let ciphertext = parts.ciphertext in
      >>=-Settled_at _ _ (derive_root_key-Settled c password header.salt header.kdf)
        (λ root derived.
          let keys = derive_v5_keys c root in
          let expected = tag_v5 c keys parts.public_header iv table ciphertext in
          fail_if-Settled (not (c.ct_eq parts.tag expected)) authentication _ (λ same.
            >>=-Settled_at _ _ (parse_segment_table-Settled table (length ciphertext))
              (λ entries parsed_as.
                let ordered =
                  ((parse_segment_table_iff table (length ciphertext) entries bytes).0
                    parsed_as).2 in
                >>=-Settled_at _ _
                  (decrypt_segments-Settled c fuel accepting checks keys header.public_nonce iv 0 0
                    0 entries ciphertext ordered)
                  (λ inner decrypted.
                    let recomputed = synthetic_iv c keys parts.public_header inner in
                    fail_if-Settled (not (c.ct_eq iv recomputed)) authentication _ (λ equal.
                      let small : 76 + read_be 8 inner 20 < 2 ^ 64 = fits inner (record {
                        root = root;
                        entries = entries;
                        derived = derived;
                        parsed_as = parsed_as;
                        decrypted = decrypted;
                        same_iv =
                            (c.ct_eq_iff iv recomputed).0 (not-false (c.ct_eq iv recomputed) equal);
                      }) in
                      >>=-Settled _ _ (inspect_inner-Settled c rng checks inner small) (λ lengths.
                        >>=-Settled _ _
                          (plain_length_sum-Settled checks 0 0 0 (length ciphertext) entries
                            ordered)
                          (λ sum.
                            fail_if-Settled
                              ((sum != length inner) || ltb (length inner) lengths.payload_length)
                              format _
                              (λ summed. unpack_inner-Settled c rng checks inner small))))))))

  -- For samplers whose every draw ends within the fuel, and a container of bytes, shorter than 2 ^
  -- 63, whose table length and ciphertext length keep the offsets below 2 ^ 64: unless an inner
  -- plaintext to which it decrypts under the password, with the synthetic IV of the container,
  -- states a payload that ends past 2 ^ 64, `decrypt_v5` neither panics nor runs on, whatever else
  -- the container holds.
  pub decrypt_v5_returns :
      (container password : Bytes)
      → IsBytes container
      → length container < 2 ^ 63
      → NoOverflow container
      → ((parts : Parts) (inner : Bytes)
          → read_parts checks container ≡ ok parts
          → IsInner parts password inner
          → 76 + read_be 8 inner 20 < 2 ^ 64)
      → (decrypt_v5 c rng fuel checks container password ≢ panic)
        × (decrypt_v5 c rng fuel checks container password ≢ diverged)
  unfolding decrypt_v5
  decrypt_v5_returns container password bytes small lengths_fit payload_fits =
      let front = read_parts-SettledWith checks container small lengths_fit bytes in
      Settled-returns _ (
        >>=-Settled_at (read_parts checks container) _
          (SettledWith-Settled (λ (parts : Parts). IsBytes parts.segment_table)
            (read_parts checks container) front)
          (λ parts read.
            open_parts-Settled parts password
              (SettledWith-ok (λ (parts : Parts). IsBytes parts.segment_table)
                (read_parts checks container) front read)
              (λ inner h. payload_fits parts inner read h)))
