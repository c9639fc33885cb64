-- ===== src/ContainerV5/Authentic.antt =====
-- What `decrypt_v5` of crates/krcm-core/src/format_v5.rs has compared before it returns a payload.
use krcm_spn.Base.{
  >>=-eq-ok, Bool, Bytes, List, authentication, fail_if, fail_if_passed, format, length, ltb, not,
  not-false, ok, ℕ, ◌!=◌, ◌>>=◌, ◌>>◌, ◌||◌, ◌≡◌,
}
use krcm_spn.ContainerV5.{
  Parts, decrypt_v5, open_parts, plain_length_sum, read_parts, synthetic_iv, tag_v5,
}
use krcm_spn.InnerV5.{InnerInfo, inspect_inner, unpack_inner}
use krcm_spn.Kdf.{V5Keys, derive_root_key, derive_v5_keys}
use krcm_spn.Primitives.{Primitives, Rng}
use krcm_spn.Segment.{SegmentEntry, parse_segment_table}
use krcm_spn.Segment.Cipher.{decrypt_segments}

module _ (c : Primitives) (rng : Rng) (fuel : ℕ) (checks : Bool) where
  -- A payload that the second half of `decrypt_v5` returned, with what was compared on the way.
  pub record Opened (parts : Parts) (password output : Bytes) : Type 0 where
    pub root : Bytes
    pub entries : List SegmentEntry
    pub inner : Bytes
    derived : derive_root_key c password parts.parsed.salt parts.parsed.kdf ≡ ok root
    tagged :
        parts.tag
        ≡ tag_v5 c
            (derive_v5_keys c root)
            parts.public_header
            parts.stored_synthetic_iv
            parts.segment_table
            parts.ciphertext
    pub listed : parse_segment_table parts.segment_table (length parts.ciphertext) ≡ ok entries
    pub decrypted :
        decrypt_segments c fuel checks entries parts.ciphertext
          (derive_v5_keys c root)
          parts.parsed.public_nonce
          parts.stored_synthetic_iv
        ≡ ok inner
    recomputed :
        parts.stored_synthetic_iv ≡ synthetic_iv c (derive_v5_keys c root) parts.public_header inner
    pub unpacked : unpack_inner c rng checks inner ≡ ok output

  open_parts-Opened :
      (parts : Parts) (password : Bytes) {output : Bytes}
      → open_parts c rng fuel checks parts password ≡ ok output
      → Opened parts password output
  unfolding open_parts
  open_parts-Opened parts password {output} e =
      let iv = parts.stored_synthetic_iv in
      let last = λ (inner : Bytes) (entries : List SegmentEntry) (info : InnerInfo) (sum : ℕ).
        fail_if ((sum != length inner) || ltb (length inner) info.payload_length) format
        >> unpack_inner c rng checks inner in
      let sums = λ (inner : Bytes) (entries : List SegmentEntry) (info : InnerInfo).
        plain_length_sum checks 0 entries >>= last inner entries info in
      let inspected = λ (inner : Bytes) (entries : List SegmentEntry).
        inspect_inner c rng checks inner >>= sums inner entries in
      let compared = λ (keys : V5Keys) (entries : List SegmentEntry) (inner : Bytes).
        fail_if (not (c.ct_eq iv (synthetic_iv c keys parts.public_header inner))) authentication
        >> inspected inner entries in
      let opened = λ (keys : V5Keys) (entries : List SegmentEntry).
        decrypt_segments c fuel checks entries parts.ciphertext keys parts.parsed.public_nonce iv
        >>= compared keys entries in
      let listed = λ (keys : V5Keys).
        parse_segment_table parts.segment_table (length parts.ciphertext) >>= opened keys in
      let expected = λ (keys : V5Keys).
        tag_v5 c keys parts.public_header iv parts.segment_table parts.ciphertext in
      let tagged = λ (root : Bytes).
        fail_if (not (c.ct_eq parts.tag (expected (derive_v5_keys c root)))) authentication
        >> listed (derive_v5_keys c root) in
      let (root, derived, e1) =
        >>=-eq-ok (derive_root_key c password parts.parsed.salt parts.parsed.kdf) tagged e in
      let keys = derive_v5_keys c root in
      let (t1, e2) =
        fail_if_passed (not (c.ct_eq parts.tag (expected keys))) authentication (listed keys) e1 in
      let (entries, parsed, e3) =
        >>=-eq-ok (parse_segment_table parts.segment_table (length parts.ciphertext)) (opened keys)
          e2 in
      let (inner, decrypted, e4) =
        >>=-eq-ok
          (decrypt_segments c fuel checks entries parts.ciphertext keys parts.parsed.public_nonce
            iv)
          (compared keys entries) e3 in
      let recomputed = synthetic_iv c keys parts.public_header inner in
      let (t2, e5) =
        fail_if_passed (not (c.ct_eq iv recomputed)) authentication (inspected inner entries) e4 in
      let (info, i, e6) = >>=-eq-ok (inspect_inner c rng checks inner) (sums inner entries) e5 in
      let (sum, p, e7) =
        >>=-eq-ok (plain_length_sum checks 0 entries) (last inner entries info) e6 in
      let (t3, e8) =
        fail_if_passed ((sum != length inner) || ltb (length inner) info.payload_length) format
          (unpack_inner c rng checks inner) e7 in
      record {
        root = root;
        entries = entries;
        inner = inner;
        derived = derived;
        tagged = (c.ct_eq_iff parts.tag (expected keys)).0 (not-false _ t1);
        listed = parsed;
        decrypted = decrypted;
        recomputed = (c.ct_eq_iff iv recomputed).0 (not-false _ t2);
        unpacked = e8;
      }

  -- Where `decrypt_v5` returns a payload, the container was read into parts, the password gave a
  -- root key, the tag is the tag of the parts under the keys of that root, the table was parsed,
  -- the stored synthetic IV is that of the header and of the inner plaintext to which the segments
  -- decrypt, and the payload was unpacked from this inner plaintext.
  pub decrypt_v5_authentic :
      (container password output : Bytes)
      → decrypt_v5 c rng fuel checks container password ≡ ok output
      → (parts : Parts) × (read_parts checks container ≡ ok parts) × Opened parts password output
  unfolding decrypt_v5
  decrypt_v5_authentic container password output e =
      let f = λ (parts : Parts). open_parts c rng fuel checks parts password in
      let (parts, read, opened) = >>=-eq-ok (read_parts checks container) f e in
      (parts, read, open_parts-Opened parts password opened)
