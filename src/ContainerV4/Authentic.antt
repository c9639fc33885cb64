-- ===== src/ContainerV4/Authentic.antt =====
-- What `decrypt_v4` of crates/krcm-core/src/format_v4.rs has compared before it returns a payload.
use krcm_spn.Base.{
  !=_false→eq, >>=-eq-ok, Bool, Bytes, Outcome, Outcome-ok-injective, ap, authentication, fail_if,
  fail_if_passed, length, not, not-false, ok, sym, ℕ, ◌!=◌, ◌>>=◌, ◌>>◌, ◌∙◌, ◌≡◌,
}
use krcm_spn.Block.{decrypt_blocks}
use krcm_spn.ContainerV4.{PartsV4, decrypt_v4, open_v4, read_v4}
use krcm_spn.Json.{Base64, Json}
use krcm_spn.Kdf.{derive_keys, make_tag}
use krcm_spn.Padding.{pad, unpad}
use krcm_spn.Padding.Laws.{pad-unpad}
use krcm_spn.Primitives.{Primitives, Rng}

module _ (c : Primitives) (rng : Rng) (json : Json) (base64 : Base64) (fuel : ℕ)
    (checks : Bool) where
  -- A payload that the second half of `decrypt_v4` returned, with what was compared on the way.
  pub record OpenedV4 (parts : PartsV4) (password output : Bytes) : Type 0 where
    pub keys : Bytes × Bytes
    pub derived : derive_keys c password parts.header.salt parts.header.iterations ≡ ok keys
    pub tagged : parts.tag ≡ make_tag c keys.1 parts.header_bytes parts.ciphertext
    pub decrypted :
        decrypt_blocks c fuel parts.ciphertext keys.0 parts.header.nonce ≡ ok (pad output)
    pub sized : length output ≡ parts.header.original_length

  open_v4-OpenedV4 :
      (parts : PartsV4) (password : Bytes) {output : Bytes}
      → open_v4 c rng json base64 fuel checks parts password ≡ ok output
      → OpenedV4 parts password output
  unfolding open_v4
  open_v4-OpenedV4 parts password {output} e =
      let n = parts.header.original_length in
      let check = λ (plain : Bytes).
        let r : Outcome Bytes = fail_if (length plain != n) authentication >> ok plain in r in
      let unpadded = λ (padded : Bytes). unpad padded >>= check in
      let opened = λ (keys : Bytes × Bytes).
        decrypt_blocks c fuel parts.ciphertext keys.0 parts.header.nonce >>= unpadded in
      let differs = λ (keys : Bytes × Bytes).
        not (c.ct_eq parts.tag (make_tag c keys.1 parts.header_bytes parts.ciphertext)) in
      let tagged = λ (keys : Bytes × Bytes). fail_if (differs keys) authentication >> opened keys in
      let (keys, derived, e1) =
        >>=-eq-ok (derive_keys c password parts.header.salt parts.header.iterations) tagged e in
      let (t1, e2) = fail_if_passed (differs keys) authentication (opened keys) e1 in
      let (padded, decrypted, e3) =
        >>=-eq-ok (decrypt_blocks c fuel parts.ciphertext keys.0 parts.header.nonce) unpadded e2 in
      let (plain, unpad_ok, e4) = >>=-eq-ok (unpad padded) check e3 in
      let (t2, e5) = fail_if_passed (length plain != n) authentication (ok plain) e4 in
      let same : plain ≡ output = Outcome-ok-injective {a = plain} {b = output} e5 in
      let expected = make_tag c keys.1 parts.header_bytes parts.ciphertext in
      record {
        keys = keys;
        derived = derived;
        tagged = (c.ct_eq_iff parts.tag expected).0 (not-false (c.ct_eq parts.tag expected) t1);
        decrypted =
            decrypted
            ∙ ap ok (pad-unpad padded plain unpad_ok)
            ∙ ap (λ (t : Bytes). ok (pad t)) same;
        sized = ap length (sym same) ∙ !=_false→eq (length plain) n t2;
      }

  -- Where `decrypt_v4` returns a payload, the container was read into parts, the password gave
  -- keys, the tag is the tag of the header and the ciphertext under these keys, the ciphertext
  -- decrypts to the padded payload, and the payload has the length that the header states.
  pub decrypt_v4_authentic :
      (container password output : Bytes)
      → decrypt_v4 c rng json base64 fuel checks container password ≡ ok output
      → (parts : PartsV4) × (read_v4 c rng json base64 fuel checks container ≡ ok parts)
        × OpenedV4 parts password output
  unfolding decrypt_v4
  decrypt_v4_authentic container password output e =
      let next = λ (parts : PartsV4). open_v4 c rng json base64 fuel checks parts password in
      let (parts, read, opened) =
        >>=-eq-ok (read_v4 c rng json base64 fuel checks container) next e in
      (parts, read, open_v4-OpenedV4 parts password opened)
