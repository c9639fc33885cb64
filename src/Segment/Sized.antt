-- ===== src/Segment/Sized.antt =====
-- What `decrypt_segments` of crates/krcm-core/src/format_v5.rs gives for any ciphertext.
use mathlib.Core.Path.{subst}
use krcm_spn.Base.{
  >>=-eq-ok, All-append, Bool, Bytes, IsByte, IsBytes, List, Outcome-ok-injective, [], add_u64,
  add_u64_fits, ap, arith, authentication, drop, fail_if, fail_if_passed, length, length-append,
  length-drop, length-take, ok, slice, slice_passed, sym, take, ℕ, ◌!=◌, ◌++◌, ◌+◌, ◌-◌, ◌>>=◌,
  ◌>>◌, ◌∙◌, ◌∷◌, ◌≡◌, ◌≤◌,
}
use krcm_spn.Block.{decrypt_blocks}
use krcm_spn.Block.Sized.{padded-IsBytes}
use krcm_spn.Kdf.{V5Keys}
use krcm_spn.Padding.{unpad}
use krcm_spn.Padding.Laws.{pad-unpad}
use krcm_spn.Primitives.{Primitives}
use krcm_spn.Segment.{Contiguous, SegmentEntry}
use krcm_spn.Segment.Cipher.{decrypt_segments, segment_nonce}

module _ (c : Primitives) (fuel : ℕ) (checks : Bool) (keys : V5Keys) (public_nonce iv : Bytes) where
  -- One entry after the other: the plaintexts are bytes, and shorter than their ciphertexts.
  pub decrypt_segments-IsBytes :
      (ordinal plain cipher limit : ℕ) (es : List SegmentEntry) (ciphertext : Bytes) {inner : Bytes}
      → Contiguous ordinal plain cipher limit es
      → decrypt_segments c fuel checks es ciphertext keys public_nonce iv ≡ ok inner
      → IsBytes inner × (cipher + length inner ≤ limit)
  unfolding decrypt_segments
  decrypt_segments-IsBytes ordinal plain cipher limit [] ciphertext h e =
      subst (λ (o : Bytes). IsBytes o × (cipher + length o ≤ limit)) (Outcome-ok-injective e)
        (tt, omega (arith, h))
  decrypt_segments-IsBytes ordinal plain cipher limit (e ∷ es) ciphertext {inner}
        (index, small, at_plain, at_cipher, longer, aligned, plain_fits, cipher_fits, later) h =
      let start = e.ciphertext_offset in
      let nonce = segment_nonce c fuel checks keys public_nonce iv e.segment_index in
      let others = decrypt_segments c fuel checks es ciphertext keys public_nonce iv in
      let join = λ (stripped : Bytes). others >>= (λ (rest : Bytes). ok (stripped ++ rest)) in
      let check = λ (stripped : Bytes).
        fail_if (length stripped != e.plain_length) authentication >> join stripped in
      let unpadded = λ (padded : Bytes). unpad padded >>= check in
      let deciphered =
        λ (part : Bytes). decrypt_blocks c fuel part keys.enc_key nonce >>= unpadded in
      let cut = λ (end : ℕ). slice ciphertext start end >>= deciphered in
      let (end, added, h1) = >>=-eq-ok (add_u64 checks start e.ciphertext_length) cut h in
      let (part, sliced, h2) = >>=-eq-ok (slice ciphertext start end) deciphered h1 in
      let (padded, decrypted, h3) =
        >>=-eq-ok (decrypt_blocks c fuel part keys.enc_key nonce) unpadded h2 in
      let (stripped, unpad_ok, h4) = >>=-eq-ok (unpad padded) check h3 in
      let (same, h5) =
        fail_if_passed (length stripped != e.plain_length) authentication (join stripped) h4 in
      let (rest, rest_ok, h6) = >>=-eq-ok others (λ (rest : Bytes). ok (stripped ++ rest)) h5 in
      let at_end : start + e.ciphertext_length ≡ end =
        Outcome-ok-injective
          (sym (add_u64_fits checks start e.ciphertext_length (omega arith)) ∙ added) in
      let (low, inside, cut_part) = slice_passed ciphertext start end sliced in
      let (plain_bytes, shorter) =
        padded-IsBytes c fuel part keys.enc_key nonce stripped
          (decrypted ∙ ap ok (pad-unpad padded stripped unpad_ok)) in
      let (rest_bytes, rest_size) =
        decrypt_segments-IsBytes (ordinal + 1) (plain + e.plain_length)
          (cipher + e.ciphertext_length) limit es ciphertext {inner = rest} later rest_ok in
      subst (λ (o : Bytes). IsBytes o × (cipher + length o ≤ limit)) {x = stripped ++ rest}
        (Outcome-ok-injective {a = stripped ++ rest} {b = inner} h6)
        (
          All-append IsByte stripped rest plain_bytes rest_bytes,
          omega (
            arith,
            length-append stripped rest,
            ap length {y = take (end - start) (drop start ciphertext)} cut_part,
            length-take (end - start) (drop start ciphertext),
            length-drop start ciphertext,
          ),
        )
