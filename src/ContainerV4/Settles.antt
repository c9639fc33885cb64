-- ===== src/ContainerV4/Settles.antt =====
-- `decrypt_v4` of crates/krcm-core/src/format_v4.rs on any container.
use krcm_spn.Base.{
  >>=-Settled, >>=-Settled_at, Bool, Bytes, Settled, Settled-returns, add_u64_fits, arith,
  authentication, bytes_eq, checked_add, checked_add_passed, diverged, fail_if-Settled, false,
  format, length, ltb, ltb_false→le, not, ok_or, ok_or-Settled, panic, read_be, slice-Settled, take,
  ℕ, ◌!=◌, ◌+◌, ◌-◌, ◌<◌, ◌==◌, ◌^◌, ◌||◌, ◌≡◌, ◌≢◌, ◌≤◌,
}
use krcm_spn.Block.Total.{decrypt_blocks-Settled}
use krcm_spn.Constants.{magic_v4}
use krcm_spn.ContainerV4.{PartsV4, decrypt_v4, open_v4, read_v4}
use krcm_spn.ContainerV4.Total.{read_v4_lem, read_v4_total}
use krcm_spn.HeaderV4.Sound.{from_json_bytes-Settled}
use krcm_spn.Json.{Base64, Json}
use krcm_spn.Kdf.{make_tag}
use krcm_spn.Kdf.Laws.{derive_keys-Settled}
use krcm_spn.Padding.Settles.{unpad-Settled}
use krcm_spn.Primitives.{Primitives, Rng}
use krcm_spn.Sampler.Draws.{Accepting}

header_len_lem : (n : ℕ) → ((n == 0) || ltb 4096 n) ≡ false → (1 ≤ n) × (n ≤ 4096)
header_len_lem n h = ground arith

module _ (c : Primitives) (rng : Rng) (json : Json) (base64 : Base64) (fuel : ℕ)
    (accepting : Accepting c fuel) (checks : Bool) where
  read_v4-Settled :
      (container : Bytes)
      → length container < 2 ^ 63
      → Settled (read_v4 c rng json base64 fuel checks container)
  unfolding read_v4_total
  read_v4-Settled container small =
      let size = length container in
      let n = read_be 4 container 8 in
      rw (read_v4_lem c rng json base64 fuel checks container) (
        fail_if-Settled (ltb size 44 || not (bytes_eq (take 8 container) magic_v4)) format _
          (λ front.
            >>=-Settled_at (ok_or (checked_add 12 n) format) _ (ok_or-Settled _ format)
              (λ end summed. fail_if-Settled ((n == 0) || ltb 4096 n) format _ (λ tested.
                let (lo, hi) = header_len_lem n tested in
                let (sum, fits) = checked_add_passed 12 n format summed in
                rw (add_u64_fits checks end 32 (omega arith)) (
                  fail_if-Settled (ltb size (end + 32)) format _ (λ inside.
                    let whole = ltb_false→le size (end + 32) inside in
                    slice-Settled container 12 end _ (omega arith) (omega arith)
                      (λ header_bytes cut.
                        >>=-Settled _ _ (from_json_bytes-Settled json base64 header_bytes)
                          (λ header.
                            slice-Settled container end (size - 32) _ (omega arith) (omega arith)
                              (λ ciphertext cut_ciphertext.
                                slice-Settled container (size - 32) size _ (omega arith)
                                  (omega arith) (λ tag cut_tag. tt))))))))))

  open_v4-Settled :
      (parts : PartsV4) (password : Bytes)
      → Settled (open_v4 c rng json base64 fuel checks parts password)
  unfolding open_v4
  open_v4-Settled parts password =
      let header = parts.header in
      >>=-Settled _ _ (derive_keys-Settled c password header.salt header.iterations) (λ keys.
        fail_if-Settled
          (not (c.ct_eq parts.tag (make_tag c keys.1 parts.header_bytes parts.ciphertext)))
          authentication _
          (λ same.
            >>=-Settled _ _
              (decrypt_blocks-Settled c fuel accepting parts.ciphertext keys.0 header.nonce)
              (λ padded. >>=-Settled _ _ (unpad-Settled padded) (λ plain.
                fail_if-Settled (length plain != header.original_length) authentication _
                  (λ sized. tt)))))

  -- For samplers whose every draw ends within the fuel: `decrypt_v4` of any container shorter than
  -- 2 ^ 63 bytes, with any password, neither panics nor runs on.
  pub decrypt_v4_returns :
      (container password : Bytes)
      → length container < 2 ^ 63
      → (decrypt_v4 c rng json base64 fuel checks container password ≢ panic)
        × (decrypt_v4 c rng json base64 fuel checks container password ≢ diverged)
  unfolding decrypt_v4
  decrypt_v4_returns container password small =
      Settled-returns _ (
        >>=-Settled _ _ (read_v4-Settled container small) (λ parts. open_v4-Settled parts password))
