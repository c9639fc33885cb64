-- ===== src/ContainerV4/Sized.antt =====
-- What `decrypt_v4` of crates/krcm-core/src/format_v4.rs gives for any container.
use krcm_spn.Base.{
  >>=-Gives, Bool, Bytes, Gives, Gives-ok, IsBytes, add_u64, ap, arith, bytes_eq, checked_add, drop,
  fail_if-Gives, format, length, length-drop, length-take, ltb, not, ok, ok_or, read_be, slice,
  slice_passed, take, ℕ, ◌-◌, ◌<◌, ◌==◌, ◌||◌, ◌≡◌, ◌≤◌,
}
use krcm_spn.Block.Sized.{padded-IsBytes}
use krcm_spn.Constants.{magic_v4}
use krcm_spn.ContainerV4.{PartsV4, decrypt_v4, read_v4}
use krcm_spn.ContainerV4.Authentic.{decrypt_v4_authentic}
use krcm_spn.ContainerV4.Total.{read_v4_lem, read_v4_total}
use krcm_spn.HeaderV4.{from_json_bytes}
use krcm_spn.Json.{Base64, Json}
use krcm_spn.Primitives.{Primitives, Rng}

module _ (c : Primitives) (rng : Rng) (json : Json) (base64 : Base64) (fuel : ℕ)
    (checks : Bool) where
  read_v4-Gives :
      (container : Bytes)
      → Gives
          (λ (parts : PartsV4). length parts.ciphertext ≤ length container)
          (read_v4 c rng json base64 fuel checks container)
  unfolding read_v4_total
  read_v4-Gives container =
      let P : PartsV4 → Type 0 = λ parts. length parts.ciphertext ≤ length container in
      let size = length container in
      let n = read_be 4 container 8 in
      rw (read_v4_lem c rng json base64 fuel checks container) (
        fail_if-Gives P (ltb size 44 || not (bytes_eq (take 8 container) magic_v4)) format _ (
          >>=-Gives P (ok_or (checked_add 12 n) format) _ (λ end summed.
            fail_if-Gives P ((n == 0) || ltb 4096 n) format _ (
              >>=-Gives P (add_u64 checks end 32) _ (λ tag_end added.
                fail_if-Gives P (ltb size tag_end) format _ (
                  >>=-Gives P (slice container 12 end) _ (λ header_bytes cut.
                    >>=-Gives P (from_json_bytes json base64 header_bytes) _ (λ header read.
                      >>=-Gives P (slice container end (size - 32)) _ (λ ciphertext sliced.
                        >>=-Gives P (slice container (size - 32) size) _ (λ tag sliced'.
                          let (low, inside, same) = slice_passed container end (size - 32) sliced in
                          let bound : length ciphertext ≤ length container = omega (
                            arith,
                            ap length same,
                            length-take (size - 32 - end) (drop end container),
                            length-drop end container,
                          ) in
                          bound))))))))))

  -- What `decrypt_v4` returns for any container is bytes, fewer than the container has.
  pub decrypt_v4-IsBytes :
      (container password : Bytes) {output : Bytes}
      → decrypt_v4 c rng json base64 fuel checks container password ≡ ok output
      → IsBytes output × (length output < length container)
  decrypt_v4-IsBytes container password {output} e =
      let (parts, read, found) =
        decrypt_v4_authentic c rng json base64 fuel checks container password output e in
      let inside =
        Gives-ok (λ (parts : PartsV4). length parts.ciphertext ≤ length container)
          (read_v4 c rng json base64 fuel checks container) (read_v4-Gives container) read in
      let (bytes, shorter) =
        padded-IsBytes c fuel parts.ciphertext (found.keys.0) parts.header.nonce output
          (found.decrypted) in
      (bytes, omega arith)
