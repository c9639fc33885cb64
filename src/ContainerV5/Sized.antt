-- ===== src/ContainerV5/Sized.antt =====
-- What `decrypt_v5` of crates/krcm-core/src/format_v5.rs gives for any container of bytes.
use mathlib.Core.Path.{subst}
use krcm_spn.Base.{
  >>=-Gives, All-drop, All-take, Bool, Bytes, Gives, Gives-ok, IsByte, IsBytes, add_u64, ap, arith,
  bytes_eq, drop, fail_if-Gives, format, get_or, length, length-drop, length-take, ltb, not, ok,
  read_be, slice, slice_passed, sym, take, ℕ, ◌!=◌, ◌%◌, ◌+◌, ◌-◌, ◌<◌, ◌||◌, ◌≡◌, ◌≤◌,
}
use krcm_spn.Constants.{magic_v5}
use krcm_spn.ContainerV5.{Parts, decrypt_v5, read_fixed_32, read_parts, read_u64_at}
use krcm_spn.ContainerV5.Authentic.{decrypt_v5_authentic}
use krcm_spn.ContainerV5.Total.{read_parts_lem, read_parts_total}
use krcm_spn.HeaderV5.{parse_public_header}
use krcm_spn.InnerV5.{unpack_inner}
use krcm_spn.InnerV5.Sound.{unpack_inner_sound}
use krcm_spn.Kdf.{derive_v5_keys}
use krcm_spn.Primitives.{Primitives, Rng}
use krcm_spn.Segment.Sized.{decrypt_segments-IsBytes}
use krcm_spn.Segment.Table.{parse_segment_table_iff}

-- The table of the parts is bytes, and their ciphertext stands in the container.
abbrev Inside : Bytes → Parts → Type 0
Inside container parts = IsBytes parts.segment_table × (length parts.ciphertext ≤ length container)

slice-IsBytes :
    (xs : Bytes) (start end : ℕ) {ys : Bytes}
    → IsBytes xs
    → slice xs start end ≡ ok ys
    → IsBytes ys × (length ys ≤ length xs - start)
slice-IsBytes xs start end {ys} bytes cut =
    let (low, inside, same) = slice_passed xs start end cut in
    (
      subst IsBytes (sym same)
          (All-take IsByte (end - start) (drop start xs) (All-drop IsByte start xs bytes)),
      omega
          (arith, ap length same, length-take (end - start) (drop start xs), length-drop start xs),
    )

module _ (checks : Bool) where
  read_parts-Gives :
      (container : Bytes)
      → IsBytes container
      → Gives (Inside container) (read_parts checks container)
  unfolding read_parts_total
  read_parts-Gives container bytes =
      let P = Inside container in
      let size = length container in
      let header = take 64 (drop 13 container) in
      rw (read_parts_lem checks container) (
        fail_if-Gives P (ltb size 141) format _ (
          fail_if-Gives P
            (not (bytes_eq (take 8 container) magic_v5) || (get_or container 8 0 != 5)) format _
            (fail_if-Gives P (read_be 4 container 9 != 64) format _ (
              >>=-Gives P (parse_public_header header) _ (λ parsed e1.
                >>=-Gives P (read_fixed_32 checks container 77) _ (λ iv e2.
                  >>=-Gives P (read_u64_at checks container iv.1) _ (λ n e3.
                    fail_if-Gives P (n.0 % 40 != 0) format _ (
                      >>=-Gives P (add_u64 checks n.1 n.0) _ (λ table_end e4.
                        fail_if-Gives P (ltb size table_end) format _ (
                          >>=-Gives P (slice container n.1 table_end) _ (λ table e5.
                            >>=-Gives P (read_u64_at checks container table_end) _ (λ k e6.
                              >>=-Gives P (add_u64 checks k.1 k.0) _ (λ stop e7.
                                >>=-Gives P (add_u64 checks stop 32) _ (λ whole e8.
                                  fail_if-Gives P (whole != size) format _ (
                                    >>=-Gives P (slice container k.1 stop) _ (λ ciphertext e9.
                                      >>=-Gives P (slice container stop size) _ (λ tag e10.
                                        let front =
                                          slice-IsBytes container n.1 table_end bytes e5 in
                                        let later = slice-IsBytes container k.1 stop bytes e9 in
                                        (front.0, omega (arith, later.1)))))))))))))))))))

  -- What `unpack_inner` returns is part of the inner plaintext.
  unpack_inner-IsBytes :
      (c : Primitives) (rng : Rng) (inner : Bytes) {output : Bytes}
      → IsBytes inner
      → unpack_inner c rng checks inner ≡ ok output
      → IsBytes output × (length output + 76 ≤ length inner)
  unpack_inner-IsBytes c rng inner {output} bytes e =
      let (payload, hashed, (end, sliced), (n, few, same)) =
        unpack_inner_sound c rng checks inner e in
      let (low, inside, cut) = slice_passed inner 76 end sliced in
      let (payload_bytes, payload_size) = slice-IsBytes inner 76 end bytes sliced in
      (
        subst IsBytes (sym same) (All-take IsByte n payload payload_bytes),
        omega (arith, ap length same, length-take n payload),
      )

module _ (c : Primitives) (rng : Rng) (fuel : ℕ) (checks : Bool) where
  -- What `decrypt_v5` returns for any container of bytes is bytes, fewer than the container has.
  pub decrypt_v5-IsBytes :
      (container password : Bytes) {output : Bytes}
      → IsBytes container
      → decrypt_v5 c rng fuel checks container password ≡ ok output
      → IsBytes output × (length output < length container)
  decrypt_v5-IsBytes container password {output} bytes e =
      let (parts, read, found) =
        decrypt_v5_authentic c rng fuel checks container password output e in
      let (table_bytes, inside) =
        Gives-ok (Inside container) (read_parts checks container)
          (read_parts-Gives checks container bytes) read in
      let (written, nonempty, ordered) =
        (parse_segment_table_iff parts.segment_table (length parts.ciphertext) found.entries
            table_bytes).0
          found.listed in
      let (inner_bytes, inner_size) =
        decrypt_segments-IsBytes c fuel checks (derive_v5_keys c found.root)
          parts.parsed.public_nonce parts.stored_synthetic_iv 0 0 0 (length parts.ciphertext)
          found.entries parts.ciphertext ordered found.decrypted in
      let (output_bytes, output_size) =
        unpack_inner-IsBytes checks c rng found.inner inner_bytes found.unpacked in
      (output_bytes, omega (arith, inside, inner_size, output_size))
