-- ===== src/Reference/Container/Read/Agree.antt =====
-- `decrypt_bytes` of krcm/core.py, and `decrypt_v4` of crates/krcm-core/src/format_v4.rs.
use mathlib.Core.Path.{subst}
use krcm_spn.Base.{
  >>=-eq-ok, Bool, Bool-cases, Bytes, Outcome-ok-injective, [], add_u64, add_u64_fits, ap, arith,
  authentication, bytes_eq, checked_add, checked_add_passed, drop, fail_if_passed, format, inl, inr,
  length, length-drop, length-take, ltb, ltb_false→le, lt→ltb, not, ok, ok_or, read_be, refl, slice,
  slice_in_range, slice_passed, slice_suffix, starts_with, sym, take, ℕ, ◌!=◌, ◌&&◌, ◌++◌, ◌+◌, ◌-◌,
  ◌<◌, ◌==◌, ◌^◌, ◌||◌, ◌∙◌, ◌∷◌, ◌≡◌, ◌≢◌, ◌≤◌,
}
use krcm_spn.Block.{decrypt_blocks}
use krcm_spn.Constants.{magic_v4}
use krcm_spn.ContainerV4.{PartsV4, decrypt_v4, open_v4, read_v4}
use krcm_spn.ContainerV4.Total.{read_v4_lem, read_v4_total}
use krcm_spn.HeaderV4.{HeaderV4, from_json_bytes}
use krcm_spn.Json.{Base64, Json}
use krcm_spn.Kdf.{derive_keys, hmac_sha256, make_tag}
use krcm_spn.Padding.{unpad}
use krcm_spn.Primitives.{Primitives, Rng}
use krcm_spn.Reference.{bad_format, not_authentic}
use krcm_spn.Reference.Affine.{InversePower}
use krcm_spn.Reference.Agree.{>>=-Agree, Agree, guard-Agree, guards-Agree}
use krcm_spn.Reference.Blocks.{decrypt_blocks_py}
use krcm_spn.Reference.Blocks.Agree.{decrypt_blocks-Agree}
use krcm_spn.Reference.Container.{derive_keys_py, unpad_py}
use krcm_spn.Reference.Container.Encrypt.{derive_keys-Agree}
use krcm_spn.Reference.Container.Padding.{unpad-Agree}
use krcm_spn.Reference.Container.Read.{
  Loads, decrypt_bytes_py, from_json_bytes_py, open_bytes_py, read_bytes_py,
}

starts_with-take : (xs ps : Bytes) → starts_with xs ps ≡ bytes_eq (take (length ps) xs) ps
starts_with-take xs [] = refl
starts_with-take [] (p ∷ ps) = refl
starts_with-take (x ∷ xs) (p ∷ ps) = ap (λ (t : Bool). (x == p) && t) (starts_with-take xs ps)

-- The bytes that stand where a container has its header.
abbrev pub header_part : Bytes → Bytes
header_part container = take (12 + read_be 4 container 8 - 12) (drop 12 container)

module _ (c : Primitives) (rng : Rng) (json : Json) (base64 : Base64) (loads : Loads base64)
    (power : InversePower) (fuel : ℕ) (few : fuel ≤ 2 ^ 20) (checks : Bool) where
  read_v4-Agree :
      (container : Bytes)
      → length container < 2 ^ 63
      → Agree
          (from_json_bytes json base64 (header_part container))
          (from_json_bytes_py base64 loads (header_part container))
      → Agree
          (read_v4 c rng json base64 fuel checks container)
          (read_bytes_py base64 loads container)
  unfolding read_v4_total read_bytes_py
  read_v4-Agree container small same_header =
      let size = length container in
      let n = read_be 4 container 8 in
      rw (read_v4_lem c rng json base64 fuel checks container) (
        guards-Agree (ltb size 44) (not (bytes_eq (take 8 container) magic_v4))
          (not (starts_with container magic_v4)) format bad_format _ _ tt
          (ap not (starts_with-take container magic_v4))
          (λ front. elim (Bool-cases ((n == 0) || ltb 4096 n)) [
            | inl bad ↦ elim (Bool-cases (ltb (12 + n) (2 ^ 64))) [
              | inl fits ↦ rw (fits, bad) tt
              | inr over ↦ rw (over, bad) tt
            ]
            | inr good ↦
                let low : n ≤ 4096 = ground arith in
                rw
                  (
                    good,
                    lt→ltb (12 + n) (2 ^ 64) (omega arith),
                    add_u64_fits checks (12 + n) 32 (omega arith),
                  )
                  (guard-Agree (ltb size (12 + n + 32)) format bad_format _ _ tt (λ inside.
                    let whole = ltb_false→le size (12 + n + 32) inside in
                    rw (slice_in_range container 12 (12 + n) (omega arith) (omega arith)) (
                      >>=-Agree (from_json_bytes json base64 (header_part container))
                        (from_json_bytes_py base64 loads (header_part container)) _ _ same_header
                        (λ header e.
                          rw
                            (
                              slice_in_range container (12 + n) (size - 32) (omega arith)
                                  (omega arith),
                              slice_suffix container (size - 32) (omega arith),
                            )
                            refl))))
          ]))

  open_v4-Agree :
      (parts : PartsV4) (password : Bytes)
      → length parts.ciphertext < 2 ^ 64
      → parts.header.version ≢ 3
      → Agree
          (open_v4 c rng json base64 fuel checks parts password)
          (open_bytes_py c power fuel parts password)
  unfolding open_v4 open_bytes_py make_tag hmac_sha256
  open_v4-Agree parts password small other =
      let header = parts.header in
      >>=-Agree (derive_keys c password header.salt header.iterations)
        (derive_keys_py c password header.salt header.iterations) _ _
        (derive_keys-Agree c password header.salt header.iterations)
        (λ keys e.
          guard-Agree
            (not (c.ct_eq parts.tag (c.hmac keys.1 (parts.header_bytes ++ parts.ciphertext))))
            authentication not_authentic _ _ tt
            (λ same.
              >>=-Agree (decrypt_blocks c fuel parts.ciphertext keys.0 header.nonce)
                (decrypt_blocks_py c power fuel parts.ciphertext keys.0 header.nonce header.version)
                _ _
                (decrypt_blocks-Agree c power fuel few parts.ciphertext keys.0 header.nonce
                  header.version other small)
                (λ padded e'.
                  >>=-Agree (unpad padded) (unpad_py padded) _ _ (unpad-Agree padded) (λ plain e''.
                    guard-Agree (length plain != header.original_length) authentication
                      not_authentic _ _ tt (λ sized. refl)))))

  -- Where the header and the ciphertext of the parts come from.
  read_v4_total_parts :
      (container : Bytes) {parts : PartsV4}
      → read_v4_total json base64 checks container ≡ ok parts
      → (from_json_bytes json base64 (header_part container) ≡ ok parts.header)
        × (length parts.ciphertext ≤ length container)
  unfolding read_v4_total
  read_v4_total_parts container {parts} e =
      let size = length container in
      let n = read_be 4 container 8 in
      let (_, e1) =
        fail_if_passed (ltb size 44 || not (bytes_eq (take 8 container) magic_v4)) format _ e in
      let (end, summed, e2) = >>=-eq-ok (ok_or (checked_add 12 n) format) _ e1 in
      let (sum, fits) = checked_add_passed 12 n format summed in
      let (_, e3) = fail_if_passed ((n == 0) || ltb 4096 n) format _ e2 in
      let (tag_end, _, e4) = >>=-eq-ok (add_u64 checks end 32) _ e3 in
      let (_, e5) = fail_if_passed (ltb size tag_end) format _ e4 in
      let (header_bytes, cut, e6) = >>=-eq-ok (slice container 12 end) _ e5 in
      let (header, parsed, e7) = >>=-eq-ok (from_json_bytes json base64 header_bytes) _ e6 in
      let (ciphertext, cut', e8) = >>=-eq-ok (slice container end (size - 32)) _ e7 in
      let (tag, _, e9) = >>=-eq-ok (slice container (size - 32) size) _ e8 in
      let (_, _, same) = slice_passed container 12 end cut in
      let (_, _, same') = slice_passed container end (size - 32) cut' in
      let moved : header_bytes ≡ header_part container =
        same ∙ ap (λ (k : ℕ). take (k - 12) (drop 12 container)) sum in
      subst
        (λ (p : PartsV4).
          (from_json_bytes json base64 (header_part container) ≡ ok p.header)
          × (length p.ciphertext ≤ length container))
        (Outcome-ok-injective e9)
        (
          ap (from_json_bytes json base64) (sym moved) ∙ parsed,
          rw same' (
              omega (
                arith,
                length-take (size - 32 - end) (drop end container),
                length-drop end container,
              )),
        )

  read_v4_parts :
      (container : Bytes) {parts : PartsV4}
      → read_v4 c rng json base64 fuel checks container ≡ ok parts
      → (from_json_bytes json base64 (header_part container) ≡ ok parts.header)
        × (length parts.ciphertext ≤ length container)
  read_v4_parts container e =
      read_v4_total_parts container (sym (read_v4_lem c rng json base64 fuel checks container) ∙ e)

  -- For samplers of at most 2 ^ 20 draws, a container shorter than 2 ^ 63 bytes on whose header the
  -- two parsers agree, and no version 3 in that header: `decrypt_v4` of the crate and
  -- `decrypt_bytes` of krcm/core.py agree, that is both return the same payload, or both report the
  -- same kind of error, or neither ends within its draws.
  pub decrypt_bytes-Agree :
      (container password : Bytes)
      → length container < 2 ^ 63
      → Agree
          (from_json_bytes json base64 (header_part container))
          (from_json_bytes_py base64 loads (header_part container))
      → ((header : HeaderV4)
          → from_json_bytes json base64 (header_part container) ≡ ok header
          → header.version ≢ 3)
      → Agree
          (decrypt_v4 c rng json base64 fuel checks container password)
          (decrypt_bytes_py c base64 loads power fuel container password)
  unfolding decrypt_v4 decrypt_bytes_py
  decrypt_bytes-Agree container password small same_header other =
      >>=-Agree (read_v4 c rng json base64 fuel checks container)
        (read_bytes_py base64 loads container) _ _ (read_v4-Agree container small same_header)
        (λ parts e.
          let (parsed, shorter) = read_v4_parts container e in
          open_v4-Agree parts password (omega arith) (other parts.header parsed))
