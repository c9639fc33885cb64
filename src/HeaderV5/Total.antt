-- ===== src/HeaderV5/Total.antt =====
-- `parse_public_header` of crates/krcm-core/src/format_v5.rs with reads that do not panic.
use krcm_spn.Base.{
  !=_false→eq, Bool-cases, Bytes, Outcome, any_nonzero, ap, arith, bytes_eq, drop, err, fail_if,
  format, get_or, if◌then◌else◌, index_in_range, inl, inr, invalid_parameter, length, ltb, not, ok,
  read_be, refl, slice_in_range, take, three_guards, ◌!=◌, ◌==◌, ◌>>=◌, ◌>>◌, ◌||◌, ◌∙◌, ◌≡◌,
}
use krcm_spn.Constants.{header_v5_size, magic_v5}
use krcm_spn.HeaderV5.{ParsedHeader, parse_kdf, parse_pbkdf2, parse_public_header, parse_scrypt}
use krcm_spn.Kdf.{KdfParams, pbkdf2_params, scrypt_params}

unfoldable pub parse_kdf_total : Bytes → Outcome KdfParams
parse_kdf_total header =
    if get_or header 10 0 == 1
    then ok (pbkdf2_params (read_be 4 header 12))
    else (if get_or header 10 0 == 2
        then ok (scrypt_params (get_or header 16 0) (read_be 4 header 17) (read_be 4 header 21))
        else err invalid_parameter)

unfoldable pub parse_public_header_total : Bytes → Outcome ParsedHeader
parse_public_header_total header = do
  fail_if
      ((length header != header_v5_size)
        || not (bytes_eq (take 8 header) magic_v5)
        || (get_or header 8 0 != 5))
      format
  fail_if
      ((get_or header 9 0 != 1)
        || (get_or header 11 0 != 0)
        || any_nonzero (take 5 (drop 27 header)))
      format
  fail_if (ltb 1 (get_or header 26 0)) invalid_parameter
  kdf ← parse_kdf_total header
  ok (record {
    kdf = kdf;
    salt = take 16 (drop 32 header);
    public_nonce = take 16 (drop 48 header);
  })

parse_kdf_lem : (header : Bytes) → length header ≡ 64 → parse_kdf header ≡ parse_kdf_total header
unfolding parse_kdf parse_pbkdf2 parse_scrypt parse_kdf_total
parse_kdf_lem header size =
    rw
      (
        index_in_range header 10 (omega arith),
        index_in_range header 16 (omega arith),
        slice_in_range header 12 16 (omega arith) (omega arith),
        slice_in_range header 17 21 (omega arith) (omega arith),
        slice_in_range header 21 25 (omega arith) (omega arith),
      )
      refl

-- The length is compared before anything is read, so no read of the header panics.
pub parse_public_header_lem :
    (header : Bytes) → parse_public_header header ≡ parse_public_header_total header
unfolding parse_public_header parse_public_header_total
parse_public_header_lem header = elim (Bool-cases (length header != 64)) [
  | inl other ↦ rw other refl
  | inr same ↦
      let size = !=_false→eq (length header) 64 same in
      let finish = λ (kdf : KdfParams).
        let r : Outcome ParsedHeader = ok (record {
          kdf = kdf;
          salt = take 16 (drop 32 header);
          public_nonce = take 16 (drop 48 header);
        }) in
        r in
      let rest : Outcome ParsedHeader =
        fail_if (ltb 1 (get_or header 26 0)) invalid_parameter
        >> (parse_kdf_total header >>= finish) in
      let named = not (bytes_eq (take 8 header) magic_v5) in
      let version = get_or header 8 0 != 5 in
      let flags = get_or header 11 0 != 0 in
      let header_version = get_or header 9 0 != 1 in
      let reserved = any_nonzero (take 5 (drop 27 header)) in
      rw
        (
          index_in_range header 8 (omega arith),
          index_in_range header 9 (omega arith),
          index_in_range header 11 (omega arith),
          index_in_range header 26 (omega arith),
          slice_in_range header 0 8 (omega arith) (omega arith),
          slice_in_range header 27 32 (omega arith) (omega arith),
          slice_in_range header 32 48 (omega arith) (omega arith),
          slice_in_range header 48 64 (omega arith) (omega arith),
          parse_kdf_lem header size,
        )
        (three_guards (length header != 64) named version format (
            fail_if header_version format
            >> (fail_if flags format >> (fail_if reserved format >> rest)))
          ∙ ap
              (λ (t : Outcome ParsedHeader).
                fail_if ((length header != 64) || named || version) format >> t)
              (three_guards header_version flags reserved format rest))
]
