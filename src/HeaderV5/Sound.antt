-- ===== src/HeaderV5/Sound.antt =====
-- What `parse_public_header` of crates/krcm-core/src/format_v5.rs accepts.
use krcm_spn.Base.{
  !=_false→eq, ==_iff, >>=-eq-ok, Bool, Bool-cases, Bytes, Outcome, any_nonzero, arith, bytes_eq,
  bytes_eq→eq, drop, fail_if, fail_if_passed, false, format, get_or, inl, inr, invalid_parameter,
  length, ltb, ltb_false→le, not, ok, sym, take, true, ◌!=◌, ◌==◌, ◌>>=◌, ◌>>◌, ◌||◌, ◌∙◌, ◌≡◌, ◌≤◌,
  ◌⊎◌,
}
use krcm_spn.Constants.{magic_v5}
use krcm_spn.HeaderV5.{ParsedHeader, parse_public_header}
use krcm_spn.HeaderV5.Total.{parse_kdf_total, parse_public_header_lem, parse_public_header_total}
use krcm_spn.Kdf.{KdfParams}

not_or_false : (a b d : Bool) → (a || not b || d) ≡ false → (a ≡ false) × (b ≡ true) × (d ≡ false)
not_or_false a b d h = ground arith

three_false : (a b d : Bool) → (a || b || d) ≡ false → (a ≡ false) × (b ≡ false) × (d ≡ false)
three_false a b d h = ground arith

known_kdf :
    (header : Bytes) {kdf : KdfParams}
    → parse_kdf_total header ≡ ok kdf
    → (get_or header 10 0 ≡ 1) ⊎ (get_or header 10 0 ≡ 2)
unfolding parse_kdf_total
known_kdf header e = elim (Bool-cases (get_or header 10 0 == 1)) [
  | inl first ↦ inl ((==_iff _ 1).0 first)
  | inr more ↦ elim (Bool-cases (get_or header 10 0 == 2)) [
    | inl two ↦ inr ((==_iff _ 2).0 two)
    | inr other ↦ cc (rw (more, other) at e)
  ]
]

-- A header that `parse_public_header` accepts has 64 bytes, the magic text, version 5 and header
-- version 1, zero flags and reserved bytes, and a known padding policy and key derivation.
pub parse_public_header_sound :
    (header : Bytes) {parsed : ParsedHeader}
    → parse_public_header header ≡ ok parsed
    → (length header ≡ 64)
      × (take 8 header ≡ magic_v5)
      × (get_or header 8 0 ≡ 5)
      × (get_or header 9 0 ≡ 1)
      × (get_or header 11 0 ≡ 0)
      × (any_nonzero (take 5 (drop 27 header)) ≡ false)
      × (get_or header 26 0 ≤ 1)
      × ((get_or header 10 0 ≡ 1) ⊎ (get_or header 10 0 ≡ 2))
unfolding parse_public_header_total
parse_public_header_sound header e0 =
    let e = sym (parse_public_header_lem header) ∙ e0 in
    let finish = λ (kdf : KdfParams).
      let r : Outcome ParsedHeader = ok (record {
        kdf = kdf;
        salt = take 16 (drop 32 header);
        public_nonce = take 16 (drop 48 header);
      }) in
      r in
    let rest3 = parse_kdf_total header >>= finish in
    let rest2 = fail_if (ltb 1 (get_or header 26 0)) invalid_parameter >> rest3 in
    let fixed =
      (get_or header 9 0 != 1)
      || (get_or header 11 0 != 0)
      || any_nonzero (take 5 (drop 27 header)) in
    let (t1, e1) =
      fail_if_passed
        ((length header != 64)
          || not (bytes_eq (take 8 header) magic_v5)
          || (get_or header 8 0 != 5))
        format (fail_if fixed format >> rest2) e in
    let (t2, e2) = fail_if_passed fixed format rest2 e1 in
    let (t3, e3) = fail_if_passed (ltb 1 (get_or header 26 0)) invalid_parameter rest3 e2 in
    let (kdf, e4, e5) = >>=-eq-ok (parse_kdf_total header) finish e3 in
    let (size, magic, version) =
      not_or_false (length header != 64) (bytes_eq (take 8 header) magic_v5)
        (get_or header 8 0 != 5) t1 in
    let zeros =
      three_false (get_or header 9 0 != 1) (get_or header 11 0 != 0)
        (any_nonzero (take 5 (drop 27 header))) t2 in
    (
      !=_false→eq (length header) 64 size,
      bytes_eq→eq (take 8 header) magic_v5 magic,
      !=_false→eq (get_or header 8 0) 5 version,
      !=_false→eq (get_or header 9 0) 1 zeros.0,
      !=_false→eq (get_or header 11 0) 0 zeros.1,
      zeros.2,
      ltb_false→le 1 (get_or header 26 0) t3,
      known_kdf header e4,
    )
