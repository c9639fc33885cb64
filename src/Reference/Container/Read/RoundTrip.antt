-- ===== src/Reference/Container/Read/RoundTrip.antt =====
-- `decrypt_bytes` of krcm/core.py on what `encrypt_v4` of crates/krcm-core/src/format_v4.rs makes.
use mathlib.Core.Path.{subst}
use krcm_spn.Base.{
  >>=-eq-ok, Bool, Bytes, IsBytes, Outcome-ok-injective, ap, arith, drop, fail_if_passed,
  invalid_parameter, length, ok, refl, slice_at, slice_passed, sym, take, ℕ, ◌++◌, ◌+◌, ◌-◌, ◌<◌,
  ◌^◌, ◌∙◌, ◌≡◌, ◌≤◌,
}
use krcm_spn.Block.{encrypt_blocks}
use krcm_spn.Block.Chain.{decrypt_blocks-encrypt_blocks}
use krcm_spn.ContainerV4.{EncryptV4Options, assemble_v4, encrypt_v4}
use krcm_spn.ContainerV4.RoundTrip.{at_header, decrypt_v4-encrypt_v4, length-container, prefix}
use krcm_spn.HeaderV4.{HeaderV4, from_json_bytes, new_header, to_json_bytes}
use krcm_spn.HeaderV4.Laws.{
  from_json_bytes-to_json_bytes, length-to_json_bytes, new_header-IsValidHeader,
}
use krcm_spn.Json.{Base64, Json}
use krcm_spn.Kdf.{bad_iterations, derive_keys, make_tag}
use krcm_spn.Kdf.Laws.{derive_keys_iff, make_tag-IsArray}
use krcm_spn.Padding.{pad}
use krcm_spn.Padding.Laws.{pad-IsBytes, pad-aligned}
use krcm_spn.Primitives.{IsGiven, Primitives, Rng, unwrap_or_fill, unwrap_or_fill-IsArray}
use krcm_spn.Reference.{done}
use krcm_spn.Reference.Affine.{InversePower}
use krcm_spn.Reference.Agree.{Agree-done}
use krcm_spn.Reference.Container.Read.{Loads, decrypt_bytes_py, from_json_bytes_py}
use krcm_spn.Reference.Container.Read.Agree.{decrypt_bytes-Agree, header_part}
use krcm_spn.Reference.Container.Read.Header.{from_json_bytes_py-to_json_bytes}
use krcm_spn.Sampler.Draws.{Accepting}

header_part_lem :
    (header_bytes ciphertext tag : Bytes)
    → 1 ≤ length header_bytes
    → length header_bytes ≤ 4096
    → length tag ≡ 32
    → length ciphertext < 2 ^ 63
    → header_part (assemble_v4 header_bytes ciphertext tag) ≡ header_bytes
header_part_lem header_bytes ciphertext tag lo hi ht small =
    let container = assemble_v4 header_bytes ciphertext tag in
    let n = length header_bytes in
    let (_, len) = prefix header_bytes ciphertext tag lo hi ht small in
    let at = at_header header_bytes ciphertext tag lo hi ht small in
    let (_, _, same) =
      slice_passed container 12 (12 + n) (slice_at header_bytes (ciphertext ++ tag) n at refl) in
    ap (λ (k : ℕ). take (12 + k - 12) (drop 12 container)) len ∙ sym same

module _ (c : Primitives) (rng : Rng) (json : Json) (base64 : Base64) (loads : Loads base64)
    (power : InversePower) (fuel : ℕ) (few : fuel ≤ 2 ^ 20) (checks : Bool) where
  -- The header that `encrypt_v4` writes, read by the two parsers.
  encrypt_v4_header :
      (input password : Bytes) (opts : EncryptV4Options) {container : Bytes}
      → IsBytes input
      → length input < 2 ^ 62
      → IsGiven opts.salt
      → IsGiven opts.nonce
      → encrypt_v4 c rng json base64 fuel checks input password opts ≡ ok container
      → (header : HeaderV4) × (header.version ≡ 4)
        × (length container < 2 ^ 63)
        × (from_json_bytes json base64 (header_part container) ≡ ok header)
        × (from_json_bytes_py base64 loads (header_part container) ≡ done header)
  unfolding encrypt_v4 new_header
  encrypt_v4_header input password opts bytes short given_salt given_nonce e =
      let salt = (unwrap_or_fill rng opts.salt 0).0 in
      let call = (unwrap_or_fill rng opts.salt 0).1 in
      let nonce = (unwrap_or_fill rng opts.nonce call).0 in
      let header = new_header opts.iterations salt nonce (length input) in
      let header_bytes = to_json_bytes base64 header in
      let (_, e1) = fail_if_passed (bad_iterations opts.iterations) invalid_parameter _ e in
      let (keys, derived, e2) = >>=-eq-ok (derive_keys c password salt opts.iterations) _ e1 in
      let (ciphertext, encrypted, e3) =
        >>=-eq-ok (encrypt_blocks c fuel (pad input) keys.0 nonce) _ e2 in
      let (named, sized, some_round, few) =
        (derive_keys_iff c password salt opts.iterations).0 (keys, derived) in
      let valid =
        new_header-IsValidHeader opts.iterations salt nonce (length input) some_round few
          (unwrap_or_fill-IsArray rng opts.salt 0 given_salt)
          (unwrap_or_fill-IsArray rng opts.nonce call given_nonce) (omega arith) in
      let array =
        (decrypt_blocks-encrypt_blocks c fuel (pad input) keys.0 nonce (pad-IsBytes input bytes)
          encrypted).0 in
      let tag = make_tag c keys.1 header_bytes ciphertext in
      let tag_size = make_tag-IsArray c keys.1 header_bytes ciphertext in
      let (lo, hi) = length-to_json_bytes base64 header valid in
      let small : length ciphertext < 2 ^ 63 = omega (arith, array.0, pad-aligned input) in
      let part = header_part_lem header_bytes ciphertext tag lo hi tag_size.0 small in
      let size = length-container header_bytes ciphertext tag lo hi tag_size.0 small in
      subst
        (λ (t : Bytes).
          (header : HeaderV4) × (header.version ≡ 4)
          × (length t < 2 ^ 63)
          × (from_json_bytes json base64 (header_part t) ≡ ok header)
          × (from_json_bytes_py base64 loads (header_part t) ≡ done header))
        (Outcome-ok-injective e3)
        (
          header,
          refl,
          omega (arith, size, array.0, pad-aligned input),
          ap (from_json_bytes json base64) part
              ∙ from_json_bytes-to_json_bytes json base64 header valid,
          ap (from_json_bytes_py base64 loads) part
              ∙ from_json_bytes_py-to_json_bytes base64 loads header valid,
        )

  -- For a payload of bytes shorter than 2 ^ 62, a salt and a nonce of 16 bytes or none, keys
  -- derived from the password and the salt in use, and samplers whose every draw ends within the
  -- fuel, which is at most 2 ^ 20: `encrypt_v4` returns a container, and `decrypt_bytes` of
  -- krcm/core.py with the same password returns the payload.
  pub decrypt_bytes_py-encrypt_v4 :
      Accepting c fuel
      → (input password : Bytes) (opts : EncryptV4Options) (keys : Bytes × Bytes) → IsBytes input
      → length input < 2 ^ 62
      → IsGiven opts.salt
      → IsGiven opts.nonce
      → derive_keys c password (unwrap_or_fill rng opts.salt 0).0 opts.iterations ≡ ok keys
      → (container : Bytes) × (encrypt_v4 c rng json base64 fuel checks input password opts
          ≡ ok container)
        × (decrypt_bytes_py c base64 loads power fuel container password ≡ done input)
  decrypt_bytes_py-encrypt_v4 accepting input password opts keys bytes short given_salt given_nonce
        derived =
      let (container, made, reads) =
        decrypt_v4-encrypt_v4 c rng json base64 fuel accepting checks input password opts keys bytes
          short given_salt given_nonce derived in
      let (header, four, small, ours, theirs) =
        encrypt_v4_header input password opts bytes short given_salt given_nonce made in
      let other =
        λ (h : HeaderV4) (e : from_json_bytes json base64 (header_part container) ≡ ok h)
            (three : h.version ≡ 3).
          let same : header ≡ h = Outcome-ok-injective (sym ours ∙ e) in
          absurd (omega (arith, four, three, ap (λ (t : HeaderV4). t.version) same)) in
      (
        container,
        made,
        Agree-done _ reads (
            decrypt_bytes-Agree c rng json base64 loads power fuel few checks container password
              small (rw (ours, theirs) refl) other),
      )
