-- ===== src/ContainerV4/RoundTrip.antt =====
-- `decrypt_v4` of crates/krcm-core/src/format_v4.rs on what `encrypt_v4` makes.
use krcm_spn.Base.{
  Bool, Bytes, Cursor, IsBytes, add_u64_fits, advance, ap, arith, bytes_eq, drop, eq→!=_false,
  false, from_be_acc, length, length-append, le→ltb_false, ltb, lt→ltb, ne→==_false, ok, read_be,
  refl, slice, slice_at, slice_suffix, take, to_be_bytes, true, ℕ, ◌++◌, ◌+◌, ◌-◌, ◌<◌, ◌==◌, ◌^◌,
  ◌∙◌, ◌≡◌, ◌≤◌,
}
use krcm_spn.Block.Total.{blocks_round_trip}
use krcm_spn.Constants.{magic_v4}
use krcm_spn.ContainerV4.{EncryptV4Options, assemble_v4, decrypt_v4, encrypt_v4, open_v4}
use krcm_spn.ContainerV4.Total.{read_v4_lem, read_v4_total}
use krcm_spn.HeaderV4.{new_header, to_json_bytes}
use krcm_spn.HeaderV4.Laws.{
  from_json_bytes-to_json_bytes, iterations_test, length-to_json_bytes, new_header-IsValidHeader,
}
use krcm_spn.Json.{Base64, Json}
use krcm_spn.Kdf.{derive_keys, make_tag}
use krcm_spn.Kdf.Laws.{derive_keys_iff, make_tag-IsArray}
use krcm_spn.Padding.{pad}
use krcm_spn.Padding.Laws.{pad-IsBytes, pad-aligned, unpad-pad}
use krcm_spn.Primitives.{IsGiven, Primitives, Rng, unwrap_or_fill, unwrap_or_fill-IsArray}
use krcm_spn.Sampler.Draws.{Accepting}

module _ (header_bytes ciphertext tag : Bytes) (lo : 1 ≤ length header_bytes)
    (hi : length header_bytes ≤ 4096) (ht : length tag ≡ 32)
    (small : length ciphertext < 2 ^ 63) where
  abbrev container : Bytes
  container = assemble_v4 header_bytes ciphertext tag

  pub length-container : length container ≡ 12 + length header_bytes + length ciphertext + 32
  unfolding assemble_v4 to_be_bytes
  length-container =
      omega
        (arith, length-append header_bytes (ciphertext ++ tag), length-append ciphertext tag, ht)

  pub prefix :
      (bytes_eq (take 8 container) magic_v4 ≡ true) × (read_be 4 container 8 ≡ length header_bytes)
  unfolding assemble_v4 to_be_bytes from_be_acc
  prefix = (refl, omega arith)

  pub at_header : Cursor container 12 (header_bytes ++ (ciphertext ++ tag))
  unfolding assemble_v4 to_be_bytes
  at_header = record { at = refl; size = omega arith; fits = omega (arith, length-container) }

  at_ciphertext : Cursor container (12 + length header_bytes) (ciphertext ++ tag)
  at_ciphertext = advance header_bytes (ciphertext ++ tag) (length header_bytes) at_header refl

  at_tag : Cursor container (12 + length header_bytes + length ciphertext) tag
  at_tag = advance ciphertext tag (length ciphertext) at_ciphertext refl

  -- The pieces that `decrypt_v4` cuts a container into.
  cut_ciphertext :
      slice container (12 + length header_bytes) (length container - 32) ≡ ok ciphertext
  cut_ciphertext =
      ap (λ (k : ℕ). slice container (12 + length header_bytes) k) {x = length container - 32}
        {y = 12 + length header_bytes + length ciphertext} (omega (arith, length-container))
      ∙ slice_at ciphertext tag (length ciphertext) at_ciphertext refl

  cut_tag : slice container (length container - 32) (length container) ≡ ok tag
  cut_tag =
      let start : length container - 32 ≡ 12 + length header_bytes + length ciphertext =
        omega (arith, length-container) in
      slice_suffix container (length container - 32) (omega arith)
      ∙ ap (λ (k : ℕ). ok (drop k container)) start
      ∙ ap ok at_tag.at

module _ (c : Primitives) (rng : Rng) (json : Json) (base64 : Base64) (fuel : ℕ)
    (accepting : Accepting c fuel) (checks : Bool) where
  -- For a payload of bytes shorter than 2 ^ 62, a salt and a nonce of 16 bytes or none, keys
  -- derived from the password and the salt in use, and samplers whose every draw ends within the
  -- fuel: `encrypt_v4` returns a container, and `decrypt_v4` of it with the same password returns
  -- the payload.
  pub decrypt_v4-encrypt_v4 :
      (input password : Bytes) (opts : EncryptV4Options) (keys : Bytes × Bytes)
      → IsBytes input
      → length input < 2 ^ 62
      → IsGiven opts.salt
      → IsGiven opts.nonce
      → derive_keys c password (unwrap_or_fill rng opts.salt 0).0 opts.iterations ≡ ok keys
      → (container : Bytes) × (encrypt_v4 c rng json base64 fuel checks input password opts
          ≡ ok container)
        × (decrypt_v4 c rng json base64 fuel checks container password ≡ ok input)
  unfolding encrypt_v4 decrypt_v4 read_v4_total open_v4 new_header
  decrypt_v4-encrypt_v4 input password opts keys bytes short given_salt given_nonce derived =
      let salt = (unwrap_or_fill rng opts.salt 0).0 in
      let call = (unwrap_or_fill rng opts.salt 0).1 in
      let nonce = (unwrap_or_fill rng opts.nonce call).0 in
      let header = new_header opts.iterations salt nonce (length input) in
      let header_bytes = to_json_bytes base64 header in
      let (named, sized, some_round, few) =
        (derive_keys_iff c password salt opts.iterations).0 (keys, derived) in
      let valid =
        new_header-IsValidHeader opts.iterations salt nonce (length input) some_round few
          (unwrap_or_fill-IsArray rng opts.salt 0 given_salt)
          (unwrap_or_fill-IsArray rng opts.nonce call given_nonce) (omega arith) in
      let (longer, padded_short, aligned) = pad-aligned input in
      let (ciphertext, encrypted, array, undone) =
        blocks_round_trip c fuel accepting (pad input) keys.0 nonce (pad-IsBytes input bytes)
          aligned in
      let tag = make_tag c keys.1 header_bytes ciphertext in
      let (lo, hi) = length-to_json_bytes base64 header valid in
      let tag_size = make_tag-IsArray c keys.1 header_bytes ciphertext in
      let small : length ciphertext < 2 ^ 63 = omega (arith, array.0) in
      let size = length-container header_bytes ciphertext tag lo hi tag_size.0 small in
      let (magic, header_len) = prefix header_bytes ciphertext tag lo hi tag_size.0 small in
      let container = assemble_v4 header_bytes ciphertext tag in
      let n = length header_bytes in
      let at = at_header header_bytes ciphertext tag lo hi tag_size.0 small in
      let long : ltb (length container) 44 ≡ false =
        le→ltb_false (length container) 44 (omega (arith, size)) in
      let fits : ltb (12 + n) (2 ^ 64) ≡ true = lt→ltb (12 + n) (2 ^ 64) (omega arith) in
      let some_byte : (n == 0) ≡ false = ne→==_false n 0 (λ h. absurd (omega arith)) in
      let inside : ltb (length container) (12 + n + 32) ≡ false =
        le→ltb_false (length container) (12 + n + 32) (omega (arith, size)) in
      (
        assemble_v4 header_bytes ciphertext tag,
        rw (iterations_test opts.iterations some_round few, derived, encrypted) refl,
        rw
            (
              read_v4_lem c rng json base64 fuel checks container,
              long,
              magic,
              header_len,
              fits,
              some_byte,
              le→ltb_false 4096 n hi,
              add_u64_fits checks (12 + n) 32 (omega arith),
              inside,
              slice_at header_bytes (ciphertext ++ tag) n at refl,
              from_json_bytes-to_json_bytes json base64 header valid,
              cut_ciphertext header_bytes ciphertext tag lo hi tag_size.0 small,
              cut_tag header_bytes ciphertext tag lo hi tag_size.0 small,
              derived,
              (c.ct_eq_iff tag tag).1 refl,
              undone,
              unpad-pad input,
              eq→!=_false (length input) (length input) refl,
            )
            refl,
      )
