-- ===== src/Reference/Container/Read/Header.antt =====
-- `Header.from_json_bytes` of krcm/core.py on what the crate prints.
use krcm_spn.Base.{
  arith, codes, eq→!=_false, false, leb, length, le→ltb_false, ltb, refl, true, ◌≡◌,
}
use krcm_spn.HeaderV4.{HeaderV4, members, to_json_bytes}
use krcm_spn.HeaderV4.Laws.{IsValidHeader, members-IsPlainObject}
use krcm_spn.Json.{Base64}
use krcm_spn.Reference.{done}
use krcm_spn.Reference.Container.Read.{Loads, from_json_bytes_py, read_payload, refused_as_format}

module _ (base64 : Base64) (json : Loads base64) where
  -- A valid header that the crate prints is read back.
  pub from_json_bytes_py-to_json_bytes :
      (header : HeaderV4)
      → IsValidHeader header
      → from_json_bytes_py base64 json (to_json_bytes base64 header) ≡ done header
  unfolding from_json_bytes_py read_payload to_json_bytes members refused_as_format
  from_json_bytes_py-to_json_bytes header h =
      let (v1, v2, i1, i2, hs, hn, fits) = h in
      let (payload, parsed, texts, numbers) =
        json.loads-print_object (members base64 header) (members-IsPlainObject base64 header h) in
      let (magic_v, magic_got, magic_at, magic_is, _) =
        texts (codes "magic") (codes "AMPCRYPT") refl in
      let (version_v, version_got, version_at, version_int) =
        numbers (codes "version") header.version refl in
      let (size_v, size_got, size_at, size_int) = numbers (codes "block_bytes") 32 refl in
      let (rounds_v, rounds_got, rounds_at, rounds_int) = numbers (codes "rounds") 10 refl in
      let (salt_v, salt_got, salt_at, salt_is, salt_read) =
        texts (codes "salt") (base64.encode header.salt) refl in
      let (nonce_v, nonce_got, nonce_at, nonce_is, nonce_read) =
        texts (codes "nonce") (base64.encode header.nonce) refl in
      let (length_v, length_got, length_at, length_int) =
        numbers (codes "original_length") header.original_length refl in
      let (iterations_v, iterations_got, iterations_at, iterations_int) =
        numbers (codes "iterations") header.iterations refl in
      let low : leb 2 header.version ≡ true = ground arith in
      let high : leb header.version 4 ≡ true = ground arith in
      let some_round : ltb header.iterations 1 ≡ false = le→ltb_false header.iterations 1 i1 in
      let few : ltb 1_000_000 header.iterations ≡ false =
        le→ltb_false 1_000_000 header.iterations i2 in
      rw
        (
          parsed,
          magic_got,
          magic_is,
          version_at,
          version_int,
          low,
          high,
          size_at,
          size_int,
          rounds_got,
          rounds_int,
          salt_at,
          salt_read header.salt (base64.decode-encode header.salt hs.1),
          nonce_at,
          nonce_read header.nonce (base64.decode-encode header.nonce hn.1),
          eq→!=_false (length header.salt) 16 hs.0,
          eq→!=_false (length header.nonce) 16 hn.0,
          length_at,
          length_int,
          iterations_at,
          iterations_int,
          some_round,
          few,
        )
        refl
