-- ===== src/ContainerV5/Layout.antt =====
-- Reading the fields of a container one behind the other: `read_fixed_32`, `read_u64_at` and the
-- first half of `decrypt_v5` of crates/krcm-core/src/format_v5.rs.
use krcm_spn.Base.{
  All-append, Bool, Bytes, Cursor, IsByte, IsBytes, [], add_u64, add_u64_fits, advance, ap, arith,
  bytes_eq, drop, end_at, eq→!=_false, false, from_be_acc, from_be_bytes-to_be_bytes, get_or,
  length, length-append, length-to_be_bytes, le→ltb_false, ltb, ok, read_be, refl, slice, slice_at,
  slice_suffix, take, take-append, to_be_bytes, to_be_bytes-IsBytes, true, ℕ, ◌%◌, ◌++◌, ◌+◌, ◌<◌,
  ◌^◌, ◌∙◌, ◌∷◌, ◌≡◌,
}
use krcm_spn.Constants.{magic_v5}
use krcm_spn.ContainerV5.{assemble, read_fixed_32, read_parts, read_u64_at}
use krcm_spn.ContainerV5.Total.{read_parts_lem, read_parts_total}
use krcm_spn.HeaderV5.{ParsedHeader, parse_public_header}

module _ (checks : Bool) {container : Bytes} {offset : ℕ} where
  pub read_fixed_32_at :
      (part rest : Bytes)
      → Cursor container offset (part ++ rest)
      → length part ≡ 32
      → read_fixed_32 checks container offset ≡ ok (part, offset + 32)
  unfolding read_fixed_32
  read_fixed_32_at part rest h e =
      let (sum, inside) = end_at checks part rest 32 h e in
      rw (sum, inside, slice_at part rest 32 h e) refl

  pub read_u64_at_at :
      (n : ℕ) (rest : Bytes)
      → Cursor container offset (to_be_bytes 8 n ++ rest)
      → n < 2 ^ 64
      → read_u64_at checks container offset ≡ ok (n, offset + 8)
  unfolding read_u64_at
  read_u64_at_at n rest h small =
      let size = length-to_be_bytes 8 n in
      let (sum, inside) = end_at checks (to_be_bytes 8 n) rest 8 h size in
      rw (sum, inside, slice_at (to_be_bytes 8 n) rest 8 h size)
        (ap (λ (k : ℕ). ok (k, offset + 8)) (from_be_bytes-to_be_bytes 8 n (omega arith)))

module _ (checks : Bool) (header iv table ciphertext tag : Bytes) (hh : length header ≡ 64)
    (hi : length iv ≡ 32) (aligned : length table % 40 ≡ 0) (ht : length tag ≡ 32)
    (small : length table + length ciphertext < 2 ^ 63) where
  abbrev tail : Bytes
  tail = to_be_bytes 8 (length ciphertext) ++ (ciphertext ++ tag)

  abbrev body : Bytes
  body = iv ++ (to_be_bytes 8 (length table) ++ (table ++ tail))

  length-tail : length tail ≡ 8 + length ciphertext + 32
  length-tail = omega (
    arith,
    length-append (to_be_bytes 8 (length ciphertext)) (ciphertext ++ tag),
    length-to_be_bytes 8 (length ciphertext),
    length-append ciphertext tag,
    ht,
  )

  length-body : length body ≡ 40 + length table + length tail
  length-body = omega (
    arith,
    length-append iv (to_be_bytes 8 (length table) ++ (table ++ tail)),
    length-append (to_be_bytes 8 (length table)) (table ++ tail),
    length-to_be_bytes 8 (length table),
    length-append table tail,
    hi,
  )

  abbrev container : Bytes
  container = assemble header iv table ciphertext tag

  length-container : length container ≡ 157 + length table + length ciphertext
  unfolding assemble to_be_bytes
  length-container = omega (arith, length-append header body, length-body, length-tail, hh)

  at_header : Cursor container 13 (header ++ body)
  unfolding assemble to_be_bytes
  at_header = record { at = refl; size = omega arith; fits = omega (arith, length-container) }

  prefix :
      (bytes_eq (take 8 container) magic_v5 ≡ true)
      × (get_or container 8 0 ≡ 5)
      × (read_be 4 container 9 ≡ 64)
      × (take 64 (drop 13 container) ≡ header)
  unfolding assemble to_be_bytes from_be_acc
  prefix = (refl, refl, refl, take-append 64 header body hh)

  at_iv : Cursor container 77 body
  at_iv = advance header body 64 at_header hh

  at_table_len : Cursor container 109 (to_be_bytes 8 (length table) ++ (table ++ tail))
  at_table_len = advance iv _ 32 at_iv hi

  at_table : Cursor container 117 (table ++ tail)
  at_table = advance (to_be_bytes 8 (length table)) _ 8 at_table_len (length-to_be_bytes 8 _)

  at_tail : Cursor container (117 + length table) tail
  at_tail = advance table tail (length table) at_table refl

  at_ciphertext : Cursor container (117 + length table + 8) (ciphertext ++ tag)
  at_ciphertext = advance (to_be_bytes 8 (length ciphertext)) _ 8 at_tail (length-to_be_bytes 8 _)

  at_tag : Cursor container (117 + length table + 8 + length ciphertext) tag
  at_tag = advance ciphertext tag (length ciphertext) at_ciphertext refl

  -- The container's fields are read back, if they are of their sizes and the header is parsed.
  pub read_parts-assemble :
      (parsed : ParsedHeader)
      → parse_public_header header ≡ ok parsed
      → read_parts checks container
        ≡ ok (record {
          public_header = header;
          parsed = parsed;
          stored_synthetic_iv = iv;
          segment_table = table;
          ciphertext = ciphertext;
          tag = tag;
        })
  unfolding read_parts_total
  read_parts-assemble parsed e =
      let (magic, version, header_len, front) = prefix in
      let n = length table in
      let m = length ciphertext in
      let long : ltb (length container) 141 ≡ false =
        le→ltb_false (length container) 141 (omega (arith, length-container)) in
      let (table_sum, table_inside) = end_at checks table tail n at_table refl in
      let (cipher_sum, cipher_inside) = end_at checks ciphertext tag m at_ciphertext refl in
      let last_sum : add_u64 checks (117 + n + 8 + m) 32 ≡ ok (length container) =
        add_u64_fits checks (117 + n + 8 + m) 32 (omega arith)
        ∙ ap ok {x = 117 + n + 8 + m + 32} {y = length container}
            (omega (arith, length-container)) in
      let read_iv : read_fixed_32 checks container 77 ≡ ok (iv, 109) =
        read_fixed_32_at checks iv _ at_iv hi in
      let read_n : read_u64_at checks container 109 ≡ ok (n, 117) =
        read_u64_at_at checks n _ at_table_len (omega arith) in
      let read_m : read_u64_at checks container (117 + n) ≡ ok (m, 117 + n + 8) =
        read_u64_at_at checks m _ at_tail (omega arith) in
      let cut_tag : slice container (117 + n + 8 + m) (length container) ≡ ok tag =
        slice_suffix container (117 + n + 8 + m) (omega (arith, length-container))
        ∙ ap ok at_tag.at in
      rw
        (
          read_parts_lem checks container,
          long,
          magic,
          version,
          header_len,
          front,
          e,
          read_iv,
          read_n,
          aligned,
          table_sum,
          table_inside,
          slice_at table tail n at_table refl,
          read_m,
          cipher_sum,
          last_sum,
          eq→!=_false (length container) (length container) refl,
          slice_at ciphertext tag m at_ciphertext refl,
          cut_tag,
        )
        refl

-- A container that is made of bytes is bytes.
pub assemble-IsBytes :
    (header iv table ciphertext tag : Bytes)
    → IsBytes header
    → IsBytes iv
    → IsBytes table
    → IsBytes ciphertext
    → IsBytes tag
    → IsBytes (assemble header iv table ciphertext tag)
unfolding assemble
assemble-IsBytes header iv table ciphertext tag h0 h1 h2 h3 h4 =
    All-append IsByte (magic_v5 ++ 5 ∷ []) _ (omega arith) (
      All-append IsByte (to_be_bytes 4 64) _ (to_be_bytes-IsBytes 4 64) (
        All-append IsByte header _ h0 (
          All-append IsByte iv _ h1 (
            All-append IsByte (to_be_bytes 8 (length table)) _
              (to_be_bytes-IsBytes 8 (length table))
              (All-append IsByte table _ h2 (
                All-append IsByte (to_be_bytes 8 (length ciphertext)) _
                  (to_be_bytes-IsBytes 8 (length ciphertext))
                  (All-append IsByte ciphertext tag h3 h4)))))))
