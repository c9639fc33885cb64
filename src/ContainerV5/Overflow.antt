-- ===== src/ContainerV5/Overflow.antt =====
-- A segment table whose length overflows the offset in `decrypt_v5` of
-- crates/krcm-core/src/format_v5.rs.
use krcm_spn.Base.{
  Bool, Bool-cases, Bytes, Cursor, [], add_u64, advance, arith, bytes_eq, drop, false, from_be_acc,
  get_or, inl, inr, length, length-append, length-to_be_bytes, le→ltb_false, ltb, lt→ltb, ok, panic,
  read_be, refl, slice, take, take-append, to_be_bytes, true, ℕ, ◌%◌, ◌++◌, ◌+◌, ◌<◌, ◌^◌, ◌∷◌, ◌≡◌,
  ◌≤◌, ◌⊎◌,
}
use krcm_spn.Constants.{magic_v5}
use krcm_spn.ContainerV5.{decrypt_v5, read_fixed_32, read_u64_at}
use krcm_spn.ContainerV5.Layout.{read_fixed_32_at, read_u64_at_at}
use krcm_spn.ContainerV5.Total.{read_parts_lem, read_parts_total}
use krcm_spn.HeaderV5.{ParsedHeader, parse_public_header}
use krcm_spn.Primitives.{Primitives, Rng}

-- The container with this length in front of `rest`.
unfoldable pub crafted : Bytes → Bytes → ℕ → Bytes → Bytes
crafted header iv n rest =
    (magic_v5 ++ 5 ∷ []) ++ (to_be_bytes 4 64 ++ (header ++ (iv ++ (to_be_bytes 8 n ++ rest))))

module _ (checks : Bool) (header iv rest : Bytes) (n : ℕ) (hh : length header ≡ 64)
    (hi : length iv ≡ 32) (hr : 24 ≤ length rest) (small : length rest < 2 ^ 63) where
  length-crafted : length (crafted header iv n rest) ≡ 117 + length rest
  unfolding crafted to_be_bytes
  length-crafted = omega (
    arith,
    length-append header (iv ++ (to_be_bytes 8 n ++ rest)),
    length-append iv (to_be_bytes 8 n ++ rest),
    length-append (to_be_bytes 8 n) rest,
    length-to_be_bytes 8 n,
    hh,
    hi,
  )

  crafted_at : Cursor (crafted header iv n rest) 13 (header ++ (iv ++ (to_be_bytes 8 n ++ rest)))
  unfolding crafted to_be_bytes
  crafted_at = record { at = refl; size = omega arith; fits = omega (arith, length-crafted) }

  crafted_prefix :
      (bytes_eq (take 8 (crafted header iv n rest)) magic_v5 ≡ true)
      × (get_or (crafted header iv n rest) 8 0 ≡ 5)
      × (read_be 4 (crafted header iv n rest) 9 ≡ 64)
      × (take 64 (drop 13 (crafted header iv n rest)) ≡ header)
  unfolding crafted to_be_bytes from_be_acc
  crafted_prefix = (refl, refl, refl, take-append 64 header _ hh)

  -- With overflow checks the sum itself panics; without, it wraps to a place in front of the table.
  wrapped :
      2 ^ 64 ≤ 117 + n
      → n < 2 ^ 64
      → (add_u64 checks 117 n ≡ panic)
        ⊎ ((end : ℕ) × (add_u64 checks 117 n ≡ ok end)
            × (ltb (length (crafted header iv n rest)) end ≡ false)
            × (slice (crafted header iv n rest) 117 end ≡ panic))
  unfolding add_u64 slice
  wrapped over fits =
      let big : ltb (117 + n) (2 ^ 64) ≡ false = le→ltb_false (117 + n) (2 ^ 64) over in
      let end = (117 + n) % 2 ^ 64 in
      let low : end < 117 = omega arith in
      let size = length-crafted in
      let inside : ltb (length (crafted header iv n rest)) end ≡ false =
        le→ltb_false (length (crafted header iv n rest)) end (omega arith) in
      elim (Bool-cases checks) [
        | inl on ↦ inl (rw (big, on) refl)
        | inr off ↦ inr (end, rw (big, off) refl, inside, rw (lt→ltb end 117 low) refl)
      ]

  -- A container with a header that is parsed, a synthetic IV of 32 bytes, a table length below 2 ^
  -- 64 that is a multiple of 40 and takes the offset 117 past 2 ^ 64, and 24 to 2 ^ 63 more bytes
  -- makes `decrypt_v5` panic for every password, with overflow checks and without.
  pub decrypt_v5_panics :
      (c : Primitives) (rng : Rng) (fuel : ℕ) (password : Bytes) (parsed : ParsedHeader)
      → parse_public_header header ≡ ok parsed
      → n % 40 ≡ 0
      → 2 ^ 64 ≤ 117 + n
      → n < 2 ^ 64
      → decrypt_v5 c rng fuel checks (crafted header iv n rest) password ≡ panic
  unfolding decrypt_v5 read_parts_total
  decrypt_v5_panics c rng fuel password parsed e aligned over fits =
      let (magic, version, header_len, front) = crafted_prefix in
      let container = crafted header iv n rest in
      let long : ltb (length container) 141 ≡ false =
        le→ltb_false (length container) 141 (omega (arith, length-crafted)) in
      let at_iv : Cursor container 77 (iv ++ (to_be_bytes 8 n ++ rest)) =
        advance header _ 64 crafted_at hh in
      let at_len : Cursor container 109 (to_be_bytes 8 n ++ rest) = advance iv _ 32 at_iv hi in
      let read_iv : read_fixed_32 checks container 77 ≡ ok (iv, 109) =
        read_fixed_32_at checks iv _ at_iv hi in
      let read_n : read_u64_at checks container 109 ≡ ok (n, 117) =
        read_u64_at_at checks n rest at_len fits in
      elim (wrapped over fits) [
        | inl overflow ↦
            rw
              (
                read_parts_lem checks container,
                long,
                magic,
                version,
                header_len,
                front,
                e,
                read_iv,
                read_n,
                aligned,
                overflow,
              )
              refl
        | inr (end, sum, inside, cut) ↦
            rw
              (
                read_parts_lem checks container,
                long,
                magic,
                version,
                header_len,
                front,
                e,
                read_iv,
                read_n,
                aligned,
                sum,
                inside,
                cut,
              )
              refl
      ]
