-- ===== src/InnerV5/Overflow.antt =====
-- A payload length that overflows the end of the payload in `inspect_inner` of
-- crates/krcm-core/src/format_v5.rs.
use krcm_spn.Base.{
  Bool, Bool-cases, Bytes, IsBytes, [], add_u64, any_nonzero, arith, bytes_eq, drop, false, get_or,
  inl, inr, length, le→ltb_false, ltb, ok, panic, read_be, read_be-lt, refl, slice_reversed, take,
  true, ℕ, ◌%◌, ◌+◌, ◌<◌, ◌^◌, ◌∷◌, ◌≡◌, ◌≤◌, ◌⊎◌,
}
use krcm_spn.Constants.{inner_magic}
use krcm_spn.InnerV5.{inspect_inner, unpack_inner}
use krcm_spn.InnerV5.Total.{inspect_inner_lem, inspect_inner_total}
use krcm_spn.Primitives.{Primitives, Rng}

module _ (c : Primitives) (rng : Rng) (checks : Bool) (inner : Bytes) where
  -- The tests in front of the lengths, passed.
  pub record HasFront : Type 0 where
    pub long : 76 ≤ length inner
    pub magic : bytes_eq (take 8 inner) inner_magic ≡ true
    pub version : get_or inner 8 0 ≡ 1
    pub padding : get_or inner 9 0 ≡ 0
    pub reserved : bytes_eq (take 2 (drop 10 inner)) (0 ∷ 0 ∷ []) ≡ true
    pub layout : read_be 2 inner 60 ≡ 1
    pub block : read_be 2 inner 62 ≡ 32
    pub round : read_be 2 inner 64 ≡ 10
    pub rest : any_nonzero (take 10 (drop 66 inner)) ≡ false

  -- With overflow checks the sum itself panics; without, it wraps to a place in front of the payload.
  wrapped :
      (n : ℕ)
      → 2 ^ 64 ≤ 76 + n
      → n < 2 ^ 64
      → (add_u64 checks 76 n ≡ panic) ⊎ ((end : ℕ) × (add_u64 checks 76 n ≡ ok end) × (end < 76))
  unfolding add_u64
  wrapped n over fits =
      let big : ltb (76 + n) (2 ^ 64) ≡ false = le→ltb_false (76 + n) (2 ^ 64) over in
      elim (Bool-cases checks) [
        | inl on ↦ inl (rw (big, on) refl)
        | inr off ↦ inr ((76 + n) % 2 ^ 64, rw (big, off) refl, omega arith)
      ]

  -- An inner plaintext of bytes that passes the tests in front of the lengths, whose stated payload
  -- length takes 76 past 2 ^ 64 and is no smaller than its stated original length, makes
  -- `inspect_inner` and `unpack_inner` panic, with overflow checks and without.
  pub inspect_inner_panics :
      HasFront
      → IsBytes inner
      → 2 ^ 64 ≤ 76 + read_be 8 inner 20
      → read_be 8 inner 12 ≤ read_be 8 inner 20
      → (inspect_inner c rng checks inner ≡ panic) × (unpack_inner c rng checks inner ≡ panic)
  unfolding inspect_inner_total unpack_inner
  inspect_inner_panics front bytes over ordered =
      let n = read_be 8 inner 20 in
      let fits : n < 2 ^ 64 = read_be-lt 8 inner 20 bytes (omega (arith, front.long)) in
      let panics : inspect_inner c rng checks inner ≡ panic = elim (wrapped n over fits) [
        | inl overflow ↦
            rw
              (
                inspect_inner_lem c rng checks inner,
                le→ltb_false (length inner) 76 (front.long),
                front.magic,
                front.version,
                front.padding,
                front.reserved,
                front.layout,
                front.block,
                front.round,
                front.rest,
                overflow,
              )
              refl
        | inr (end, sum, low) ↦
            rw
              (
                inspect_inner_lem c rng checks inner,
                le→ltb_false (length inner) 76 (front.long),
                front.magic,
                front.version,
                front.padding,
                front.reserved,
                front.layout,
                front.block,
                front.round,
                front.rest,
                sum,
                le→ltb_false (length inner) end (omega (arith, front.long)),
                le→ltb_false n (read_be 8 inner 12) ordered,
                slice_reversed inner 76 end low,
              )
              refl
      ] in
      (panics, rw panics refl)
