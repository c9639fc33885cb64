-- ===== src/InnerV5/Total.antt =====
-- `inspect_inner` of crates/krcm-core/src/format_v5.rs, its fixed reads without a panic.
use krcm_spn.Base.{
  Bool, Bool-cases, Bytes, Outcome, [], add_u64, any_nonzero, ap, arith, authentication, bytes_eq,
  drop, fail_if, get_or, index_in_range, inl, inr, length, ltb, ltb_false→le, not, ok, read_be,
  refl, six_guards, slice, slice_in_range, take, three_guards, ℕ, ◌!=◌, ◌>>=◌, ◌>>◌, ◌||◌, ◌∙◌, ◌∷◌,
  ◌≡◌,
}
use krcm_spn.Constants.{block_bytes, inner_header_bytes, inner_magic, rounds}
use krcm_spn.InnerV5.{InnerInfo, inspect_inner}
use krcm_spn.Primitives.{Primitives, Rng}

module _ (c : Primitives) (rng : Rng) (checks : Bool) where
  unfoldable pub inspect_inner_total : Bytes → Outcome InnerInfo
  inspect_inner_total inner = do
    fail_if
        (ltb (length inner) inner_header_bytes
          || not (bytes_eq (take 8 inner) inner_magic)
          || (get_or inner 8 0 != 1))
        authentication
    fail_if
        ((get_or inner 9 0 != 0)
          || not (bytes_eq (take 2 (drop 10 inner)) (0 ∷ 0 ∷ []))
          || (read_be 2 inner 60 != 1)
          || (read_be 2 inner 62 != block_bytes)
          || (read_be 2 inner 64 != rounds)
          || any_nonzero (take 10 (drop 66 inner)))
        authentication
    let original_length = read_be 8 inner 12
    let payload_length = read_be 8 inner 20
    payload_end ← add_u64 checks inner_header_bytes payload_length
    fail_if (ltb (length inner) payload_end || ltb payload_length original_length) authentication
    payload ← slice inner inner_header_bytes payload_end
    fail_if (not (c.ct_eq (take 32 (drop 28 inner)) (c.sha256 payload))) authentication
    ok (record { original_length = original_length; payload_length = payload_length })

  -- The length is compared before anything is read, so the fixed reads do not panic.
  pub inspect_inner_lem :
      (inner : Bytes) → inspect_inner c rng checks inner ≡ inspect_inner_total inner
  unfolding inspect_inner inspect_inner_total
  inspect_inner_lem inner = elim (Bool-cases (ltb (length inner) 76)) [
    | inl short ↦ rw short refl
    | inr long ↦
        let size = ltb_false→le (length inner) 76 long in
        let named = not (bytes_eq (take 8 inner) inner_magic) in
        let version = get_or inner 8 0 != 1 in
        let flags = get_or inner 9 0 != 0 in
        let reserved = not (bytes_eq (take 2 (drop 10 inner)) (0 ∷ 0 ∷ [])) in
        let cipher = read_be 2 inner 60 != 1 in
        let stated_block = read_be 2 inner 62 != 32 in
        let stated_rounds = read_be 2 inner 64 != 10 in
        let zeros = any_nonzero (take 10 (drop 66 inner)) in
        let k = read_be 8 inner 12 in
        let n = read_be 8 inner 20 in
        let lengths : InnerInfo = record { original_length = k; payload_length = n } in
        let last = λ (payload : Bytes).
          let r : Outcome InnerInfo =
            fail_if (not (c.ct_eq (take 32 (drop 28 inner)) (c.sha256 payload))) authentication
            >> ok lengths in
          r in
        let sum = λ (end : ℕ).
          fail_if (ltb (length inner) end || ltb n k) authentication
          >> (slice inner 76 end >>= last) in
        let rest = add_u64 checks 76 n >>= sum in
        rw
          (
            index_in_range inner 8 (omega arith),
            index_in_range inner 9 (omega arith),
            slice_in_range inner 0 8 (omega arith) (omega arith),
            slice_in_range inner 10 12 (omega arith) (omega arith),
            slice_in_range inner 60 62 (omega arith) (omega arith),
            slice_in_range inner 62 64 (omega arith) (omega arith),
            slice_in_range inner 64 66 (omega arith) (omega arith),
            slice_in_range inner 66 76 (omega arith) (omega arith),
            slice_in_range inner 12 20 (omega arith) (omega arith),
            slice_in_range inner 20 28 (omega arith) (omega arith),
            slice_in_range inner 28 60 (omega arith) (omega arith),
          )
          (three_guards (ltb (length inner) 76) named version authentication (
              fail_if flags authentication
              >> (fail_if reserved authentication
                  >> (fail_if cipher authentication
                      >> (fail_if stated_block authentication
                          >> (fail_if stated_rounds authentication
                              >> (fail_if zeros authentication >> rest))))))
            ∙ ap
                (λ (t : Outcome InnerInfo).
                  fail_if (ltb (length inner) 76 || named || version) authentication >> t)
                (six_guards flags reserved cipher stated_block stated_rounds zeros authentication
                  rest))
  ]
