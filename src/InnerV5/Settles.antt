-- ===== src/InnerV5/Settles.antt =====
-- `inspect_inner` and `unpack_inner` of crates/krcm-core/src/format_v5.rs on any inner plaintext in
-- which the end of the payload does not overflow.

use mathlib.Core.Path.{subst}
use krcm_spn.Base.{
  >>=-Settled_at, >>=-eq-ok, Bool, Bytes, Outcome, Outcome-ok-injective, Settled, [], add_u64,
  add_u64_fits, any_nonzero, ap, arith, authentication, bytes_eq, drop, fail_if, fail_if-Settled,
  fail_if_passed, false, get_or, length, length-drop, length-take, ltb, not, ok, ok-Settled,
  read_be, refl, slice, slice-Settled, slice_in_range, slice_prefix, sym, take, ℕ, ◌!=◌, ◌+◌, ◌-◌,
  ◌<◌, ◌>>=◌, ◌>>◌, ◌^◌, ◌||◌, ◌∙◌, ◌∷◌, ◌≡◌, ◌≤◌,
}
use krcm_spn.Constants.{inner_magic}
use krcm_spn.InnerV5.{InnerInfo, inspect_inner, unpack_inner}
use krcm_spn.InnerV5.Total.{inspect_inner_lem, inspect_inner_total}
use krcm_spn.Primitives.{Primitives, Rng}

-- The test on the lengths.
bounds_lem :
    (size end payload_length original_length : ℕ)
    → (ltb size end || ltb payload_length original_length) ≡ false
    → (end ≤ size) × (original_length ≤ payload_length)
bounds_lem size end payload_length original_length h = ground arith

module _ (c : Primitives) (rng : Rng) (checks : Bool) (inner : Bytes)
    (fits : 76 + read_be 8 inner 20 < 2 ^ 64) where
  -- What `inspect_inner` does from the lengths on, in words of the lengths.
  abbrev inspected : Outcome InnerInfo
  inspected = do
    payload_end ← add_u64 checks 76 (read_be 8 inner 20)
    fail_if (ltb (length inner) payload_end || ltb (read_be 8 inner 20) (read_be 8 inner 12))
        authentication
    payload ← slice inner 76 payload_end
    fail_if (not (c.ct_eq (take 32 (drop 28 inner)) (c.sha256 payload))) authentication
    ok (record { original_length = read_be 8 inner 12; payload_length = read_be 8 inner 20 })

  inspected-Settled : Settled inspected
  inspected-Settled =
      let n = read_be 8 inner 20 in
      rw (add_u64_fits checks 76 n fits) (
        fail_if-Settled (ltb (length inner) (76 + n) || ltb n (read_be 8 inner 12)) authentication _
          (λ tested.
            let (inside, shorter) =
              bounds_lem (length inner) (76 + n) n (read_be 8 inner 12) tested in
            slice-Settled inner 76 (76 + n) _ (omega arith) inside (λ payload cut.
              fail_if-Settled (not (c.ct_eq (take 32 (drop 28 inner)) (c.sha256 payload)))
                authentication _ (λ same. tt))))

  abbrev front_test : Bool
  front_test =
      ltb (length inner) 76 || not (bytes_eq (take 8 inner) inner_magic) || (get_or inner 8 0 != 1)

  abbrev fixed_test : Bool
  fixed_test =
      (get_or inner 9 0 != 0)
      || not (bytes_eq (take 2 (drop 10 inner)) (0 ∷ 0 ∷ []))
      || (read_be 2 inner 60 != 1)
      || (read_be 2 inner 62 != 32)
      || (read_be 2 inner 64 != 10)
      || any_nonzero (take 10 (drop 66 inner))

  pub inspect_inner-Settled : Settled (inspect_inner c rng checks inner)
  unfolding inspect_inner_total
  inspect_inner-Settled = rw (inspect_inner_lem c rng checks inner) (
      fail_if-Settled front_test authentication _
        (λ front. fail_if-Settled fixed_test authentication _ (λ fixed. inspected-Settled)))

  -- The lengths that `inspect_inner` gives lie within the inner plaintext.
  inspected-bounds :
      {lengths : InnerInfo}
      → inspect_inner c rng checks inner ≡ ok lengths
      → (lengths.payload_length ≡ read_be 8 inner 20)
        × (lengths.original_length ≤ lengths.payload_length)
        × (76 + lengths.payload_length ≤ length inner)
  unfolding inspect_inner_total
  inspected-bounds {lengths} e0 =
      let e = sym (inspect_inner_lem c rng checks inner) ∙ e0 in
      let n = read_be 8 inner 20 in
      let k = read_be 8 inner 12 in
      let lengths0 : InnerInfo = record { original_length = k; payload_length = n } in
      let differs =
        λ (payload : Bytes). not (c.ct_eq (take 32 (drop 28 inner)) (c.sha256 payload)) in
      let last = λ (payload : Bytes).
        let r : Outcome InnerInfo = fail_if (differs payload) authentication >> ok lengths0 in r in
      let cut = slice inner 76 (76 + n) >>= last in
      let bound = ltb (length inner) (76 + n) || ltb n k in
      let sum = λ (end : ℕ).
        fail_if (ltb (length inner) end || ltb n k) authentication
        >> (slice inner 76 end >>= last) in
      let (t1, e1) =
        fail_if_passed front_test authentication (fail_if fixed_test authentication >> inspected)
          e in
      let (t2, e2) = fail_if_passed fixed_test authentication inspected e1 in
      let e3 : (fail_if bound authentication >> cut) ≡ ok lengths =
        ap (λ (r : Outcome ℕ). r >>= sum) (sym (add_u64_fits checks 76 n fits)) ∙ e2 in
      let (t3, e4) = fail_if_passed bound authentication cut e3 in
      let (payload, sliced, e5) = >>=-eq-ok (slice inner 76 (76 + n)) last e4 in
      let (t4, e6) = fail_if_passed (differs payload) authentication (ok lengths0) e5 in
      let same : lengths0 ≡ lengths = Outcome-ok-injective {a = lengths0} {b = lengths} e6 in
      let (inside, shorter) = bounds_lem (length inner) (76 + n) n k t3 in
      subst
        (λ (i : InnerInfo).
          (i.payload_length ≡ n)
          × (i.original_length ≤ i.payload_length)
          × (76 + i.payload_length ≤ length inner))
        same (refl, shorter, inside)

  pub unpack_inner-Settled : Settled (unpack_inner c rng checks inner)
  unfolding unpack_inner
  unpack_inner-Settled =
      >>=-Settled_at (inspect_inner c rng checks inner) _ inspect_inner-Settled (λ lengths e.
        let (stated, shorter, inside) = inspected-bounds e in
        let end = 76 + lengths.payload_length in
        rw (add_u64_fits checks 76 lengths.payload_length (omega (arith, stated, fits))) (
          rw (slice_in_range inner 76 end (omega arith) inside) (
            let payload = take (end - 76) (drop 76 inner) in
            let size : length payload ≡ lengths.payload_length =
              omega (arith, length-take (end - 76) (drop 76 inner), length-drop 76 inner) in
            ok-Settled (slice payload 0 lengths.original_length)
              (slice_prefix payload lengths.original_length (omega arith)))))
