-- ===== src/InnerV5/Sound.antt =====
-- What `unpack_inner` of crates/krcm-core/src/format_v5.rs has compared before it returns a payload.
use krcm_spn.Base.{
  >>=-eq-ok, Bool, Bytes, Outcome, Outcome-ok-injective, [], add_u64, any_nonzero, ap, arith,
  authentication, bytes_eq, drop, fail_if, fail_if_passed, get_or, length, ltb, not, not-false, ok,
  read_be, slice, slice_passed, sym, take, ℕ, ◌!=◌, ◌-◌, ◌>>=◌, ◌>>◌, ◌||◌, ◌∙◌, ◌∷◌, ◌≡◌, ◌≤◌,
}
use krcm_spn.Constants.{inner_magic}
use krcm_spn.InnerV5.{InnerInfo, inspect_inner, unpack_inner}
use krcm_spn.InnerV5.Total.{inspect_inner_lem, inspect_inner_total}
use krcm_spn.Primitives.{Primitives, Rng}

module _ (c : Primitives) (rng : Rng) (checks : Bool) where
  inspect_inner_sound :
      (inner : Bytes) {lengths : InnerInfo}
      → inspect_inner c rng checks inner ≡ ok lengths
      → (payload : Bytes) × (take 32 (drop 28 inner) ≡ c.sha256 payload)
        × ((end : ℕ) × (add_u64 checks 76 lengths.payload_length ≡ ok end)
            × (slice inner 76 end ≡ ok payload))
  unfolding inspect_inner_total
  inspect_inner_sound inner {lengths} e0 =
      let e = sym (inspect_inner_lem c rng checks inner) ∙ e0 in
      let original_length = read_be 8 inner 12 in
      let payload_length = read_be 8 inner 20 in
      let lengths0 : InnerInfo = record {
        original_length = original_length;
        payload_length = payload_length;
      } in
      let last = λ (payload : Bytes).
        let r : Outcome InnerInfo =
          fail_if (not (c.ct_eq (take 32 (drop 28 inner)) (c.sha256 payload))) authentication
          >> ok lengths0 in
        r in
      let cut = λ (end : ℕ). slice inner 76 end >>= last in
      let bound = λ (end : ℕ). ltb (length inner) end || ltb payload_length original_length in
      let sum = λ (end : ℕ). fail_if (bound end) authentication >> cut end in
      let rest1 = add_u64 checks 76 payload_length >>= sum in
      let test1 =
        ltb (length inner) 76
        || not (bytes_eq (take 8 inner) inner_magic)
        || (get_or inner 8 0 != 1) in
      let test2 =
        (get_or inner 9 0 != 0)
        || not (bytes_eq (take 2 (drop 10 inner)) (0 ∷ 0 ∷ []))
        || (read_be 2 inner 60 != 1)
        || (read_be 2 inner 62 != 32)
        || (read_be 2 inner 64 != 10)
        || any_nonzero (take 10 (drop 66 inner)) in
      let (t1, e1) =
        fail_if_passed test1 authentication (fail_if test2 authentication >> rest1) e in
      let (t2, e2) = fail_if_passed test2 authentication rest1 e1 in
      let (end, added, e3) = >>=-eq-ok (add_u64 checks 76 payload_length) sum e2 in
      let (t3, e4) = fail_if_passed (bound end) authentication (cut end) e3 in
      let (payload, sliced, e5) = >>=-eq-ok (slice inner 76 end) last e4 in
      let differs = not (c.ct_eq (take 32 (drop 28 inner)) (c.sha256 payload)) in
      let (t4, e6) = fail_if_passed differs authentication (ok lengths0) e5 in
      let same : lengths0 ≡ lengths = Outcome-ok-injective e6 in
      let equal = not-false (c.ct_eq (take 32 (drop 28 inner)) (c.sha256 payload)) t4 in
      (
        payload,
        (c.ct_eq_iff (take 32 (drop 28 inner)) (c.sha256 payload)).0 equal,
        (
          end,
          ap (λ (t : InnerInfo). add_u64 checks 76 t.payload_length) (sym same) ∙ added,
          sliced,
        ),
      )

  -- What `unpack_inner` returns is a prefix of a payload that stands in the inner plaintext from
  -- byte 76 on and whose SHA-256 digest is the one in bytes 28 to 60.
  pub unpack_inner_sound :
      (inner : Bytes) {output : Bytes}
      → unpack_inner c rng checks inner ≡ ok output
      → (payload : Bytes) × (take 32 (drop 28 inner) ≡ c.sha256 payload)
        × ((end : ℕ) × (slice inner 76 end ≡ ok payload))
        × ((n : ℕ) × (n ≤ length payload) × (output ≡ take n payload))
  unfolding unpack_inner
  unpack_inner_sound inner {output} e =
      let cut =
        λ (lengths : InnerInfo) (payload : Bytes). slice payload 0 lengths.original_length in
      let sum = λ (lengths : InnerInfo) (end : ℕ). slice inner 76 end >>= cut lengths in
      let rest =
        λ (lengths : InnerInfo). add_u64 checks 76 lengths.payload_length >>= sum lengths in
      let (lengths, inspected, e1) = >>=-eq-ok (inspect_inner c rng checks inner) rest e in
      let (end, added, e2) =
        >>=-eq-ok (add_u64 checks 76 lengths.payload_length) (sum lengths) e1 in
      let (payload, sliced, e3) = >>=-eq-ok (slice inner 76 end) (cut lengths) e2 in
      let (found, hashed, (end', added', sliced')) = inspect_inner_sound inner inspected in
      let same_end : end ≡ end' = Outcome-ok-injective (sym added ∙ added') in
      let same : found ≡ payload =
        Outcome-ok-injective
          (sym sliced' ∙ ap (λ (k : ℕ). slice inner 76 k) (sym same_end) ∙ sliced) in
      let (low, inside, prefix) = slice_passed payload 0 lengths.original_length e3 in
      (
        payload,
        hashed ∙ ap c.sha256 same,
        (end, sliced),
        (lengths.original_length - 0, omega arith, prefix),
      )
