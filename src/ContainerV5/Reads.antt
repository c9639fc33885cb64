-- ===== src/ContainerV5/Reads.antt =====
-- `read_parts` on containers whose lengths do not overflow, and the sum of the lengths of a table:
-- crates/krcm-core/src/format_v5.rs.
use mathlib.Core.Path.{subst}
use krcm_spn.Base.{
  !=_false→eq, >>=-SettledWith, All-drop, All-take, Bool, Bool-cases, Bytes, IsByte, IsBytes, List,
  Outcome, Settled, SettledWith, [], add_u64_fits, ap, arith, bytes_eq, drop, fail_if-SettledWith,
  format, get_or, index, inl, inr, length, ltb, ltb_false→le, not, ok, read_be, slice,
  slice-SettledWith, slice_in_range, slice_passed, sym, take, ℕ, ◌!=◌, ◌%◌, ◌+◌, ◌-◌, ◌<◌, ◌>>=◌,
  ◌^◌, ◌||◌, ◌∙◌, ◌∷◌, ◌≡◌, ◌≤◌,
}
use krcm_spn.Constants.{magic_v5}
use krcm_spn.ContainerV5.{Parts, plain_length_sum, read_fixed_32, read_parts, read_u64_at}
use krcm_spn.ContainerV5.Total.{read_parts_lem, read_parts_total}
use krcm_spn.HeaderV5.{parse_public_header}
use krcm_spn.HeaderV5.Total.{parse_kdf_total, parse_public_header_lem, parse_public_header_total}
use krcm_spn.Segment.{Contiguous, SegmentEntry}

pub parse_public_header-Settled : (header : Bytes) → Settled (parse_public_header header)
unfolding parse_public_header_total parse_kdf_total
parse_public_header-Settled header =
    let settled : Settled (parse_public_header_total header) = ground arith in
    rw (parse_public_header_lem header) settled

-- What follows a field that is read from an offset far from the largest number.
module _ {ℓ} {W : Type ℓ} (P : W → Type 0) (checks : Bool) (container : Bytes) (offset : ℕ)
    (small : offset < 2 ^ 63) where
  read_fixed_32-SettledWith :
      (next : Bytes × ℕ → Outcome W)
      → ((out : Bytes) → offset + 32 ≤ length container → SettledWith P (next (out, offset + 32)))
      → SettledWith P (read_fixed_32 checks container offset >>= next)
  unfolding read_fixed_32
  read_fixed_32-SettledWith next k = elim (Bool-cases (ltb (length container) (offset + 32))) [
    | inl short ↦ rw (add_u64_fits checks offset 32 (omega arith), short) tt
    | inr long ↦
        let inside = ltb_false→le (length container) (offset + 32) long in
        rw
          (
            add_u64_fits checks offset 32 (omega arith),
            long,
            slice_in_range container offset (offset + 32) (omega arith) inside,
          )
          (k (take (offset + 32 - offset) (drop offset container)) inside)
  ]

  read_u64_at-SettledWith :
      (next : ℕ × ℕ → Outcome W)
      → (offset + 8 ≤ length container
          → SettledWith P (next (read_be 8 container offset, offset + 8)))
      → SettledWith P (read_u64_at checks container offset >>= next)
  unfolding read_u64_at
  read_u64_at-SettledWith next k = elim (Bool-cases (ltb (length container) (offset + 8))) [
    | inl short ↦ rw (add_u64_fits checks offset 8 (omega arith), short) tt
    | inr long ↦
        let inside = ltb_false→le (length container) (offset + 8) long in
        let cut : slice container offset (offset + 8) ≡ ok (take 8 (drop offset container)) =
          slice_in_range container offset (offset + 8) (omega arith) inside
          ∙ ap (λ (n : ℕ). ok (take n (drop offset container))) {x = offset + 8 - offset} {y = 8}
              (omega arith) in
        rw (add_u64_fits checks offset 8 (omega arith), long, cut) (k inside)
  ]

-- The sum of the lengths of a table that was parsed.
pub plain_length_sum-Settled :
    (checks : Bool) (ordinal plain cipher limit : ℕ) (es : List SegmentEntry)
    → Contiguous ordinal plain cipher limit es
    → Settled (plain_length_sum checks plain es)
unfolding plain_length_sum
plain_length_sum-Settled checks ordinal plain cipher limit [] h = tt
plain_length_sum-Settled checks ordinal plain cipher limit (e ∷ es)
      (index, small, at_plain, at_cipher, longer, aligned, plain_fits, cipher_fits, later) =
    rw (add_u64_fits checks plain e.plain_length plain_fits) (
      plain_length_sum-Settled checks (ordinal + 1) (plain + e.plain_length)
        (cipher + e.ciphertext_length) limit es later)

-- The lengths of the table and of the ciphertext in a container do not take the offsets past the
-- end of the machine's numbers.
abbrev pub NoOverflow : Bytes → Type 0
NoOverflow container =
    (117 + read_be 8 container 109 < 2 ^ 64)
    × (157 + read_be 8 container 109 + read_be 8 container (117 + read_be 8 container 109) < 2 ^ 64)

module _ (checks : Bool) (container : Bytes) (small : length container < 2 ^ 63)
    (fits : NoOverflow container) where
  abbrev HasTable : Parts → Type 0
  HasTable parts = IsBytes parts.segment_table

  table-IsBytes :
      (start end : ℕ) {table : Bytes}
      → IsBytes container
      → slice container start end ≡ ok table
      → IsBytes table
  table-IsBytes start end bytes cut =
      let (low, inside, same) = slice_passed container start end cut in
      subst IsBytes (sym same) (
        All-take IsByte (end - start) (drop start container)
          (All-drop IsByte start container bytes))

  pub read_parts-SettledWith :
      IsBytes container → SettledWith HasTable (read_parts checks container)
  unfolding read_parts_total
  read_parts-SettledWith bytes =
      let size = length container in
      let n = read_be 8 container 109 in
      let k = read_be 8 container (117 + n) in
      let header = take 64 (drop 13 container) in
      rw (read_parts_lem checks container) (
        fail_if-SettledWith HasTable (ltb size 141) format _ (λ long.
          fail_if-SettledWith HasTable
            (not (bytes_eq (take 8 container) magic_v5) || (get_or container 8 0 != 5)) format _
            (λ named. fail_if-SettledWith HasTable (read_be 4 container 9 != 64) format _ (λ sized.
              >>=-SettledWith HasTable _ _ (parse_public_header-Settled header) (λ parsed.
                read_fixed_32-SettledWith HasTable checks container 77 (omega arith) _ (λ iv front.
                  read_u64_at-SettledWith HasTable checks container 109 (omega arith) _ (λ front'.
                    fail_if-SettledWith HasTable (n % 40 != 0) format _ (λ whole.
                      rw (add_u64_fits checks 117 n fits.0) (
                        fail_if-SettledWith HasTable (ltb size (117 + n)) format _ (λ outside.
                          let inside = ltb_false→le size (117 + n) outside in
                          slice-SettledWith HasTable container 117 (117 + n) _ (omega arith) inside
                            (λ table cut.
                              read_u64_at-SettledWith HasTable checks container (117 + n)
                                (omega arith) _
                                (λ front''.
                                  rw
                                    (
                                      add_u64_fits checks (117 + n + 8) k (omega (arith, fits.1)),
                                      add_u64_fits checks (117 + n + 8 + k) 32
                                          (omega (arith, fits.1)),
                                    )
                                    (fail_if-SettledWith HasTable (117 + n + 8 + k + 32 != size)
                                      format _
                                      (λ whole'.
                                        let size_lem =
                                          !=_false→eq (117 + n + 8 + k + 32) size whole' in
                                        slice-SettledWith HasTable container (117 + n + 8)
                                          (117 + n + 8 + k) _ (omega arith) (omega arith)
                                          (λ ciphertext cut'.
                                            slice-SettledWith HasTable container (117 + n + 8 + k)
                                              size _ (omega arith) (omega arith)
                                              (λ tag cut''.
                                                table-IsBytes 117 (117 + n) bytes
                                                  cut))))))))))))))))
