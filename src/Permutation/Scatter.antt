-- ===== src/Permutation/Scatter.antt =====
-- Scattering along a permutation, and the two moves of a block, of crates/krcm-core/src/block.rs.
use native.Mathlib.Decide.{dec_lt}
use krcm_spn.Base.{
  All-get_or, All-tabulate, Bytes, IsArray, IsByte, IsBytes, List, ap, arith, get_or, get_or-set_ne,
  get_or-set_self, get_or-tabulate, get_or_ext, length, length-replicate, length-set,
  length-tabulate, loop_up, loop_up_inv, refl, replicate, set, suc, sym, zero, ℕ, ◌+◌, ◌<◌, ◌∙◌,
  ◌≡◌, ◌≤◌,
}
use krcm_spn.Padding.{last}
use krcm_spn.Permutation.{
  IsPermutation, apply_position_permutation, inverse_permutation, invert_position_permutation,
  scatter,
}

-- The write of one round.
abbrev write : (ℕ → ℕ) → List ℕ → ℕ → List ℕ → List ℕ
write g perm i o = set o (get_or perm i 0) (g i)

pub length-scatter : (g : ℕ → ℕ) (perm out : List ℕ) → length (scatter g perm out) ≡ length out
unfolding scatter
length-scatter g perm out =
    loop_up_inv (λ o. length o ≡ length out) (write g perm) 0 (length perm) out
      (λ i o h e. length-set o (get_or perm (0 + i) 0) (g (0 + i)) ∙ e) refl

module _ (n : ℕ) (g : ℕ → ℕ) (perm : List ℕ) (p : IsPermutation n perm) where
  -- Round `k` writes its own target and leaves the targets of the rounds before.
  write_target :
      (k j : ℕ) (o : List ℕ)
      → k < n
      → length o ≡ n
      → j < suc k
      → (j < k → get_or o (get_or perm j 0) 0 ≡ g j)
      → get_or (write g perm k o) (get_or perm j 0) 0 ≡ g j
  write_target k j o hk e hj before = elim (dec_lt j k) [
    | yes earlier ↦
        get_or-set_ne o (get_or perm k 0) (get_or perm j 0) (g k) 0 (λ same.
          absurd (
            omega (arith, ap p.source same, p.source-get_or k hk, p.source-get_or j (omega arith))))
        ∙ before earlier
    | no last ↦
        let same : j ≡ k = omega arith in
        rw same (get_or-set_self o (get_or perm k 0) (g k) 0 (rw e (p.below k hk)))
  ]

  -- After `k` rounds the first `k` targets hold what was written to them.
  scatter_upto :
      (k j : ℕ) (out : List ℕ)
      → k ≤ n
      → length out ≡ n
      → j < k
      → get_or (loop_up (write g perm) 0 k out) (get_or perm j 0) 0 ≡ g j
  unfolding loop_up
  scatter_upto zero j out h e l = elim l [ ]
  scatter_upto (suc k) j out h e l =
      let o = loop_up (write g perm) 0 k out in
      let size : length o ≡ n =
        loop_up_inv (λ o. length o ≡ n) (write g perm) 0 k out
          (λ i o h e. length-set o (get_or perm (0 + i) 0) (g (0 + i)) ∙ e) e in
      let start : 0 + k ≡ k = omega arith in
      rw start
        (write_target k j o (omega arith) size l (λ m. scatter_upto k j out (omega arith) e m))

  -- The place `v` holds what the round of its source wrote.
  pub get_or-scatter :
      (out : List ℕ) (v : ℕ)
      → length out ≡ n
      → v < n
      → get_or (scatter g perm out) v 0 ≡ g (p.source v)
  unfolding scatter
  get_or-scatter out v e h =
      ap (λ (t : ℕ). get_or (scatter g perm out) t 0) (sym (p.get_or-source v h))
      ∙ scatter_upto (length perm) (p.source v) out (omega (arith, p.size)) e
          (rw (p.size) (p.source_below v h))

pub get_or-inverse_permutation :
    (n : ℕ) (perm : List ℕ) (p : IsPermutation n perm) (v : ℕ)
    → v < n
    → get_or (inverse_permutation perm) v 0 ≡ p.source v
unfolding inverse_permutation
get_or-inverse_permutation n perm p v h =
    get_or-scatter n (λ i. i) perm p (replicate (length perm) 0) v
      (length-replicate (length perm) 0 ∙ p.size) h

-- For a permutation of 0, ..., n - 1 and `v` below `n`: looking `v` up in `inverse_permutation` and
-- the result in the permutation, or the other way round, gives `v`.
pub inverse_permutation_lem :
    (n : ℕ) (perm : List ℕ)
    → IsPermutation n perm
    → (v : ℕ) → v < n
    → (get_or perm (get_or (inverse_permutation perm) v 0) 0 ≡ v)
      × (get_or (inverse_permutation perm) (get_or perm v 0) 0 ≡ v)
inverse_permutation_lem n perm p v h = (
  ap (λ (t : ℕ). get_or perm t 0) (get_or-inverse_permutation n perm p v h) ∙ p.get_or-source v h,
  get_or-inverse_permutation n perm p (get_or perm v 0) (p.below v h) ∙ p.source-get_or v h,
)

-- For a permutation of 0, ..., 31 and a block of 32 bytes, the inverse move undoes the move.
pub invert-apply_position_permutation :
    (block : Bytes) (perm : List ℕ)
    → IsPermutation 32 perm
    → length block ≡ 32
    → invert_position_permutation (apply_position_permutation block perm) perm ≡ block
unfolding invert_position_permutation apply_position_permutation
invert-apply_position_permutation block perm p e =
    get_or_ext 0 (invert_position_permutation moved perm) block
      (length-scatter (λ i. get_or moved i 0) perm (replicate 32 0) ∙ sym e)
      (λ v h.
        let inside : v < 32 = omega arith in
        get_or-scatter 32 (λ i. get_or moved i 0) perm p (replicate 32 0) v refl inside
        ∙ get_or-tabulate (λ i. get_or block (get_or perm i 0) 0) 0 32 (p.source v) 0
            (p.source_below v inside)
        ∙ ap (λ (t : ℕ). get_or block (get_or perm t 0) 0) {x = 0 + p.source v} {y = p.source v}
            (omega arith)
        ∙ ap (λ (t : ℕ). get_or block t 0) (p.get_or-source v inside))
  where
    moved : Bytes
    moved = apply_position_permutation block perm

pub apply_position_permutation-IsArray :
    (block : Bytes) (perm : List ℕ)
    → IsBytes block
    → IsArray 32 (apply_position_permutation block perm)
unfolding apply_position_permutation
apply_position_permutation-IsArray block perm h = (
  length-tabulate (λ i. get_or block (get_or perm i 0) 0) 0 32,
  All-tabulate (λ i. get_or block (get_or perm i 0) 0) IsByte 0 32
      (λ i k. All-get_or IsByte block (get_or perm (0 + i) 0) 0 (omega arith) h),
)
