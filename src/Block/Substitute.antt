-- ===== src/Block/Substitute.antt =====
-- `pre_substitute` and `post_unsubstitute` of crates/krcm-core/src/block.rs.
use mathlib.Core.Path.{subst}
use native.Mathlib.Nat.{mod-eq_of_lt}
use krcm_spn.Base.{
  >>=-eq-ok, All-get_or, All-tabulate, Bytes, IsArray, IsByte, IsBytes, List, Outcome-ok-injective,
  ap, arith, codes, get_or, get_or-tabulate, get_or_ext, length-tabulate, ok, sym, tabulate, ℕ, ◌%◌,
  ◌+◌, ◌-◌, ◌<◌, ◌∙◌, ◌≡◌,
}
use krcm_spn.Block.{post_unsubstitute, pre_substitute}
use krcm_spn.Permutation.{IsPermutation, inverse_permutation}
use krcm_spn.Permutation.Scatter.{inverse_permutation_lem}
use krcm_spn.Primitives.{Primitives}
use krcm_spn.Sampler.{hkdf_expand_like, permutation_from_seed}
use krcm_spn.Sampler.Expand.{hkdf_expand_like-IsArray}
use krcm_spn.Sampler.Shuffle.{permutation_from_seed-IsPermutation}

module _ (c : Primitives) (fuel : ℕ) where
  unmask : (b m : ℕ) → b < 256 → m < 256 → ((b + m) % 256 % 256 + 256 - m) % 256 ≡ b
  unmask b m hb hm = omega arith

  -- What the substitution writes at each place.
  abbrev substituted : List ℕ → Bytes → Bytes → ℕ → ℕ
  substituted perm block mask i = get_or perm ((get_or block i 0 + get_or mask i 0) % 256) 0 % 256

  substituted-lt :
      (perm block mask : List ℕ) (i : ℕ)
      → IsPermutation 256 perm
      → substituted perm block mask i ≡ get_or perm ((get_or block i 0 + get_or mask i 0) % 256) 0
  substituted-lt perm block mask i p =
      mod-eq_of_lt (p.below ((get_or block i 0 + get_or mask i 0) % 256) (omega arith))

  -- Undoing the substitution at one place.
  unsubstituted :
      (perm block mask : List ℕ) (i : ℕ)
      → IsPermutation 256 perm
      → IsBytes block
      → IsBytes mask
      → i < 32
      → (get_or
                (inverse_permutation perm)
                (get_or (tabulate (substituted perm block mask) 0 32) i 0)
                0
              % 256
            + 256
            - get_or mask i 0)
          % 256
        ≡ get_or block i 0
  unsubstituted perm block mask i p hb hm h =
      let key = (get_or block i 0 + get_or mask i 0) % 256 in
      let placed : get_or (tabulate (substituted perm block mask) 0 32) i 0 ≡ get_or perm key 0 =
        get_or-tabulate (substituted perm block mask) 0 32 i 0 h
        ∙ ap (substituted perm block mask) {x = 0 + i} {y = i} (omega arith)
        ∙ substituted-lt perm block mask i p in
      rw (placed, (inverse_permutation_lem 256 perm p key (omega arith)).1)
        (unmask (get_or block i 0) (get_or mask i 0) (All-get_or IsByte block i 0 (omega arith) hb)
          (All-get_or IsByte mask i 0 (omega arith) hm))

  post_unsubstitute_lem :
      (perm block seed : Bytes)
      → IsArray 32 block
      → permutation_from_seed c fuel seed ≡ ok perm
      → post_unsubstitute c fuel
          (tabulate (substituted perm block (hkdf_expand_like c seed (codes "mask") 32)) 0 32)
          seed
        ≡ ok block
  unfolding post_unsubstitute
  post_unsubstitute_lem perm block seed h found =
      let mask = hkdf_expand_like c seed (codes "mask") 32 in
      let mask_bytes : IsBytes mask = (hkdf_expand_like-IsArray c seed (codes "mask") 32).1 in
      let p = permutation_from_seed-IsPermutation c fuel seed found in
      let place = λ (i : ℕ).
        (get_or (inverse_permutation perm)
              (get_or (tabulate (substituted perm block mask) 0 32) i 0) 0
            % 256
          + 256
          - get_or mask i 0)
        % 256 in
      rw found (
        ap ok (
          get_or_ext 0 (tabulate place 0 32) block (length-tabulate place 0 32 ∙ sym h.0) (λ i k.
            let inside : i < 32 = omega (arith, h.0) in
            get_or-tabulate place 0 32 i 0 inside
            ∙ ap place {x = 0 + i} {y = i} (omega arith)
            ∙ unsubstituted perm block mask i p h.1 mask_bytes inside)))

  -- The substitution of a block is a block, and is undone with the same seed.
  pub post_unsubstitute-pre_substitute :
      (block seed : Bytes) {out : Bytes}
      → IsArray 32 block
      → pre_substitute c fuel block seed ≡ ok out
      → IsArray 32 out × (post_unsubstitute c fuel out seed ≡ ok block)
  unfolding pre_substitute
  post_unsubstitute-pre_substitute block seed {out} h e =
      let mask = hkdf_expand_like c seed (codes "mask") 32 in
      let (perm, found, made) =
        >>=-eq-ok (permutation_from_seed c fuel seed)
          (λ (perm : List ℕ). ok (tabulate (substituted perm block mask) 0 32)) e in
      subst (λ (o : Bytes). IsArray 32 o × (post_unsubstitute c fuel o seed ≡ ok block))
        (Outcome-ok-injective made)
        (
          (
            length-tabulate (substituted perm block mask) 0 32,
            All-tabulate (substituted perm block mask) IsByte 0 32 (λ i k. omega arith),
          ),
          post_unsubstitute_lem perm block seed h found,
        )
