-- ===== src/Permutation/Swap.antt =====
-- The identity and `swap` of crates/krcm-core/src/block.rs as permutations.
use krcm_spn.Base.{
  List, ap, arith, get_or, get_or-set_ne, get_or-set_self, get_or-tabulate, if◌then◌else◌, length,
  length-set, length-tabulate, set, tabulate, ℕ, ◌<◌, ◌==◌, ◌∙◌, ◌≡◌,
}
use krcm_spn.Permutation.{IsPermutation, swap}

abbrev pub identity_values : ℕ → List ℕ
identity_values n = tabulate (λ i. i) 0 n

pub identity-IsPermutation : (n : ℕ) → IsPermutation n (tabulate (λ i. i) 0 n)
identity-IsPermutation n = record {
  size = length-tabulate (λ i. i) 0 n;
  below = λ i h. omega (arith, get_or-tabulate (λ i. i) 0 n i 0 h);
  source = λ v. v;
  source_below = λ v h. h;
  source-get_or = λ i h. omega (arith, get_or-tabulate (λ i. i) 0 n i 0 h);
  get_or-source = λ v h. omega (arith, get_or-tabulate (λ i. i) 0 n v 0 h);
}

-- The exchange of `i` and `j`.
exchange : ℕ → ℕ → ℕ → ℕ
exchange i j k = if k == j then i else if k == i then j else k

exchange_twice : (i j k : ℕ) → exchange i j (exchange i j k) ≡ k
unfolding exchange
exchange_twice i j k = ground arith

exchange-lt : (n i j k : ℕ) → i < n → j < n → k < n → exchange i j k < n
unfolding exchange
exchange-lt n i j k hi hj hk = ground arith

get_or-swap :
    (values : List ℕ) (i j k : ℕ)
    → i < length values
    → j < length values
    → get_or (swap values i j) k 0 ≡ get_or values (exchange i j k) 0
unfolding swap exchange
get_or-swap values i j k hi hj =
    let x = get_or values j 0 in
    let y = get_or values i 0 in
    ground (
      arith,
      get_or-set_self (set values i x) j y 0,
      get_or-set_ne (set values i x) j k y 0,
      get_or-set_self values i x 0,
      get_or-set_ne values i k x 0,
      length-set values i x,
    )

pub swap-IsPermutation :
    (n : ℕ) (values : List ℕ) (i j : ℕ)
    → i < n
    → j < n
    → IsPermutation n values
    → IsPermutation n (swap values i j)
swap-IsPermutation n values i j hi hj p =
    let at = λ (k : ℕ). get_or-swap values i j k (rw (p.size) hi) (rw (p.size) hj) in
    record {
      size = unfold swap in (length-set (set values i _) j _ ∙ length-set values i _ ∙ p.size);
      below = λ k h. rw (at k) (p.below (exchange i j k) (exchange-lt n i j k hi hj h));
      source = λ v. exchange i j (p.source v);
      source_below = λ v h. exchange-lt n i j (p.source v) hi hj (p.source_below v h);
      source-get_or = λ k h.
          ap (λ t. exchange i j (p.source t)) (at k)
          ∙ ap (exchange i j) (p.source-get_or (exchange i j k) (exchange-lt n i j k hi hj h))
          ∙ exchange_twice i j k;
      get_or-source = λ v h.
          at (exchange i j (p.source v))
          ∙ ap (λ (t : ℕ). get_or values t 0) (exchange_twice i j (p.source v))
          ∙ p.get_or-source v h;
    }
