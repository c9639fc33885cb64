-- ===== src/Sampler/Stream.antt =====
-- The stream of crates/krcm-core/src/block.rs, extended 64 bytes at a time, as a function of the
-- index of the word drawn.
use krcm_spn.Base.{
  Bool-cases, Bytes, [], ap, ap₂, arith, drop, drop-append, drop-drop, from_be_bytes, if◌then◌else◌,
  inl, inr, length, length-append, ltb, ltb_false→le, ltb→lt, read_u64_be, refl, suc, sym, take,
  to_be_bytes, zero, ℕ, ◌%◌, ◌*◌, ◌++◌, ◌+◌, ◌/◌, ◌^◌, ◌∙◌, ◌≡◌,
}
use krcm_spn.Primitives.{Primitives}
use krcm_spn.Sampler.{Drawn, fresh, hkdf_expand_64, take_u64}
use krcm_spn.Sampler.Expand.{hkdf_expand_64-IsArray}

module _ (c : Primitives) (seed label : Bytes) where
  -- The 64 bytes appended when the stream is `64 * b` bytes long.
  unfoldable pub chunk : ℕ → Bytes
  chunk b = hkdf_expand_64 c seed (label ++ to_be_bytes 4 (64 * b % 2 ^ 32))

  unfoldable pub chunks : ℕ → Bytes
  chunks zero = []
  chunks (suc b) = chunks b ++ chunk b

  -- The word of draw number `n`.
  unfoldable pub word : ℕ → ℕ
  word n = read_u64_be (chunk (n / 8)) (8 * (n % 8))

  pub length-chunks : (b : ℕ) → length (chunks b) ≡ 64 * b
  unfolding chunks chunk
  length-chunks zero = refl
  length-chunks (suc b) = omega (
    arith,
    length-append (chunks b) (chunk b),
    length-chunks b,
    (hkdf_expand_64-IsArray c seed (label ++ to_be_bytes 4 (64 * b % 2 ^ 32))).0,
  )

  -- The state before draw number `n`.
  pub record At (n : ℕ) (d : Drawn) : Type 0 where
    pub used : d.cursor ≡ 8 * n
    pub drawn : d.stream ≡ chunks ((n + 7) / 8)

  pub fresh-At : At 0 fresh
  unfolding chunks
  fresh-At = record { used = refl; drawn = refl }

  -- The stream after the refill of a draw.
  refilled :
      (n : ℕ) (d : Drawn)
      → At n d
      → (if ltb (length d.stream) (d.cursor + 8)
          then d.stream ++ hkdf_expand_64 c seed (label ++ to_be_bytes 4 (length d.stream % 2 ^ 32))
          else d.stream)
        ≡ chunks (suc (n / 8))
  unfolding chunks chunk
  refilled n d a =
      let size : length d.stream ≡ 64 * ((n + 7) / 8) =
        ap length a.drawn ∙ length-chunks ((n + 7) / 8) in
      elim (Bool-cases (ltb (length d.stream) (d.cursor + 8))) [
        | inl short ↦
            let here : (n + 7) / 8 ≡ n / 8 = omega (arith, size, a.used, ltb→lt _ _ short) in
            rw short (
              ap₂
                (λ (front : Bytes) (k : ℕ).
                  front ++ hkdf_expand_64 c seed (label ++ to_be_bytes 4 (k % 2 ^ 32)))
                (a.drawn ∙ ap chunks here) (size ∙ ap (λ (t : ℕ). 64 * t) here))
        | inr enough ↦
            let here : (n + 7) / 8 ≡ suc (n / 8) =
              omega (arith, size, a.used, ltb_false→le _ _ enough) in
            rw enough (a.drawn ∙ ap chunks here)
      ]

  read_word : (n : ℕ) → read_u64_be (chunks (suc (n / 8))) (8 * n) ≡ word n
  unfolding chunks word
  read_word n =
      ap (λ (t : Bytes). from_be_bytes (take 8 t))
        (ap (λ (k : ℕ). drop k (chunks (n / 8) ++ chunk (n / 8))) {x = 8 * n}
            {y = 64 * (n / 8) + 8 * (n % 8)} (omega arith)
          ∙ sym (drop-drop (8 * (n % 8)) (64 * (n / 8)) (chunks (n / 8) ++ chunk (n / 8)))
          ∙ ap (drop (8 * (n % 8)))
              (drop-append (64 * (n / 8)) (chunks (n / 8)) (chunk (n / 8)) (length-chunks (n / 8))))

  -- In the state before draw number `n`, `take_u64` gives word number `n` of the stream, which
  -- depends on the seed, the label and `n` only, and leaves the state before the next draw.
  pub take_u64_lem :
      (n : ℕ) (d : Drawn)
      → At n d
      → ((take_u64 c seed label d).0 ≡ word n) × At (suc n) (take_u64 c seed label d).1
  unfolding take_u64
  take_u64_lem n d a = (
    ap₂ read_u64_be (refilled n d a) a.used ∙ read_word n,
    record {
      used = omega (arith, a.used);
      drawn = refilled n d a ∙ ap chunks {x = suc (n / 8)} {y = (suc n + 7) / 8} (omega arith);
    },
  )
