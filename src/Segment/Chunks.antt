-- ===== src/Segment/Chunks.antt =====
-- `chunks` of a slice, as crates/krcm-core/src/format_v5.rs cuts the inner plaintext.
use krcm_spn.Base.{
  All, All-drop, All-take, Bytes, IsByte, IsBytes, List, [], ap, arith, drop, length, length-drop,
  refl, suc, take, take-append-drop, zero, ℕ, ◌++◌, ◌∙◌, ◌∷◌, ◌≡◌, ◌≤◌,
}
use krcm_spn.Segment.Cipher.{chunks_of}

abbrev pub concat : List Bytes → Bytes
concat [] = []
concat (p ∷ ps) = p ++ concat ps

-- Put together again the chunks are the input.
pub concat-chunks_of :
    (n size : ℕ) (bytes : Bytes)
    → 1 ≤ size
    → length bytes ≤ n
    → concat (chunks_of n size bytes) ≡ bytes
unfolding chunks_of
concat-chunks_of zero size [] h k = refl
concat-chunks_of zero size (b ∷ bs) h k = absurd (omega arith)
concat-chunks_of (suc n) size [] h k = refl
concat-chunks_of (suc n) size (b ∷ bs) h k =
    ap (λ (t : Bytes). take size (b ∷ bs) ++ t)
      (concat-chunks_of n size (drop size (b ∷ bs)) h (omega (arith, length-drop size (b ∷ bs))))
    ∙ take-append-drop size (b ∷ bs)

pub chunks_of-IsBytes :
    (n size : ℕ) (bytes : Bytes) → IsBytes bytes → All IsBytes (chunks_of n size bytes)
unfolding chunks_of
chunks_of-IsBytes zero size bytes h = tt
chunks_of-IsBytes (suc n) size [] h = tt
chunks_of-IsBytes (suc n) size (b ∷ bs) h = (
  All-take IsByte size (b ∷ bs) h,
  chunks_of-IsBytes n size (drop size (b ∷ bs)) (All-drop IsByte size (b ∷ bs) h),
)

pub length-chunks_of :
    (n size : ℕ) (bytes : Bytes)
    → 1 ≤ size
    → length bytes ≤ n
    → length (chunks_of n size bytes) ≤ length bytes
unfolding chunks_of
length-chunks_of zero size bytes h k = omega arith
length-chunks_of (suc n) size [] h k = omega arith
length-chunks_of (suc n) size (b ∷ bs) h k = omega (
  arith,
  length-drop size (b ∷ bs),
  length-chunks_of n size (drop size (b ∷ bs)) h (omega (arith, length-drop size (b ∷ bs))),
)

pub chunks_of_nonempty :
    (n size : ℕ) (bytes : Bytes)
    → 1 ≤ length bytes
    → length bytes ≤ n
    → 1 ≤ length (chunks_of n size bytes)
unfolding chunks_of
chunks_of_nonempty zero size bytes h k = absurd (omega arith)
chunks_of_nonempty (suc n) size [] h k = absurd (omega arith)
chunks_of_nonempty (suc n) size (b ∷ bs) h k = omega arith
