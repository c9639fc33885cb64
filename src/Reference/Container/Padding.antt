-- ===== src/Reference/Container/Padding.antt =====
-- `_pad` and `_unpad` of krcm/core.py, and those of crates/krcm-core/src/padding.rs.
use krcm_spn.Base.{
  Bytes, [], ap, arith, authentication, bytes_eq, drop, format, get_or, length, length-drop, ltb,
  not, refl, replicate, slice, slice_prefix, slice_suffix, some, suc, ℕ, ◌!=◌, ◌%◌, ◌++◌, ◌-◌, ◌==◌,
  ◌||◌, ◌∙◌, ◌∷◌, ◌≡◌, ◌≤◌,
}
use krcm_spn.Padding.{any_other, last, pad, pad_length, unpad}
use krcm_spn.Padding.Laws.{pad_length_lem}
use krcm_spn.Reference.{bad_format, not_authentic}
use krcm_spn.Reference.Agree.{Agree, guard-Agree}
use krcm_spn.Reference.Container.{pad_py, unpad_py}

pub pad_py-pad : (input : Bytes) → pad_py input ≡ pad input
unfolding pad_py pad pad_length
pad_py-pad input =
    let n = pad_length input in
    let small : n ≡ n % 256 = omega (arith, pad_length_lem input) in
    ap (λ (t : ℕ). input ++ replicate n t) small

-- The last byte.
last-get_or : (xs : Bytes) → 1 ≤ length xs → last xs ≡ some (get_or xs (length xs - 1) 0)
last-get_or [] h = absurd (omega arith)
last-get_or (x ∷ []) h = refl
last-get_or (x ∷ y ∷ xs) h =
    last-get_or (y ∷ xs) (omega arith)
    ∙ ap (λ (k : ℕ). some (get_or (y ∷ xs) k 0)) {x = length (y ∷ xs) - 1} {y = length xs}
        (omega arith)
    ∙ ap (λ (k : ℕ). some (get_or (x ∷ y ∷ xs) k 0)) {x = suc (length xs)}
        {y = length (x ∷ y ∷ xs) - 1} (omega arith)

any_other-bytes_eq :
    (v : ℕ) (xs : Bytes) → any_other v xs ≡ not (bytes_eq xs (replicate (length xs) v))
any_other-bytes_eq v [] = refl
any_other-bytes_eq v (x ∷ xs) = ground (arith, any_other-bytes_eq v xs)

-- The two take off the same padding and refuse the same data with the same error.
pub unpad-Agree : (input : Bytes) → Agree (unpad input) (unpad_py input)
unfolding unpad unpad_py slice
unpad-Agree input =
    let n = length input in
    let v = get_or input (n - 1) 0 in
    let tail = drop (n - v) input in
    guard-Agree ((n == 0) || (n % 32 != 0)) format bad_format _ _ tt (λ whole.
      let sized : 32 ≤ n = ground arith in
      let same_test : (ltb v 1 || ltb 32 v || ltb n v) ≡ (ltb v 1 || ltb 32 v) = ground arith in
      rw (last-get_or input (omega arith), same_test)
        (guard-Agree (ltb v 1 || ltb 32 v) authentication not_authentic _ _ tt (λ fits.
          let small : v ≤ 32 = ground arith in
          let tail_size : length tail ≡ v = omega (arith, length-drop (n - v) input) in
          let same_bytes : any_other v tail ≡ not (bytes_eq tail (replicate v v)) =
            any_other-bytes_eq v tail
            ∙ ap (λ (k : ℕ). not (bytes_eq tail (replicate k v))) tail_size in
          rw
            (
              slice_suffix input (n - v) (omega arith),
              same_bytes,
              slice_prefix input (n - v) (omega arith),
            )
            (guard-Agree (not (bytes_eq tail (replicate v v))) authentication not_authentic _ _ tt
              (λ same. refl)))))
