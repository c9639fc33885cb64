-- ===== src/Padding/Settles.antt =====
-- `unpad` of crates/krcm-core/src/padding.rs on any input.
use krcm_spn.Base.{
  >>=-Settled, Bytes, Settled, [], arith, authentication, drop, fail_if-Settled, false, format,
  length, le→ltb_false, ltb, ok_or, take, ◌!=◌, ◌%◌, ◌-◌, ◌==◌, ◌||◌, ◌∷◌, ◌≡◌,
}
use krcm_spn.Padding.{any_other, last, unpad}

last-Settled : (input : Bytes) → Settled (ok_or (last input) format)
last-Settled [] = tt
last-Settled (x ∷ []) = tt
last-Settled (x ∷ (y ∷ ys)) = last-Settled (y ∷ ys)

pub unpad-Settled : (input : Bytes) → Settled (unpad input)
unfolding unpad
unpad-Settled input =
    fail_if-Settled ((length input == 0) || (length input % 32 != 0)) format _ (λ aligned.
      >>=-Settled (ok_or (last input) format) _ (last-Settled input) (λ pad_len.
        fail_if-Settled (ltb pad_len 1 || ltb 32 pad_len || ltb (length input) pad_len)
          authentication _
          (λ inside.
            let n = length input in
            let k = n - pad_len in
            let low : ltb n k ≡ false = le→ltb_false n k (omega arith) in
            let whole : ltb n n ≡ false = le→ltb_false n n (omega arith) in
            let zero_low : ltb k 0 ≡ false = le→ltb_false k 0 (omega arith) in
            rw (low, whole, zero_low)
              (fail_if-Settled (any_other pad_len (take (n - k) (drop k input))) authentication _
                (λ same. tt)))))
