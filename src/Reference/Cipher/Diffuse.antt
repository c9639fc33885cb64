-- ===== src/Reference/Cipher/Diffuse.antt =====
-- `_diffuse_bytes` and `_undiffuse_bytes` of krcm/core.py, and those of crates/krcm-core/src/block.rs.
use krcm_spn.Base.{
  All-get_or, All-set, Bytes, IsArray, IsByte, IsBytes, ap, arith, codes, eq→!=_false, get_or,
  length, length-set, loop_down_cong, loop_down_inv, loop_up, loop_up_cong, loop_up_inv, refl, set,
  ℕ, ◌%◌, ◌+◌, ◌-◌, ◌∙◌, ◌≡◌,
}
use krcm_spn.Block.{
  diffuse_backward, diffuse_bytes, diffuse_forward, undiffuse_backward, undiffuse_bytes,
  undiffuse_forward,
}
use krcm_spn.Primitives.{Primitives}
use krcm_spn.Reference.{done}
use krcm_spn.Reference.Cipher.{
  diffuse_backward_py, diffuse_bytes_py, diffuse_forward_py, undiffuse_backward_py,
  undiffuse_bytes_py, undiffuse_forward_py,
}
use krcm_spn.Reference.Cipher.Layers.{byte_differences}
use krcm_spn.Reference.Sample.Agree.{hkdf_expand_like_py-hkdf_expand_like}
use krcm_spn.Sampler.{hkdf_expand_like}
use krcm_spn.Sampler.Expand.{hkdf_expand_like-IsArray}

sum_byte : (x y m : ℕ) → (x + y + m) % 256 ≡ ((x + y) % 256 + m) % 256
sum_byte x y m = omega arith

forward_step : (mask : Bytes) → diffuse_forward_py mask ≡ diffuse_forward mask
unfolding diffuse_forward_py diffuse_forward
forward_step mask = λ k i state.
    set state i (sum_byte (get_or state i 0) (get_or state (i - 1) 0) (get_or mask i 0) k)

backward_step : (mask : Bytes) → diffuse_backward_py mask ≡ diffuse_backward mask
unfolding diffuse_backward_py diffuse_backward
backward_step mask = λ k i state.
    set state i (sum_byte (get_or state i 0) (get_or state (i + 1) 0) (get_or mask (32 + i) 0) k)

module _ (mask : Bytes) (masked : IsBytes mask) where
  undo_forward_step :
      (i : ℕ) (state : Bytes)
      → IsBytes state
      → undiffuse_forward_py mask i state ≡ undiffuse_forward mask i state
  unfolding undiffuse_forward_py undiffuse_forward
  undo_forward_step i state h = ap (set state i) (
      byte_differences (get_or state i 0) (get_or state (i - 1) 0) (get_or mask i 0)
        (All-get_or IsByte state (i - 1) 0 (omega arith) h)
        (All-get_or IsByte mask i 0 (omega arith) masked))

  undo_backward_step :
      (i : ℕ) (state : Bytes)
      → IsBytes state
      → undiffuse_backward_py mask i state ≡ undiffuse_backward mask i state
  unfolding undiffuse_backward_py undiffuse_backward
  undo_backward_step i state h = ap (set state i) (
      byte_differences (get_or state i 0) (get_or state (i + 1) 0) (get_or mask (32 + i) 0)
        (All-get_or IsByte state (i + 1) 0 (omega arith) h)
        (All-get_or IsByte mask (32 + i) 0 (omega arith) masked))

  undiffuse_forward-IsArray :
      (i : ℕ) (state : Bytes) → IsArray 32 state → IsArray 32 (undiffuse_forward mask i state)
  unfolding undiffuse_forward
  undiffuse_forward-IsArray i state h =
      (length-set state i _ ∙ h.0, All-set IsByte state i _ (omega arith) h.1)

  undiffuse_backward-IsArray :
      (i : ℕ) (state : Bytes) → IsArray 32 state → IsArray 32 (undiffuse_backward mask i state)
  unfolding undiffuse_backward
  undiffuse_backward-IsArray i state h =
      (length-set state i _ ∙ h.0, All-set IsByte state i _ (omega arith) h.1)

module _ (c : Primitives) (fuel : ℕ) (block seed : Bytes) (array : IsArray 32 block) where
  pub diffuse_bytes_py-diffuse_bytes :
      diffuse_bytes_py c block seed ≡ done (diffuse_bytes c fuel block seed)
  unfolding diffuse_bytes_py diffuse_bytes
  diffuse_bytes_py-diffuse_bytes =
      let mask = hkdf_expand_like c seed (codes "diffuse") 64 in
      rw
        (
          eq→!=_false (length block) 32 (array.0),
          hkdf_expand_like_py-hkdf_expand_like c seed (codes "diffuse") 64 (omega arith),
          forward_step mask,
          backward_step mask,
        )
        refl

  pub undiffuse_bytes_py-undiffuse_bytes :
      undiffuse_bytes_py c block seed ≡ done (undiffuse_bytes c fuel block seed)
  unfolding undiffuse_bytes_py undiffuse_bytes
  undiffuse_bytes_py-undiffuse_bytes =
      let mask = hkdf_expand_like c seed (codes "diffuse") 64 in
      let masked : IsBytes mask = (hkdf_expand_like-IsArray c seed (codes "diffuse") 64).1 in
      let between = loop_up (undiffuse_backward mask) 0 31 block in
      let between_array : IsArray 32 between =
        loop_up_inv (IsArray 32) (undiffuse_backward mask) 0 31 block
          (λ i t k h. undiffuse_backward-IsArray mask masked (0 + i) t h) array in
      rw
        (
          eq→!=_false (length block) 32 (array.0),
          hkdf_expand_like_py-hkdf_expand_like c seed (codes "diffuse") 64 (omega arith),
          loop_up_cong (IsArray 32) (undiffuse_backward_py mask) (undiffuse_backward mask) 0 31
              block (λ i t k h. undiffuse_backward-IsArray mask masked (0 + i) t h)
              (λ i t k h. undo_backward_step mask masked (0 + i) t h.1) array,
          loop_down_cong (IsArray 32) (undiffuse_forward_py mask) (undiffuse_forward mask) 1 31
              between (λ i t k h. undiffuse_forward-IsArray mask masked (1 + i) t h)
              (λ i t k h. undo_forward_step mask masked (1 + i) t h.1) between_array,
        )
        refl

  pub undiffuse_bytes-IsArray : IsArray 32 (undiffuse_bytes c fuel block seed)
  unfolding undiffuse_bytes
  undiffuse_bytes-IsArray =
      let mask = hkdf_expand_like c seed (codes "diffuse") 64 in
      let masked : IsBytes mask = (hkdf_expand_like-IsArray c seed (codes "diffuse") 64).1 in
      loop_down_inv (IsArray 32) (undiffuse_forward mask) 1 31
        (loop_up (undiffuse_backward mask) 0 31 block)
        (λ i t k h. undiffuse_forward-IsArray mask masked (1 + i) t h)
        (loop_up_inv (IsArray 32) (undiffuse_backward mask) 0 31 block
          (λ i t k h. undiffuse_backward-IsArray mask masked (0 + i) t h) array)
