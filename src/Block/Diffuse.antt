-- ===== src/Block/Diffuse.antt =====
-- `diffuse_bytes` and `undiffuse_bytes` of crates/krcm-core/src/block.rs, step by step.
use krcm_spn.Base.{
  All-get_or, All-set, Bytes, IsArray, IsByte, IsBytes, ap, arith, codes, get_or, get_or-set_ne,
  get_or-set_self, length-set, loop_down, loop_down-loop_up, loop_down_inv, loop_up,
  loop_up-loop_down, loop_up_inv, set, set-set_same, ℕ, ◌%◌, ◌+◌, ◌-◌, ◌<◌, ◌∙◌, ◌≡◌, ◌≤◌,
}
use krcm_spn.Block.{
  diffuse_backward, diffuse_bytes, diffuse_forward, undiffuse_backward, undiffuse_bytes,
  undiffuse_forward,
}
use krcm_spn.Primitives.{Primitives}
use krcm_spn.Sampler.{hkdf_expand_like}
use krcm_spn.Sampler.Expand.{hkdf_expand_like-IsArray}

-- Adding two bytes in turn, and taking them away in the same turn.
add_undo :
    (x y m : ℕ)
    → x < 256
    → y < 256
    → m < 256
    → (((((x + y) % 256 + m) % 256) + 256 - y) % 256 + 256 - m) % 256 ≡ x
add_undo x y m hx hy hm = omega arith

module _ (mask : Bytes) (masked : IsBytes mask) where
  abbrev at : Bytes → ℕ → ℕ
  at state i = get_or state i 0

  at-lt : (state : Bytes) (i : ℕ) → IsBytes state → at state i < 256
  at-lt state i h = All-get_or IsByte state i 0 (omega arith) h

  set-IsArray : (state : Bytes) (i v : ℕ) → v < 256 → IsArray 32 state → IsArray 32 (set state i v)
  set-IsArray state i v hv h = (length-set state i v ∙ h.0, All-set IsByte state i v hv h.1)

  diffuse_forward-IsArray :
      (i : ℕ) (state : Bytes) → IsArray 32 state → IsArray 32 (diffuse_forward mask i state)
  unfolding diffuse_forward
  diffuse_forward-IsArray i state h = set-IsArray state i _ (omega arith) h

  diffuse_backward-IsArray :
      (i : ℕ) (state : Bytes) → IsArray 32 state → IsArray 32 (diffuse_backward mask i state)
  unfolding diffuse_backward
  diffuse_backward-IsArray i state h = set-IsArray state i _ (omega arith) h

  -- The neighbour is another place, so it is still there when the step is undone.
  undiffuse_forward_lem :
      (i : ℕ) (state : Bytes)
      → 1 ≤ i
      → i < 32
      → IsArray 32 state
      → undiffuse_forward mask i (diffuse_forward mask i state) ≡ state
  unfolding diffuse_forward undiffuse_forward
  undiffuse_forward_lem i state h k s =
      let v = (((at state i + at state (i - 1)) % 256) + at mask i) % 256 in
      rw
        (
          get_or-set_self state i v 0 (omega (arith, s.0)),
          get_or-set_ne state i (i - 1) v 0 (omega arith),
        )
        (set-set_same state i v _ 0 (
          add_undo (at state i) (at state (i - 1)) (at mask i) (at-lt state i s.1)
            (at-lt state (i - 1) s.1) (at-lt mask i masked)))

  undiffuse_backward_lem :
      (i : ℕ) (state : Bytes)
      → i < 31
      → IsArray 32 state
      → undiffuse_backward mask i (diffuse_backward mask i state) ≡ state
  unfolding diffuse_backward undiffuse_backward
  undiffuse_backward_lem i state k s =
      let v = (((at state i + at state (i + 1)) % 256) + at mask (32 + i)) % 256 in
      rw
        (
          get_or-set_self state i v 0 (omega (arith, s.0)),
          get_or-set_ne state i (i + 1) v 0 (omega arith),
        )
        (set-set_same state i v _ 0 (
          add_undo (at state i) (at state (i + 1)) (at mask (32 + i)) (at-lt state i s.1)
            (at-lt state (i + 1) s.1) (at-lt mask (32 + i) masked)))

module _ (c : Primitives) (fuel : ℕ) where
  -- Diffusion keeps a block of 32 bytes a block, and is undone with the same seed.
  pub undiffuse-diffuse_bytes :
      (block seed : Bytes)
      → IsArray 32 block
      → IsArray 32 (diffuse_bytes c fuel block seed)
        × (undiffuse_bytes c fuel (diffuse_bytes c fuel block seed) seed ≡ block)
  unfolding diffuse_bytes undiffuse_bytes
  undiffuse-diffuse_bytes block seed h =
      let mask = hkdf_expand_like c seed (codes "diffuse") 64 in
      let masked : IsBytes mask = (hkdf_expand_like-IsArray c seed (codes "diffuse") 64).1 in
      let forward = loop_up (diffuse_forward mask) 1 31 block in
      let between : IsArray 32 forward =
        loop_up_inv (IsArray 32) (diffuse_forward mask) 1 31 block
          (λ i t k s. diffuse_forward-IsArray mask masked (1 + i) t s) h in
      (
        loop_down_inv (IsArray 32) (diffuse_backward mask) 0 31 forward
            (λ i t k s. diffuse_backward-IsArray mask masked (0 + i) t s) between,
        ap (loop_down (undiffuse_forward mask) 1 31) (
              loop_up-loop_down (IsArray 32) (diffuse_backward mask) (undiffuse_backward mask) 0 31
                forward (λ i t k s. diffuse_backward-IsArray mask masked (0 + i) t s)
                (λ i t k s. undiffuse_backward_lem mask masked (0 + i) t (omega arith) s) between)
            ∙ loop_down-loop_up (IsArray 32) (diffuse_forward mask) (undiffuse_forward mask) 1 31
                block (λ i t k s. diffuse_forward-IsArray mask masked (1 + i) t s)
                (λ i t k s.
                  undiffuse_forward_lem mask masked (1 + i) t (omega arith) (omega arith) s)
                h,
      )
