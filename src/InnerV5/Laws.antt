-- ===== src/InnerV5/Laws.antt =====
-- `pack_inner`, `inspect_inner` and `unpack_inner` of crates/krcm-core/src/format_v5.rs.
use native.Mathlib.Nat.{mod-lt}
use krcm_spn.Base.{
  All-append, Bool, Bool-cases, Bytes, IsByte, IsBytes, [], add_u64_fits, any_nonzero, ap, arith,
  bytes_eq, drop, drop-append, drop-drop, false, from_be_acc, from_be_bytes,
  from_be_bytes-to_be_bytes, get_or, inl, inr, length, length-append, length-drop, length-take,
  le→ltb_false, min, ok, read_be, refl, slice, slice_in_range, slice_prefix, sym, take, take-all,
  take-append, to_be_bytes, to_be_bytes-IsBytes, true, ℕ, ◌%◌, ◌++◌, ◌+◌, ◌-◌, ◌<◌, ◌==◌, ◌^◌, ◌∙◌,
  ◌∷◌, ◌≡◌, ◌≤◌,
}
use krcm_spn.Constants.{inner_magic}
use krcm_spn.HeaderV5.{PaddingPolicy, minimal_block, random_blocks}
use krcm_spn.InnerV5.{
  inner_back, inner_front, inspect_inner, pack_inner, random_padding_len, unpack_inner,
}
use krcm_spn.InnerV5.Total.{inspect_inner_lem, inspect_inner_total}
use krcm_spn.Primitives.{Primitives, Rng}

module _ (c : Primitives) (rng : Rng) (checks : Bool) where
  -- At most 15 blocks of random padding.
  random_padding_len-le :
      (padding : PaddingPolicy) (call : ℕ) → (random_padding_len c rng checks padding call).0 ≤ 480
  unfolding random_padding_len
  random_padding_len-le minimal_block call = omega arith
  random_padding_len-le (random_blocks max_blocks) call =
      let limit = min max_blocks 15 in
      let count = get_or (rng.fill_bytes call 1) 0 0 in
      let small : count % (limit + 1) < limit + 1 = mod-lt count (omega arith) in
      elim (Bool-cases (limit == 0)) [
        | inl none_asked ↦ rw none_asked (omega arith)
        | inr some_asked ↦ rw some_asked (omega (arith, small))
      ]

  random_tail :
      (padding : PaddingPolicy) (call : ℕ) (input : Bytes)
      → (random : Bytes) × IsBytes random
        × (length random ≤ 480)
        × (pack_inner c rng checks input padding call
            ≡ inner_front c rng checks (length input)
              ++ (c.sha256 input ++ (inner_back c rng checks ++ (input ++ random))))
  unfolding pack_inner
  random_tail padding call input =
      let n = (random_padding_len c rng checks padding call).0 in
      let call' = (random_padding_len c rng checks padding call).1 in
      elim (Bool-cases (n == 0)) [
        | inl zero_len ↦ ([], tt, omega arith, rw zero_len)
        | inr some_len ↦ (
          rng.fill_bytes call' n,
          (rng.fill_bytes-IsArray call' n).1,
          omega (arith, (rng.fill_bytes-IsArray call' n).0, random_padding_len-le padding call),
          rw some_len,
        )
      ]

  -- What the tests of `inspect_inner` find in an inner plaintext.
  record IsInner (inner : Bytes) (original_length payload_length : ℕ) : Type 0 where
    long_enough : 76 ≤ length inner
    magic : bytes_eq (take 8 inner) inner_magic ≡ true
    version : get_or inner 8 0 ≡ 1
    flags : get_or inner 9 0 ≡ 0
    reserved : bytes_eq (take 2 (drop 10 inner)) (0 ∷ 0 ∷ []) ≡ true
    algorithm : read_be 2 inner 60 ≡ 1
    blocks : read_be 2 inner 62 ≡ 32
    round_count : read_be 2 inner 64 ≡ 10
    zeros : any_nonzero (take 10 (drop 66 inner)) ≡ false
    original : read_be 8 inner 12 ≡ original_length
    payload : read_be 8 inner 20 ≡ payload_length
    payload_fits : 76 + payload_length < 2 ^ 64
    inside : 76 + payload_length ≤ length inner
    original_inside : original_length ≤ payload_length
    digest : take 32 (drop 28 inner) ≡ c.sha256 (take payload_length (drop 76 inner))

  inspect_IsInner :
      (inner : Bytes) (o n : ℕ)
      → IsInner inner o n
      → inspect_inner c rng checks inner ≡ ok (record { original_length = o; payload_length = n })
  unfolding inspect_inner_total
  inspect_IsInner inner o n h =
      let payload = take n (drop 76 inner) in
      let cut : slice inner 76 (76 + n) ≡ ok payload =
        slice_in_range inner 76 (76 + n) (omega arith) h.inside
        ∙ ap (λ (k : ℕ). ok (take k (drop 76 inner))) {x = 76 + n - 76} {y = n} (omega arith) in
      rw
        (
          inspect_inner_lem c rng checks inner,
          le→ltb_false (length inner) 76 h.long_enough,
          h.magic,
          h.version,
          h.flags,
          h.reserved,
          h.algorithm,
          h.blocks,
          h.round_count,
          h.zeros,
          h.original,
          h.payload,
          add_u64_fits checks 76 n h.payload_fits,
          le→ltb_false (length inner) (76 + n) h.inside,
          le→ltb_false n o h.original_inside,
          cut,
          (c.ct_eq_iff (take 32 (drop 28 inner)) (c.sha256 payload)).1 h.digest,
        )
        refl

  unpack_IsInner :
      (inner : Bytes) (o n : ℕ)
      → IsInner inner o n
      → unpack_inner c rng checks inner ≡ ok (take o (take n (drop 76 inner)))
  unfolding unpack_inner
  unpack_IsInner inner o n h =
      let payload = take n (drop 76 inner) in
      let cut : slice inner 76 (76 + n) ≡ ok payload =
        slice_in_range inner 76 (76 + n) (omega arith) h.inside
        ∙ ap (λ (k : ℕ). ok (take k (drop 76 inner))) {x = 76 + n - 76} {y = n} (omega arith) in
      let size : length payload ≡ n =
        omega (arith, length-take n (drop 76 inner), length-drop 76 inner, h.inside) in
      rw (inspect_IsInner inner o n h, add_u64_fits checks 76 n h.payload_fits, cut)
        (slice_prefix payload o (omega (arith, size, h.original_inside)))

  inner_front-IsBytes : (size : ℕ) → IsBytes (inner_front c rng checks size)
  unfolding inner_front
  inner_front-IsBytes size = All-append IsByte (inner_magic ++ 1 ∷ 0 ∷ 0 ∷ 0 ∷ []) _ (omega arith) (
      All-append IsByte (to_be_bytes 8 size) _ (to_be_bytes-IsBytes 8 size)
        (to_be_bytes-IsBytes 8 size))

  inner_back-IsBytes : IsBytes (inner_back c rng checks)
  unfolding inner_back
  inner_back-IsBytes = omega arith

  module _ (input random : Bytes) where
    abbrev packed : Bytes
    packed =
        inner_front c rng checks (length input)
        ++ (c.sha256 input ++ (inner_back c rng checks ++ (input ++ random)))

    back_at : drop 60 packed ≡ inner_back c rng checks ++ (input ++ random)
    unfolding inner_front to_be_bytes
    back_at =
        drop-append 32 (c.sha256 input) (inner_back c rng checks ++ (input ++ random))
          (c.sha256-IsArray input).0

    -- A part behind the digest, at `60 + k`.
    behind : (k : ℕ) → drop (60 + k) packed ≡ drop k (inner_back c rng checks ++ (input ++ random))
    behind k = sym (drop-drop k 60 packed) ∙ ap (drop k) back_at

    payload_at : drop 76 packed ≡ input ++ random
    unfolding inner_back
    payload_at = behind 16

    length-packed : length packed ≡ 76 + length input + length random
    unfolding inner_front to_be_bytes inner_back
    length-packed = omega (
      arith,
      length-append (c.sha256 input) (inner_back c rng checks ++ (input ++ random)),
      (c.sha256-IsArray input).0,
      length-append input random,
    )

    packed-IsInner : length input < 2 ^ 58 → IsInner packed (length input) (length input)
    unfolding inner_front to_be_bytes inner_back from_be_acc
    packed-IsInner fits = record {
      long_enough = omega (arith, length-packed);
      magic = refl;
      version = refl;
      flags = refl;
      reserved = refl;
      algorithm = ap (λ (t : Bytes). from_be_bytes (take 2 t)) (behind 0);
      blocks = ap (λ (t : Bytes). from_be_bytes (take 2 t)) (behind 2);
      round_count = ap (λ (t : Bytes). from_be_bytes (take 2 t)) (behind 4);
      zeros = ap (λ (t : Bytes). any_nonzero (take 10 t)) (behind 6);
      original = from_be_bytes-to_be_bytes 8 (length input) (omega arith);
      payload = from_be_bytes-to_be_bytes 8 (length input) (omega arith);
      payload_fits = omega arith;
      inside = omega (arith, length-packed);
      original_inside = omega arith;
      digest =
          take-append 32 (c.sha256 input) (inner_back c rng checks ++ (input ++ random))
            (c.sha256-IsArray input).0
          ∙ ap c.sha256
              (sym (ap (take (length input)) payload_at ∙ take-append _ input random refl));
    }

    packed-IsBytes : IsBytes input → IsBytes random → IsBytes packed
    packed-IsBytes hi hr =
        All-append IsByte (inner_front c rng checks (length input)) _
          (inner_front-IsBytes (length input))
          (All-append IsByte (c.sha256 input) _ (c.sha256-IsArray input).1 (
            All-append IsByte (inner_back c rng checks) _ inner_back-IsBytes
              (All-append IsByte input random hi hr)))

  -- For a payload of bytes shorter than 2 ^ 58, `pack_inner` makes a byte string that is 76 to 556
  -- bytes longer, `inspect_inner` finds both lengths in it, and `unpack_inner` gives the payload
  -- back, for every padding policy and all random bytes.
  pub unpack_inner-pack_inner :
      (input : Bytes) (padding : PaddingPolicy) (call : ℕ)
      → IsBytes input
      → length input < 2 ^ 58
      → let inner = pack_inner c rng checks input padding call in
        IsBytes inner
        × (76 + length input ≤ length inner)
        × (length inner ≤ 556 + length input)
        × (inspect_inner c rng checks inner
            ≡ ok (record { original_length = length input; payload_length = length input }))
        × (unpack_inner c rng checks inner ≡ ok input)
  unpack_inner-pack_inner input padding call h fits =
      let (random, bytes, short, made) = random_tail padding call input in
      let n = length input in
      let facts = packed-IsInner input random fits in
      rw made (
        packed-IsBytes input random h bytes,
        omega (arith, length-packed input random),
        omega (arith, length-packed input random),
        inspect_IsInner (packed input random) n n facts,
        unpack_IsInner (packed input random) n n facts
            ∙ ap (λ (t : Bytes). ok (take n t))
                (ap (take n) (payload_at input random) ∙ take-append n input random refl)
            ∙ ap ok (take-all n input (omega arith)),
      )
