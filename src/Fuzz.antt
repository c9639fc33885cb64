-- ===== src/Fuzz.antt =====
-- The targets of fuzz/fuzz_targets, and the functions of crates/krcm-core/src/format_v5.rs for them.
use krcm_spn.Base.{
  Bool, Bool-cases, Bytes, IsBytes, Outcome, Settled, codes, diverged, err, false, inl, inr, length,
  ltb, ltb_false→le, ltb→lt, ok, panic, read_be, refl, starts_with, ℕ, ◌+◌, ◌<◌, ◌>>=◌, ◌^◌, ◌≡◌,
  ◌≢◌, ◌≤◌, ◌⊎◌,
}
use krcm_spn.Auto.{decrypt_auto}
use krcm_spn.Constants.{magic_v4, magic_v5}
use krcm_spn.ContainerV4.{decrypt_v4}
use krcm_spn.ContainerV4.Settles.{decrypt_v4_returns}
use krcm_spn.ContainerV5.Reads.{parse_public_header-Settled}
use krcm_spn.HeaderV4.{from_json_bytes}
use krcm_spn.HeaderV5.{parse_public_header}
use krcm_spn.InnerV5.{inspect_inner}
use krcm_spn.InnerV5.Overflow.{HasFront, inspect_inner_panics}
use krcm_spn.InnerV5.Settles.{inspect_inner-Settled}
use krcm_spn.Json.{Base64, Json}
use krcm_spn.Primitives.{Primitives, Rng}
use krcm_spn.Sampler.Draws.{Accepting}
use krcm_spn.Segment.{parse_segment_table}
use krcm_spn.Segment.Settles.{parse_segment_table-Settled}

-- `let _ = call;`: a value and an error are dropped, a panic is what the fuzzer looks for.
abbrev pub dropped {ℓ} : {V : Type ℓ} → Outcome V → Outcome (Unit {0})
dropped panic = panic
dropped diverged = diverged
dropped (err why) = ok tt
dropped (ok v) = ok tt

-- `.map(|_| ())`
abbrev pub map_unit {ℓ} : {V : Type ℓ} → Outcome V → Outcome (Unit {0})
map_unit call = call >>= λ v. ok tt

unfoldable pub parse_public_header_for_fuzz : Bytes → Outcome (Unit {0})
parse_public_header_for_fuzz header = map_unit (parse_public_header header)

unfoldable pub parse_segment_table_for_fuzz : Bytes → ℕ → Outcome (Unit {0})
parse_segment_table_for_fuzz table ciphertext_len =
    map_unit (parse_segment_table table ciphertext_len)

unfoldable pub fuzz_parse_v5_header : Bytes → Outcome (Unit {0})
fuzz_parse_v5_header input = dropped (parse_public_header_for_fuzz input)

unfoldable pub fuzz_segment_table : Bytes → Outcome (Unit {0})
fuzz_segment_table input = dropped (parse_segment_table_for_fuzz input 1024)

module _ (c : Primitives) (rng : Rng) (json : Json) (base64 : Base64) (fuel : ℕ)
    (checks : Bool) where
  unfoldable pub unpack_inner_for_fuzz : Bytes → Outcome (Unit {0})
  unpack_inner_for_fuzz inner = map_unit (inspect_inner c rng checks inner)

  unfoldable pub fuzz_unpack_inner_v5 : Bytes → Outcome (Unit {0})
  fuzz_unpack_inner_v5 input = dropped (unpack_inner_for_fuzz input)

  unfoldable pub fuzz_parse_v4_header : Bytes → Outcome (Unit {0})
  fuzz_parse_v4_header input = dropped (from_json_bytes json base64 input)

  unfoldable pub fuzz_decrypt_auto : Bytes → Outcome (Unit {0})
  fuzz_decrypt_auto input =
      dropped (decrypt_auto c rng json base64 fuel checks input (codes "fuzz-password"))

-- A call without a panic, with its value dropped twice.
target_lem {ℓ} : {V : Type ℓ} (m : Outcome V) → Settled m → dropped (map_unit m) ≡ ok tt
target_lem panic h = absurd h
target_lem diverged h = absurd h
target_lem (err why) h = refl
target_lem (ok v) h = refl

returns_lem {ℓ} : {V : Type ℓ} (m : Outcome V) → m ≢ panic → m ≢ diverged → dropped m ≡ ok tt
returns_lem panic h k = absurd (h refl)
returns_lem diverged h k = absurd (k refl)
returns_lem (err why) h k = refl
returns_lem (ok v) h k = refl

module _ (c : Primitives) (rng : Rng) (json : Json) (base64 : Base64) (fuel : ℕ)
    (checks : Bool) where
  -- For samplers whose every draw ends within the fuel, the target of `decrypt_auto` ends without a
  -- panic on an input that is shorter than 2 ^ 63 bytes and does not begin as a container of version
  -- 5.
  other_versions_return :
      (input : Bytes)
      → Accepting c fuel
      → length input < 2 ^ 63
      → starts_with input magic_v5 ≡ false
      → fuzz_decrypt_auto c rng json base64 fuel checks input ≡ ok tt
  unfolding fuzz_decrypt_auto decrypt_auto
  other_versions_return input accepting short other =
      let password = codes "fuzz-password" in
      let (calm, ends) =
        decrypt_v4_returns c rng json base64 fuel accepting checks input password short in
      elim (Bool-cases (starts_with input magic_v4)) [
        | inl old ↦
            rw old (returns_lem (decrypt_v4 c rng json base64 fuel checks input password) calm ends)
        | inr new ↦ rw (new, other) refl
      ]

  -- On every input the fuzz targets of the header of version 5 and of the segment table end without
  -- a panic, and so does the one of the inner plaintext, unless 76 and the stated payload length
  -- reach 2 ^ 64.
  pub fuzz_targets_return :
      (input : Bytes)
      → (fuzz_parse_v5_header input ≡ ok tt)
        × (fuzz_segment_table input ≡ ok tt)
        × ((fuzz_unpack_inner_v5 c rng json base64 fuel checks input ≡ ok tt)
            ⊎ (2 ^ 64 ≤ 76 + read_be 8 input 20))
  unfolding fuzz_parse_v5_header fuzz_segment_table fuzz_unpack_inner_v5
      parse_public_header_for_fuzz parse_segment_table_for_fuzz unpack_inner_for_fuzz
  fuzz_targets_return input = (
    target_lem _ (parse_public_header-Settled input),
    target_lem _ (parse_segment_table-Settled input 1024),
    elim (Bool-cases (ltb (76 + read_be 8 input 20) (2 ^ 64))) [
      | inl fits ↦ inl (target_lem _ (inspect_inner-Settled c rng checks input (ltb→lt _ _ fits)))
      | inr over ↦ inr (ltb_false→le _ _ over)
    ],
  )

  -- The target of the inner plaintext finds the panic of `inspect_inner`.
  pub fuzz_unpack_inner_v5_panics :
      (inner : Bytes)
      → HasFront c rng checks inner
      → IsBytes inner
      → 2 ^ 64 ≤ 76 + read_be 8 inner 20
      → read_be 8 inner 12 ≤ read_be 8 inner 20
      → fuzz_unpack_inner_v5 c rng json base64 fuel checks inner ≡ panic
  unfolding fuzz_unpack_inner_v5 unpack_inner_for_fuzz
  fuzz_unpack_inner_v5_panics inner front bytes over ordered =
      rw ((inspect_inner_panics c rng checks inner front bytes over ordered).0) refl
