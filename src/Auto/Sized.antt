-- ===== src/Auto/Sized.antt =====
-- What `decrypt_auto` of crates/krcm-core/src/lib.rs gives for any container of bytes.
use krcm_spn.Base.{Bool, Bool-cases, Bytes, IsBytes, inl, inr, length, ok, starts_with, ℕ, ◌<◌, ◌≡◌}
use krcm_spn.Auto.{decrypt_auto}
use krcm_spn.Constants.{magic_v4, magic_v5}
use krcm_spn.ContainerV4.Sized.{decrypt_v4-IsBytes}
use krcm_spn.ContainerV5.Sized.{decrypt_v5-IsBytes}
use krcm_spn.Json.{Base64, Json}
use krcm_spn.Primitives.{Primitives, Rng}

-- Where `decrypt_auto` returns a payload for a container of bytes, whatever its version, the
-- password and the samplers: the payload is bytes, and has fewer of them than the container.
pub decrypt_auto-IsBytes :
    (c : Primitives) (rng : Rng) (json : Json) (base64 : Base64) (fuel : ℕ) (checks : Bool)
    (container password : Bytes) {output : Bytes}
    → IsBytes container
    → decrypt_auto c rng json base64 fuel checks container password ≡ ok output
    → IsBytes output × (length output < length container)
unfolding decrypt_auto
decrypt_auto-IsBytes c rng json base64 fuel checks container password {output} bytes e =
    elim (Bool-cases (starts_with container magic_v4)) [
      | inl old ↦ decrypt_v4-IsBytes c rng json base64 fuel checks container password (rw old at e)
      | inr new ↦ elim (Bool-cases (starts_with container magic_v5)) [
        | inl now ↦
            decrypt_v5-IsBytes c rng fuel checks container password bytes (rw (new, now) at e)
        | inr other ↦ cc (rw (new, other) at e)
      ]
    ]
