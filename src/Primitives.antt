-- ===== src/Primitives.antt =====
-- What crates/krcm-core takes from other crates: HMAC-SHA256 (hmac), SHA-256 (sha2), PBKDF2 (pbkdf2),
-- scrypt (scrypt), the comparison of secrets (subtle), the parallel map (rayon) and random bytes
-- (rand). The laws are the sizes of the digests and of the random bytes, that `ct_eq` compares, and
-- what the parallel map is where every call succeeds.
use krcm_spn.Base.{
  Bool, Bytes, IsArray, List, Option, Outcome, collect, none, ok, some, true, ℕ, ◌+◌, ◌↔◌, ◌≡◌,
}

pub record Primitives : Type 0 where
  -- key and message
  pub hmac : Bytes → Bytes → Bytes
  pub hmac-IsArray : (key message : Bytes) → IsArray 32 (hmac key message)
  pub sha256 : Bytes → Bytes
  pub sha256-IsArray : (message : Bytes) → IsArray 32 (sha256 message)
  -- password, salt, iterations, and the length of the output
  pub pbkdf2 : Bytes → Bytes → ℕ → ℕ → Bytes
  pub pbkdf2-IsArray :
      (password salt : Bytes) (iterations size : ℕ)
      → IsArray size (pbkdf2 password salt iterations size)
  -- `ScryptParams::new(n_log2, r, p, len)` succeeds
  pub scrypt_params : ℕ → ℕ → ℕ → ℕ → Bool
  -- password, salt, n_log2, r, p, and the length of the output; `none` is its error
  pub scrypt : Bytes → Bytes → ℕ → ℕ → ℕ → ℕ → Option Bytes
  -- `a.ct_eq(b).unwrap_u8() == 1`
  pub ct_eq : Bytes → Bytes → Bool
  pub ct_eq_iff : (a b : Bytes) → (ct_eq a b ≡ true) ↔ (a ≡ b)
  -- `par_iter().map(f).collect::<Result<Vec<_>, _>>()` of rayon keeps the order of the items: where
  -- every call succeeds it is the sequential loop.
  pub par_collect :
      (ℕ × Bytes → Outcome (ℕ × ℕ × Bytes)) → List (ℕ × Bytes) → Outcome (List (ℕ × ℕ × Bytes))
  pub par_collect-ok :
      (f : ℕ × Bytes → Outcome (ℕ × ℕ × Bytes)) (xs : List (ℕ × Bytes)) (ys : List (ℕ × ℕ × Bytes))
      → collect f xs ≡ ok ys
      → par_collect f xs ≡ ok ys

-- `OsRng.fill_bytes` (rand): the bytes of each call, by the number of the call and the size.
pub record Rng : Type 0 where
  pub fill_bytes : ℕ → ℕ → Bytes
  pub fill_bytes-IsArray : (call size : ℕ) → IsArray size (fill_bytes call size)

-- `opts.salt.unwrap_or_else(...)`, and the number of the next call of the generator.
unfoldable pub unwrap_or_fill : Rng → Option Bytes → ℕ → Bytes × ℕ
unwrap_or_fill rng (some bytes) call = (bytes, call)
unwrap_or_fill rng none call = (rng.fill_bytes call 16, call + 1)

-- A salt or a nonce of the caller, if there is one, has 16 bytes.
abbrev pub IsGiven : Option Bytes → Type 0
IsGiven none = Unit
IsGiven (some bytes) = IsArray 16 bytes

pub unwrap_or_fill-IsArray :
    (rng : Rng) (given : Option Bytes) (call : ℕ)
    → IsGiven given
    → IsArray 16 (unwrap_or_fill rng given call).0
unfolding unwrap_or_fill
unwrap_or_fill-IsArray rng none call h = rng.fill_bytes-IsArray call 16
unwrap_or_fill-IsArray rng (some bytes) call h = h
