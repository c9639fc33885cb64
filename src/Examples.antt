-- ===== src/Examples.antt =====
-- Concrete functions for what the crate takes from other crates and from the operating system, and
-- inputs on which the theorems are run.
pub mod Components
pub mod Container
pub mod Memory
pub mod Letters
pub mod Text
pub mod Version4
pub mod Commands
pub mod Tools
pub mod Reference
use mathlib.Core.Path.{subst}
use krcm_spn.Base.{
  All, All-append, All-drop, All-replicate, All-take, Bytes, IsArray, IsByte, IsBytes, [], ap,
  arith, bytes_eq, bytes_eq_refl, bytes_eq→eq, collect, drop, from_be_acc, from_be_acc-lt,
  from_be_bytes, length, length-drop, length-replicate, length-take, replicate, some, sym, take,
  to_be_bytes, true, ℕ, ◌%◌, ◌*◌, ◌++◌, ◌+◌, ◌-◌, ◌/◌, ◌<◌, ◌^◌, ◌∙◌, ◌∷◌, ◌≡◌,
}
use krcm_spn.Kdf.{scrypt_params}
use krcm_spn.Primitives.{Primitives, Rng}
use krcm_spn.Sampler.{hkdf_expand_64}
use krcm_spn.Sampler.Draws.{Accepting}
use krcm_spn.Sampler.Expand.{hkdf_expand_64-IsArray}
use krcm_spn.Sampler.Stream.{chunk, word}

-- A checksum in the place of the hash functions.
unfoldable pub checksum : ℕ → Bytes → ℕ
checksum sum [] = sum
checksum sum (b ∷ bs) = checksum ((sum * 31 + b + 1) % 65521) bs

abbrev pub digest : Bytes → Bytes
digest message = replicate 32 (checksum 7 message % 251)

pub filled-IsArray : (size sum : ℕ) → IsArray size (replicate size (sum % 251))
filled-IsArray size sum =
    (length-replicate size (sum % 251), All-replicate IsByte size (sum % 251) (omega arith))

abbrev pub toy : Primitives
toy = record {
  hmac = λ key message. digest (key ++ message);
  hmac-IsArray = λ key message. filled-IsArray 32 (checksum 7 (key ++ message));
  sha256 = digest;
  sha256-IsArray = λ message. filled-IsArray 32 (checksum 7 message);
  pbkdf2 = λ password salt iterations size.
      replicate size (checksum iterations (password ++ salt) % 251);
  pbkdf2-IsArray =
      λ password salt iterations size. filled-IsArray size (checksum iterations (password ++ salt));
  scrypt_params = λ n_log2 r p size. true;
  scrypt = λ password salt n_log2 r p size.
      some (replicate size (checksum (n_log2 + r + p) (password ++ salt) % 251));
  ct_eq = bytes_eq;
  ct_eq_iff = λ a b. (bytes_eq→eq a b, λ e. ap (bytes_eq a) (sym e) ∙ bytes_eq_refl a);
  par_collect = collect;
  par_collect-ok = λ f xs ys e. e;
}

abbrev pub toy_rng : Rng
toy_rng = record {
  fill_bytes = λ call size. replicate size ((call + 5) % 251);
  fill_bytes-IsArray = λ call size. filled-IsArray size (call + 5);
}

abbrev IsLow : ℕ → Type 0
IsLow b = b < 255

low_word :
    (xs : Bytes) → length xs ≡ 8 → All IsLow xs → IsBytes xs → from_be_bytes xs < 2 ^ 64 - 256
unfolding from_be_acc
low_word [] h l b = absurd (omega arith)
low_word (x ∷ xs) h l b =
    let bound : from_be_acc x xs < (x + 1) * 256 ^ length xs = from_be_acc-lt x xs b.1 in
    let small : from_be_acc x xs < (x + 1) * 256 ^ 7 =
      subst (λ (k : ℕ). from_be_acc x xs < (x + 1) * 256 ^ k) {x = length xs} {y = 7} (omega arith)
        bound in
    let whole : from_be_bytes (x ∷ xs) ≡ from_be_acc x xs =
      ap (λ (k : ℕ). from_be_acc k xs) {x = 0 * 256 + x} {y = x} (omega arith) in
    omega (arith, l.0)

IsLow-digest : (message : Bytes) → All IsLow (digest message)
IsLow-digest message = All-replicate IsLow 32 (checksum 7 message % 251) (omega arith)

-- The toy's words all lie below the limit of the draws, so one draw is enough.
pub toy-Accepting : Accepting toy 1
unfolding word chunk hkdf_expand_64
toy-Accepting seed label n =
    let key = seed in
    let message = label ++ to_be_bytes 4 (64 * ((n + 0) / 8) % 2 ^ 32) in
    let material = hkdf_expand_64 toy key message in
    let (size, bytes) = hkdf_expand_64-IsArray toy key message in
    let start = 8 * ((n + 0) % 8) in
    let first = key ++ (message ++ (0 ∷ 0 ∷ 0 ∷ 1 ∷ [])) in
    let second = key ++ (digest first ++ (message ++ (0 ∷ 0 ∷ 0 ∷ 2 ∷ []))) in
    let low : All IsLow material =
      All-append IsLow (digest first) (digest second) (IsLow-digest first) (IsLow-digest second) in
    let length_word : length (take 8 (drop start material)) ≡ 8 =
      omega (arith, length-take 8 (drop start material), length-drop start material, size) in
    (
      0,
      omega arith,
      low_word (take 8 (drop start material)) length_word
          (All-take IsLow 8 (drop start material) (All-drop IsLow start material low))
          (All-take IsByte 8 (drop start material) (All-drop IsByte start material bytes)),
    )
