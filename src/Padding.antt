-- ===== src/Padding.antt =====
-- crates/krcm-core/src/padding.rs: `pad` fills up to a whole number of blocks, `unpad` undoes it.
pub mod Laws
pub mod Settles
use krcm_spn.Base.{
  ℕ, ◌+◌, ◌-◌, ◌%◌, ◌≡◌, Bool, true, false, ◌||◌, List, [], ◌∷◌, ◌++◌, Option, none, some, Bytes,
  length, take, drop, replicate, ltb, ◌==◌, ◌!=◌, if◌then◌else◌, not, Outcome, ok, err, format,
  authentication, ◌>>=◌, ◌>>◌, fail_if, ok_or, slice,
}
use krcm_spn.Constants.{block_bytes}

unfoldable pub pad_length : Bytes → ℕ
pad_length input =
    let pad_len = block_bytes - length input % block_bytes in
    if pad_len == 0 then block_bytes else pad_len

unfoldable pub pad : Bytes → Bytes
unfolding pad_length
pad input = input ++ replicate (pad_length input) (pad_length input % 256)

-- `data.last()`.
abbrev pub last : Bytes → Option ℕ
last [] = none
last (x ∷ xs) = last_from x xs
  where
    last_from : ℕ → Bytes → Option ℕ
    last_from x [] = some x
    last_from x (y ∷ ys) = last_from y ys

-- `.iter().any(|&byte| byte as usize != pad_len)`.
abbrev pub any_other : ℕ → Bytes → Bool
any_other v [] = false
any_other v (x ∷ xs) = elim (x == v) [ true ↦ any_other v xs | false ↦ true ]

unfoldable pub unpad : Bytes → Outcome Bytes
unfolding slice
unpad input = do
  fail_if ((length input == 0) || (length input % block_bytes != 0)) format
  pad_len ← ok_or (last input) format
  fail_if (ltb pad_len 1 || ltb block_bytes pad_len || ltb (length input) pad_len) authentication
  tail ← slice input (length input - pad_len) (length input)
  fail_if (any_other pad_len tail) authentication
  slice input 0 (length input - pad_len)
