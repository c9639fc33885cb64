-- ===== src/Cli/Size.antt =====
-- `parse_size` of crates/krcm-cli/src/main.rs. The text is the list of its characters' codes.
pub mod Laws
use krcm_spn.Base.{
  Bool, Bytes, Option, Outcome, [], false, if◌then◌else◌, invalid_parameter, leb, ltb, none, ok_or,
  parse_usize, some, true, ℕ, ◌&&◌, ◌*◌, ◌-◌, ◌==◌, ◌^◌, ◌||◌, ◌∷◌,
}

-- `char::is_whitespace`
abbrev pub is_whitespace : ℕ → Bool
is_whitespace x =
    (leb 9 x && leb x 13)
    || (x == 32)
    || (x == 133)
    || (x == 160)
    || (x == 5760)
    || (leb 8192 x && leb x 8202)
    || (x == 8232)
    || (x == 8233)
    || (x == 8239)
    || (x == 8287)
    || (x == 12288)

abbrev pub is_empty : Bytes → Bool
is_empty [] = true
is_empty (x ∷ xs) = false

unfoldable pub trim_start : Bytes → Bytes
trim_start [] = []
trim_start (x ∷ xs) = let rest = trim_start xs in if is_whitespace x then rest else x ∷ xs

unfoldable pub trim_end : Bytes → Bytes
trim_end [] = []
trim_end (x ∷ xs) =
    let rest = trim_end xs in if is_whitespace x && is_empty rest then [] else x ∷ rest

-- `str::trim`
abbrev pub trim : Bytes → Bytes
trim value = trim_end (trim_start value)

abbrev pub upper : ℕ → ℕ
upper x = if leb 97 x && leb x 122 then x - 32 else x

unfoldable pub to_ascii_uppercase : Bytes → Bytes
to_ascii_uppercase [] = []
to_ascii_uppercase (x ∷ xs) = upper x ∷ to_ascii_uppercase xs

abbrev pub prepend : ℕ → Option Bytes → Option Bytes
prepend x none = none
prepend x (some front) = some (x ∷ front)

-- `str::strip_suffix` of one character
unfoldable pub strip_suffix : ℕ → Bytes → Option Bytes
strip_suffix s [] = none
strip_suffix s (x ∷ []) = if x == s then some [] else none
strip_suffix s (x ∷ (y ∷ ys)) = prepend x (strip_suffix s (y ∷ ys))

-- What is left of the letter `M`, else of `K`, else the whole; and the multiplier.
abbrev pub choose_unit : Option Bytes → Option Bytes → Bytes → Bytes × ℕ
choose_unit (some front) kilo value = (front, 1024 * 1024)
choose_unit none (some front) value = (front, 1024)
choose_unit none none value = (value, 1)

unfoldable pub split_unit : Bytes → Bytes × ℕ
split_unit value = choose_unit (strip_suffix b'M' value) (strip_suffix b'K' value) value

-- `.and_then(|n| n.checked_mul(multiplier)).filter(|&n| n > 0)`
abbrev pub scale : Option ℕ → ℕ → Option ℕ
scale none multiplier = none
scale (some n) multiplier =
    if ltb (n * multiplier) (2 ^ 64) && ltb 0 (n * multiplier) then some (n * multiplier) else none

unfoldable pub parse_size : Bytes → Outcome ℕ
parse_size value =
    let (amount, multiplier) = split_unit (to_ascii_uppercase (trim value)) in
    ok_or (scale (parse_usize amount) multiplier) invalid_parameter
