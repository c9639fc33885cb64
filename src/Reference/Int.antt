-- ===== src/Reference/Int.antt =====
-- Python's integers, where a number may be below zero, and `%` by a positive number.
use Prim.Native.Nat.{ℕ, suc, ◌+◌, ◌-◌, ◌*◌, ◌%◌, ◌^◌, ◌<◌}
use krcm_spn.Base.{Congruent, arith, if◌then◌else◌, leb, ◌≡◌}

-- `negsuc n` is -(n + 1).
pub data ℤ : Type 0 where
  pos : ℕ → ℤ
  negsuc : ℕ → ℤ

abbrev pub pos_part : ℤ → ℕ
pos_part (pos n) = n
pos_part (negsuc n) = 0

abbrev pub neg_part : ℤ → ℕ
neg_part (pos n) = 0
neg_part (negsuc n) = suc n

-- `a - b` of two numbers.
abbrev pub difference : ℕ → ℕ → ℤ
difference a b = if leb b a then pos (a - b) else negsuc (b - a - 1)

infixl 65 ◌-ℤ◌
infixl 70 ◌*ℤ◌ ◌%ℤ◌
unfoldable pub ◌-ℤ◌ : ℤ → ℤ → ℤ
a -ℤ b = difference (pos_part a + neg_part b) (neg_part a + pos_part b)

unfoldable pub ◌*ℤ◌ : ℤ → ℤ → ℤ
a *ℤ b =
    difference (pos_part a * pos_part b + neg_part a * neg_part b)
      (pos_part a * neg_part b + neg_part a * pos_part b)

-- The remainder that is not below zero.
unfoldable pub ◌%ℤ◌ : ℤ → ℕ → ℕ
pos n %ℤ m = n % m
negsuc n %ℤ m = m - 1 - n % m

-- The two parts of a difference and of a product with a number.
pub sub_parts :
    (a b : ℤ)
    → pos_part (a -ℤ b) + neg_part a + pos_part b ≡ neg_part (a -ℤ b) + pos_part a + neg_part b
unfolding ◌-ℤ◌
sub_parts a b = ground arith

pub mul_parts :
    (q : ℕ) (b : ℤ)
    → pos_part (pos q *ℤ b) + q * neg_part b ≡ neg_part (pos q *ℤ b) + q * pos_part b
unfolding ◌*ℤ◌
mul_parts q b = ground arith

pub mul_parts_right :
    (a : ℤ) (i : ℕ)
    → pos_part (a *ℤ pos i) + neg_part a * i ≡ neg_part (a *ℤ pos i) + pos_part a * i
unfolding ◌*ℤ◌
mul_parts_right a i = ground arith

-- A word is the number up to a multiple of 2 ^ 64.
pub word_lem : (z : ℤ) → Congruent (2 ^ 64) (z %ℤ 2 ^ 64 + neg_part z) (pos_part z)
unfolding ◌%ℤ◌
word_lem (pos n) = omega arith
word_lem (negsuc n) = omega arith

pub word-lt : (z : ℤ) → z %ℤ 2 ^ 64 < 2 ^ 64
unfolding ◌%ℤ◌
word-lt (pos n) = omega arith
word-lt (negsuc n) = omega arith

-- `& 0xFF`, the remainder by 256.
pub byte_lem : (z : ℤ) → Congruent 256 (z %ℤ 256 + neg_part z) (pos_part z)
unfolding ◌%ℤ◌
byte_lem (pos n) = omega arith
byte_lem (negsuc n) = omega arith

pub byte-lt : (z : ℤ) → z %ℤ 256 < 256
unfolding ◌%ℤ◌
byte-lt (pos n) = omega arith
byte-lt (negsuc n) = omega arith
