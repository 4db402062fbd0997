-- ===== src/Prelude/Int.antt =====
-- The signed `int` of the program, over the native numbers, under the library's names.
use dbal.Prelude.{ℕ, suc, ◌+◌, ◌-◌, ◌*◌, min, ◌≡◌, Bool, ltb, leb, arith, if◌then◌else◌}

-- `negsuc n` is -(n + 1).
pub data ℤ : Type 0 where
  pos : ℕ → ℤ
  negsuc : ℕ → ℤ

abbrev pub pos_part : ℤ → ℕ
pos_part (pos n) = n
pos_part (negsuc n) = 0

abbrev pub neg_part : ℤ → ℕ
neg_part (pos n) = 0
neg_part (negsuc n) = suc n

-- a - b, as an integer.
abbrev pub sub_ℕ : ℕ → ℕ → ℤ
sub_ℕ a b = if leb b a then pos (a - b) else negsuc (b - a - 1)

infixl 65 ◌+ℤ◌ ◌-ℤ◌
infixl 70 ◌*ℤ◌
unfoldable pub ◌+ℤ◌ : ℤ → ℤ → ℤ
a +ℤ b = sub_ℕ (pos_part a + pos_part b) (neg_part a + neg_part b)

unfoldable pub ◌-ℤ◌ : ℤ → ℤ → ℤ
a -ℤ b = sub_ℕ (pos_part a + neg_part b) (neg_part a + pos_part b)

unfoldable pub ◌*ℤ◌ : ℤ → ℤ → ℤ
a *ℤ b =
    sub_ℕ (pos_part a * pos_part b + neg_part a * neg_part b)
      (pos_part a * neg_part b + neg_part a * pos_part b)

unfoldable pub ltb_ℤ : ℤ → ℤ → Bool
ltb_ℤ a b = ltb (pos_part a + neg_part b) (pos_part b + neg_part a)

unfoldable pub min_ℤ : ℤ → ℤ → ℤ
unfolding ltb_ℤ
min_ℤ a b = if ltb_ℤ b a then b else a

-- On numbers that are not negative the operations are those of the naturals.
pub pos-suc-sub-one : (n : ℕ) → pos (suc n) -ℤ pos 1 ≡ pos n
unfolding ◌-ℤ◌
pos-suc-sub-one n = ground arith

pub pos-mul-pos : (a b : ℕ) → pos a *ℤ pos b ≡ pos (a * b)
unfolding ◌*ℤ◌
pos-mul-pos a b = ground arith

pub pos-add-pos : (a b : ℕ) → pos a +ℤ pos b ≡ pos (a + b)
unfolding ◌+ℤ◌
pos-add-pos a b = ground arith

pub pos-lt-pos : (a b : ℕ) → ltb_ℤ (pos a) (pos b) ≡ ltb a b
unfolding ltb_ℤ
pos-lt-pos a b = ground arith

pub min-pos-pos : (a b : ℕ) → min_ℤ (pos a) (pos b) ≡ pos (min a b)
unfolding min_ℤ
min-pos-pos a b = ground arith
