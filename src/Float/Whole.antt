-- ===== src/Float/Whole.antt =====
-- Whole numbers of either sign with a division that rounds up: an arithmetic in which all
-- the named facts hold. It stands in the place of `float64` where theorems are applied.
use infercost.Base.{
  ℕ, suc, ◌+◌, ◌-◌, ◌*◌, ◌/◌, ◌^◌, true, if◌then◌else◌, ltb, leb, ◌==◌, arith, ◌<◌, ◌≤◌, u64_mod,
  i64_min,
}
use native.Mathlib.Nat.{div-add-mod, mod-lt, mul-le-mul, le_refl}
use infercost.Float.Defs.{Float64, IsOrdered, ◌≼◌, ◌≺◌}

pub data Whole : Type 0 where
  pos : ℕ → Whole
  negsuc : ℕ → Whole

abbrev pub pos_part : Whole → ℕ
pos_part (pos n) = n
pos_part (negsuc n) = 0

abbrev pub neg_part : Whole → ℕ
neg_part (pos n) = 0
neg_part (negsuc n) = suc n

abbrev diff : ℕ → ℕ → Whole
diff a b = if leb b a then pos (a - b) else negsuc (b - a - 1)

abbrev quotient : Whole → Whole → Whole
quotient (pos a) (pos b) = pos ((a + (b - 1)) / b)
quotient (pos a) (negsuc b) = diff 0 (a / suc b)
quotient (negsuc a) (pos b) = diff 0 (suc a / b)
quotient (negsuc a) (negsuc b) = pos (suc a / suc b)

abbrev to_word : Whole → ℕ
to_word (pos n) = n
to_word (negsuc n) = u64_mod - suc n

abbrev of_word : ℕ → Whole
of_word n = if ltb n i64_min then pos n else negsuc (u64_mod - n - 1)

instance abbrev pub whole_float : Float64 Whole
whole_float = record {
  add = λ a b. diff (pos_part a + pos_part b) (neg_part a + neg_part b);
  sub = λ a b. diff (pos_part a + neg_part b) (neg_part a + pos_part b);
  mul = λ a b.
      diff (pos_part a * pos_part b + neg_part a * neg_part b)
        (pos_part a * neg_part b + neg_part a * pos_part b);
  div = quotient;
  neg = λ a. diff (neg_part a) (pos_part a);
  lt = λ a b. ltb (pos_part a + neg_part b) (pos_part b + neg_part a);
  le = λ a b. leb (pos_part a + neg_part b) (pos_part b + neg_part a);
  eq = λ a b. pos_part a + neg_part b == pos_part b + neg_part a;
  of_nat = pos;
  dec = λ m k. pos (m / 10 ^ k);
  finite = λ a. true;
  to_int64 = to_word;
  round = λ a. a;
  bits = to_word;
  from_bits = of_word;
  fixed = λ k a. "";
  shortest = λ a. "";
}

one_le_div : (a b : ℕ) → 0 < b → b ≤ a → 1 ≤ a / b
one_le_div a b h k = grind (arith, div-add-mod, mod-lt)

-- Sign by sign.
mul_nonneg_lem :
    (a b : Whole)
    → whole_float.of_nat 0 ≼ a
    → whole_float.of_nat 0 ≼ b
    → whole_float.of_nat 0 ≼ whole_float.mul a b
mul_nonneg_lem (pos a) (pos b) h k = ground arith
mul_nonneg_lem (pos a) (negsuc b) h k = ground arith
mul_nonneg_lem (negsuc a) b h k = ground arith

mul_nat_mono_lem :
    (a b : Whole) (n : ℕ)
    → a ≼ b
    → whole_float.mul a (whole_float.of_nat n) ≼ whole_float.mul b (whole_float.of_nat n)
mul_nat_mono_lem (pos a) (pos b) n h =
    let base : a ≤ b = ground arith in ground (arith, mul-le-mul base (le_refl n))
mul_nat_mono_lem (pos a) (negsuc b) n h = ground arith
mul_nat_mono_lem (negsuc a) (pos b) n h = grind arith
mul_nat_mono_lem (negsuc a) (negsuc b) n h =
    let base : suc b ≤ suc a = ground arith in ground (arith, mul-le-mul base (le_refl n))

one_le_quotient :
    (a b : Whole) → whole_float.of_nat 0 ≺ b → b ≼ a → whole_float.of_nat 1 ≼ quotient a b
one_le_quotient (pos a) (pos b) h k = ground (arith, one_le_div (a + (b - 1)) b)
one_le_quotient (negsuc a) (pos b) h k = ground arith
one_le_quotient a (negsuc b) h k = ground arith

-- The named facts hold of the whole numbers.
pub Whole-IsOrdered : IsOrdered Whole
Whole-IsOrdered = record {
  le_trans = λ a b c h k. ground arith;
  le_of_lt = λ a b h. ground arith;
  le_of_not_lt = λ a b h k l. ground arith;
  le_refl_of_le = λ a b h. ground arith;
  not_lt_of_le = λ a b h. ground arith;
  not_le_of_lt = λ a b h. ground arith;
  lt_of_lt_of_le = λ a b c h k. ground arith;
  of_nat_mono = λ m n h. ground arith;
  of_nat_pos = λ n h. ground arith;
  add_mono = λ a b c d h k l m. ground arith;
  le-add = λ a b h k. ground arith;
  le-add_left = λ a b h k. ground arith;
  mul_nonneg = λ a b h k l m. mul_nonneg_lem a b h l;
  div_nat_nonneg = λ a n h k l. ground arith;
  mul_nat_mono = λ a b n h k l. mul_nat_mono_lem a b n h;
  one_mul_nat = λ n. ground arith;
  finite_num = λ a h. ground arith;
  sub_finite = λ a b h k l m. ground arith;
  div_nonneg = λ a b h k l. ground arith;
  div_nats_pos = λ m n h k l. ground (arith, one_le_div (m + (n - 1)) n);
  one-le-div = λ a b h k l. one_le_quotient a b h l;
}
