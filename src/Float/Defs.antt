-- ===== src/Float/Defs.antt =====
-- The operations of `float64` and the facts of IEEE 754 about its order.
use infercost.Base.{
  ℕ, ◌-◌, ◌≤◌, ◌<◌, ◌≡◌, Bool, true, false, if◌then◌else◌, String, ltb, u64_mod, i64_min,
}

-- The comparisons are Go's `<`, `<=` and `==`, false at NaN.
pub record Float64 (F : Type 0) : Type 0 where
  pub add : F → F → F
  pub sub : F → F → F
  pub mul : F → F → F
  pub div : F → F → F
  pub neg : F → F
  pub lt : F → F → Bool
  pub le : F → F → Bool
  pub eq : F → F → Bool
  -- an integer literal, and `float64(n)` of an integer that is not negative
  pub of_nat : ℕ → F
  -- the literal m / 10^k
  pub dec : ℕ → ℕ → F
  -- neither NaN nor an infinity
  pub finite : F → Bool
  -- `int64(x)`, as a bit pattern
  pub to_int64 : F → ℕ
  -- `math.Round`
  pub round : F → F
  -- `math.Float64bits` and `math.Float64frombits`
  pub bits : F → ℕ
  pub from_bits : ℕ → F
  -- `strconv.FormatFloat` with verb `f`: with so many decimals, and with as many as needed
  pub fixed : ℕ → F → String
  pub shortest : F → String

infix 4 ◌≼◌ ◌≺◌
abbrev pub ◌≼◌ : {F : Type 0} ⦃f : Float64 F⦄ → F → F → Type 0
◌≼◌ ⦃f⦄ x y = f.le x y ≡ true

abbrev pub ◌≺◌ : {F : Type 0} ⦃f : Float64 F⦄ → F → F → Type 0
◌≺◌ ⦃f⦄ x y = f.lt x y ≡ true

-- Facts of IEEE 754 arithmetic with rounding to nearest. A number that is not NaN is `≼` itself.
pub record IsOrdered (F : Type 0) ⦃f : Float64 F⦄ : Type 0 where
  pub le_trans : (a b c : F) → a ≼ b → b ≼ c → a ≼ c
  pub le_of_lt : (a b : F) → a ≺ b → a ≼ b
  pub le_of_not_lt : (a b : F) → a ≼ a → b ≼ b → f.lt a b ≡ false → b ≼ a
  pub le_refl_of_le : (a b : F) → a ≼ b → (a ≼ a) × (b ≼ b)
  pub not_lt_of_le : (a b : F) → a ≼ b → f.lt b a ≡ false
  pub not_le_of_lt : (a b : F) → a ≺ b → f.le b a ≡ false
  pub lt_of_lt_of_le : (a b c : F) → a ≺ b → b ≼ c → a ≺ c
  pub of_nat_mono : (m n : ℕ) → m ≤ n → f.of_nat m ≼ f.of_nat n
  pub of_nat_pos : (n : ℕ) → 0 < n → f.of_nat 0 ≺ f.of_nat n
  pub add_mono :
      (a b c d : F) → f.of_nat 0 ≼ a → a ≼ b → f.of_nat 0 ≼ c → c ≼ d → f.add a c ≼ f.add b d
  pub le-add : (a b : F) → f.of_nat 0 ≼ a → f.of_nat 0 ≼ b → a ≼ f.add a b
  pub le-add_left : (a b : F) → f.of_nat 0 ≼ a → f.of_nat 0 ≼ b → b ≼ f.add a b
  pub mul_nonneg :
      (a b : F)
      → f.of_nat 0 ≼ a
      → f.finite a ≡ true
      → f.of_nat 0 ≼ b
      → f.finite b ≡ true
      → f.of_nat 0 ≼ f.mul a b
  -- a numeral is finite and positive, so the quotient is not NaN
  pub div_nat_nonneg :
      (a : F) (n : ℕ) → f.of_nat 0 ≼ a → 0 < n → n < u64_mod → f.of_nat 0 ≼ f.div a (f.of_nat n)
  -- an infinity times 0 is NaN
  pub mul_nat_mono :
      (a b : F) (n : ℕ) → a ≼ b → 0 < n → n < u64_mod → f.mul a (f.of_nat n) ≼ f.mul b (f.of_nat n)
  pub one_mul_nat : (n : ℕ) → f.mul (f.of_nat 1) (f.of_nat n) ≡ f.of_nat n
  pub finite_num : (a : F) → f.finite a ≡ true → a ≼ a
  pub sub_finite :
      (a b : F)
      → f.of_nat 0 ≼ a
      → f.finite a ≡ true
      → f.of_nat 0 ≼ b
      → f.finite b ≡ true
      → f.finite (f.sub a b) ≡ true
  pub div_nonneg :
      (a b : F) → f.of_nat 0 ≼ a → f.finite a ≡ true → f.of_nat 0 ≺ b → f.of_nat 0 ≼ f.div a b
  pub div_nats_pos :
      (m n : ℕ) → 0 < m → 0 < n → n < u64_mod → f.of_nat 0 ≺ f.div (f.of_nat m) (f.of_nat n)
  pub one-le-div : (a b : F) → f.of_nat 0 ≺ b → f.finite b ≡ true → b ≼ a → f.of_nat 1 ≼ f.div a b

module _ {F : Type 0} ⦃f : Float64 F⦄ where
  -- `float64(x)` of an `int64` bit pattern
  unfoldable pub of_int64 : ℕ → F
  of_int64 x = if ltb x i64_min then f.of_nat x else f.neg (f.of_nat (u64_mod - x))
