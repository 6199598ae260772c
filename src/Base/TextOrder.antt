-- ===== src/Base/TextOrder.antt =====
-- The order of texts by their characters, as Go's `<` on strings.
use Prim.Native.Nat.{ℕ, Ordering, compare as compare_nat}
use Prim.Native.Char.{Char, code}
use Prim.Native.String.{String, [], ◌∷◌, compare, then}
use Prim.Native.String.compare
use mathlib.Core.Path.{◌≡◌, refl, sym, ap, ap₂, ◌∙◌}
use mathlib.Core.Bool.{Bool, true, false, false≢true, ◌||◌, ◌&&◌}
use native.Mathlib.Omega.{arith}
use text.Mathlib.Text.{is_lt}
use text.Mathlib.TextEquality.{Char-path}
use infercost.Base.Tests.{ltb, ◌==◌}

abbrev pub str_lt : String → String → Bool
str_lt a b = is_lt (compare a b)

-- the first characters decide unless they are one
is_lt-then :
    (c d : ℕ) (o : Ordering) → is_lt (then (compare_nat c d) o) ≡ (ltb c d || (c == d && is_lt o))
is_lt-then c d o = go (compare_nat c d) refl
  where
    go : (p : Ordering) → compare_nat c d ≡ p → is_lt (then p o) ≡ (ltb c d || (c == d && is_lt o))
    go Ordering.lt e = ground (arith, e)
    go Ordering.eq e = ground (arith, e)
    go Ordering.gt e = ground (arith, e)

str_lt-cons :
    (c d : Char) (s t : String)
    → str_lt (c ∷ s) (d ∷ t) ≡ (ltb (code c) (code d) || (code c == code d && str_lt s t))
str_lt-cons c d s t =
    ap is_lt (compare.cons-cons c d s t) ∙ is_lt-then (code c) (code d) (compare s t)

lt_trans :
    (a b c : ℕ) (x y z : Bool)
    → (x ≡ true → y ≡ true → z ≡ true)
    → (ltb a b || (a == b && x)) ≡ true
    → (ltb b c || (b == c && y)) ≡ true
    → (ltb a c || (a == c && z)) ≡ true
lt_trans a b c x y z h p q = ground arith

str_lt_empty : (s : String) → str_lt s [] ≡ false
str_lt_empty [] = ap is_lt compare.nil-nil
str_lt_empty (c ∷ s) = ap is_lt (compare.cons-nil c s)

empty-str_lt : (c : Char) (s : String) → str_lt [] (c ∷ s) ≡ true
empty-str_lt c s = ap is_lt (compare.nil-cons c s)

pub str_lt_trans : (a b c : String) → str_lt a b ≡ true → str_lt b c ≡ true → str_lt a c ≡ true
str_lt_trans s t [] p q = absurd (false≢true (sym (str_lt_empty t) ∙ q))
str_lt_trans s [] u p q = absurd (false≢true (sym (str_lt_empty s) ∙ p))
str_lt_trans [] t (e ∷ u) p q = empty-str_lt e u
str_lt_trans (c ∷ s) (d ∷ t) (e ∷ u) p q = rw str_lt-cons (
    lt_trans (code c) (code d) (code e) (str_lt s t) (str_lt t u) (str_lt s u) (str_lt_trans s t u)
      (sym (str_lt-cons c d s t) ∙ p) (sym (str_lt-cons d e t u) ∙ q))

lt_asymm :
    (a b : ℕ) (x y : Bool)
    → (x ≡ true → y ≡ false)
    → (ltb a b || (a == b && x)) ≡ true
    → (ltb b a || (b == a && y)) ≡ false
lt_asymm a b x y h p = ground arith

pub str_lt-asymm : (a b : String) → str_lt a b ≡ true → str_lt b a ≡ false
str_lt-asymm s [] p = absurd (false≢true (sym (str_lt_empty s) ∙ p))
str_lt-asymm [] (d ∷ t) p = str_lt_empty (d ∷ t)
str_lt-asymm (c ∷ s) (d ∷ t) p = rw str_lt-cons (
    lt_asymm (code c) (code d) (str_lt s t) (str_lt t s) (str_lt-asymm s t)
      (sym (str_lt-cons c d s t) ∙ p))

lt_connected :
    (a b : ℕ) (x y : Bool)
    → (ltb a b || (a == b && x)) ≡ false
    → (ltb b a || (b == a && y)) ≡ false
    → (a ≡ b) × (x ≡ false) × (y ≡ false)
lt_connected a b x y p q = ground arith

-- of two texts one is before the other, or they are one
pub str_lt_connected : (a b : String) → str_lt a b ≡ false → str_lt b a ≡ false → a ≡ b
str_lt_connected [] [] p q = refl
str_lt_connected [] (d ∷ t) p q = absurd (false≢true (sym p ∙ empty-str_lt d t))
str_lt_connected (c ∷ s) [] p q = absurd (false≢true (sym q ∙ empty-str_lt c s))
str_lt_connected (c ∷ s) (d ∷ t) p q =
    let (codes, less, more) =
      lt_connected (code c) (code d) (str_lt s t) (str_lt t s) (sym (str_lt-cons c d s t) ∙ p)
        (sym (str_lt-cons d c t s) ∙ q) in
    ap₂ ◌∷◌ (Char-path c d codes) (str_lt_connected s t less more)
