-- ===== src/Base/Text.antt =====
-- Facts on the comparison of texts.
use Prim.Native.String.{String}
use mathlib.Core.Path.{◌≡◌, refl, sym}
use mathlib.Core.Bool.{Bool, true, false, ◌||◌}
use mathlib.Core.Logic.{inl, inr}
use text.Mathlib.Text.{◌==◌ as str_eq}
use text.Mathlib.TextEquality.{eq_iff as str_eq_iff}
use infercost.Base.Tests.{Bool-cases}

pub str_ne_symm : (a b : String) → str_eq a b ≡ false → str_eq b a ≡ false
str_ne_symm a b h = elim (Bool-cases (str_eq b a)) [
  | inl e ↦ let back = (str_eq_iff a b).1 (sym ((str_eq_iff b a).0 e)) in cc
  | inr e ↦ e
]

pub or_false : (b : Bool) → (b || false) ≡ b
or_false true = refl
or_false false = refl
