-- ===== src/Base/Cut.antt =====
-- A text cut at the first place of a character.
use Prim.Native.Char.{Char, code}
use Prim.Native.String.{String, [], ◌∷◌, ◌++◌ as cat}
use mathlib.Core.Path.{◌≡◌, refl, ap, ◌∙◌}
use mathlib.Core.Bool.{Bool, true, false, not, ◌&&◌}
use native.Mathlib.Omega.{arith}
use text.Mathlib.TextLemmas.{nil-append, cons-append}
use infercost.Base.Tests.{◌==◌, if◌then◌else◌}

-- no character of the text is this one
abbrev pub lacks : Char → String → Bool
lacks c [] = true
lacks c (d ∷ s) = not (code d == code c) && lacks c s

abbrev pub text_before : Char → String → String
text_before c [] = []
text_before c (d ∷ s) = let rest = text_before c s in if code d == code c then [] else d ∷ rest

abbrev pub text_after : Char → String → String
text_after c [] = []
text_after c (d ∷ s) = let rest = text_after c s in if code d == code c then s else rest

lacks-cons :
    (c d : Char) (s : String)
    → lacks c (d ∷ s) ≡ true
    → ((code d == code c) ≡ false) × (lacks c s ≡ true)
lacks-cons c d s h = ground arith

cat-single : (c : Char) (x : String) → cat (c ∷ []) x ≡ c ∷ x
cat-single c x = cons-append c [] x ∙ ap (◌∷◌ c) (nil-append x)

same_code : (c : Char) → (code c == code c) ≡ true
same_code c = ground arith

text_before-here : (c : Char) (x : String) → text_before c (c ∷ x) ≡ []
text_before-here c x = rw (same_code c) refl

text_after-here : (c : Char) (x : String) → text_after c (c ∷ x) ≡ x
text_after-here c x = rw (same_code c) refl

text_before-there :
    (c d : Char) (s : String)
    → (code d == code c) ≡ false
    → text_before c (d ∷ s) ≡ d ∷ text_before c s
text_before-there c d s h = rw h refl

text_after-there :
    (c d : Char) (s : String) → (code d == code c) ≡ false → text_after c (d ∷ s) ≡ text_after c s
text_after-there c d s h = rw h refl

pub text_before-cat :
    (c : Char) (a x : String) → lacks c a ≡ true → text_before c (cat a (cat (c ∷ []) x)) ≡ a
text_before-cat c [] x h =
    ap (text_before c) (nil-append (cat (c ∷ []) x) ∙ cat-single c x) ∙ text_before-here c x
text_before-cat c (d ∷ a) x h =
    let (other, rest) = lacks-cons c d a h in
    ap (text_before c) (cons-append d a (cat (c ∷ []) x))
    ∙ text_before-there c d (cat a (cat (c ∷ []) x)) other
    ∙ ap (◌∷◌ d) (text_before-cat c a x rest)

pub text_after-cat :
    (c : Char) (a x : String) → lacks c a ≡ true → text_after c (cat a (cat (c ∷ []) x)) ≡ x
text_after-cat c [] x h =
    ap (text_after c) (nil-append (cat (c ∷ []) x) ∙ cat-single c x) ∙ text_after-here c x
text_after-cat c (d ∷ a) x h =
    let (other, rest) = lacks-cons c d a h in
    ap (text_after c) (cons-append d a (cat (c ∷ []) x))
    ∙ text_after-there c d (cat a (cat (c ∷ []) x)) other
    ∙ text_after-cat c a x rest
