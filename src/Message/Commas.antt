-- ===== src/Message/Commas.antt =====
-- `withCommas` of internal/report/message.go adds separators and changes nothing else.
use infercost.Base.{
  ℕ, suc, ◌+◌, ◌/◌, ◌%◌, ◌==◌, ◌≡◌, refl, sym, ap, Bool, true, false, not, ◌&&◌, Bool-cases, inl,
  inr, List, [], ◌∷◌, length, keep, All, arith, ==_iff,
}
use infercost.Message.{comma, minus, group_digits, with_commas}

abbrev pub is_no_comma : ℕ → Bool
is_no_comma c = not (c == comma)

-- no separator yet
abbrev pub HasNoComma : ℕ → Type 0
HasNoComma c = is_no_comma c ≡ true

keep-group_digits :
    (first : Bool) (cs : List ℕ) → All HasNoComma cs → keep is_no_comma (group_digits first cs) ≡ cs
unfolding group_digits
keep-group_digits first [] h = refl
keep-group_digits first (c ∷ cs) (h, hs) =
    elim (Bool-cases (not first && (length (c ∷ cs) % 3 == 0))) [
      | inl e ↦ rw (e, h, keep-group_digits false cs hs) refl
      | inr e ↦ rw (e, h, keep-group_digits false cs hs) refl
    ]

-- so many separators before the digits that are left
length-group_digits_rest :
    (cs : List ℕ) → length (group_digits false cs) ≡ length cs + length cs / 3
unfolding group_digits
length-group_digits_rest [] = refl
length-group_digits_rest (c ∷ cs) = ground (arith, length-group_digits_rest cs)

length-group_digits :
    (c : ℕ) (cs : List ℕ) → length (group_digits true (c ∷ cs)) ≡ suc (length cs + length cs / 3)
unfolding group_digits
length-group_digits c cs = ground (arith, length-group_digits_rest cs)

-- Without its separators the result is the text again, for a text that has none, with a sign or
-- without one.
pub with_commas-keep :
    (c : ℕ) (cs : List ℕ)
    → All HasNoComma (c ∷ cs)
    → keep is_no_comma (with_commas (c ∷ cs)) ≡ c ∷ cs
unfolding with_commas
with_commas-keep c cs (h, hs) = elim (Bool-cases (c == minus)) [
  | inl e ↦
      let same = (==_iff c minus).0 e in
      rw (e, keep-group_digits true cs hs) (ap (λ x. x ∷ cs) (sym same))
  | inr e ↦ rw e (keep-group_digits true (c ∷ cs) (h, hs))
]

-- A text of `n + 1` digits without a sign gets one separator for each three digits behind the first.
pub length-with_commas :
    (c : ℕ) (cs : List ℕ)
    → (c == minus) ≡ false
    → length (with_commas (c ∷ cs)) ≡ suc (length cs + length cs / 3)
unfolding with_commas
length-with_commas c cs n = rw n (length-group_digits c cs)
