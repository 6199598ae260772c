-- ===== src/Focus/Export/Sorted.antt =====
-- internal/focus/focus.go and internal/controller/usagereport_controller.go: sorting forgets the order
-- of its input where the comparison tells the elements apart.
use mathlib.Core.Path.{ap₂, subst}
use mathlib.Core.List.{Perm, Permᴰ, Pairwise, mem-cons_self}
use mathlib.Core.List.Permᴰ
use mathlib.Core.List.Perm
use mathlib.Core.Logic.{∥∥₁_elim}
use mathlib.Core.HLevel.{prop→set}
use text.Mathlib.TextEquality.{IsScalar-prop}
use Prim.Native.Char.{IsScalar}
use infercost.Base.{
  ℕ, Bool, true, false, ◌≡◌, refl, sym, ap, ◌∙◌, List, [], ◌∷◌, ◌⊎◌, ◌↔◌, inl, inr, Bool-cases,
  String, str_lt, str_lt_trans, str_lt-asymm, str_lt_connected,
}
use infercost.Focus.Export.{insert_sorted, sort_slice}

pub IsScalar-set : (n : ℕ) → IsSet (IsScalar n)
IsScalar-set n = prop→set (IsScalar-prop n)

-- a comparison that sorts
pub record IsStrict {A : Type 0} (less : A → A → Bool) : Type 0 where
  pub trans : (a b c : A) → less a b ≡ true → less b c ≡ true → less a c ≡ true
  pub asymm : (a b : A) → less a b ≡ true → less b a ≡ false

-- the comparison orders two elements, or they are one
abbrev pub IsTold : {A : Type 0} → (A → A → Bool) → A → A → Type 0
IsTold less a b = (less a b ≡ true) ⊎ (less b a ≡ true) ⊎ (a ≡ b)

module _ {A : Type 0} {less : A → A → Bool} (strict : IsStrict less) where
  open strict use {trans, asymm}

  insert_comm :
      (x y : A) (l : List A)
      → less x y ≡ true
      → insert_sorted less x (insert_sorted less y l)
        ≡ insert_sorted less y (insert_sorted less x l)
  unfolding insert_sorted
  insert_comm x y [] h = rw (h, asymm x y h) refl
  insert_comm x y (z ∷ l) h = elim (Bool-cases (less z x)) [
    | inl e ↦ rw (e, trans z x y e h) (rw e (ap (◌∷◌ z) (insert_comm x y l h)))
    | inr e ↦ elim (Bool-cases (less z y)) [
      | inl g ↦ rw (e, g) (rw e (rw h refl))
      | inr g ↦ rw (e, g, asymm x y h) (rw h refl)
    ]
  ]

  insert_comm_of_told :
      (x y : A) (l : List A)
      → IsTold less x y
      → insert_sorted less x (insert_sorted less y l)
        ≡ insert_sorted less y (insert_sorted less x l)
  insert_comm_of_told x y l (inl h) = insert_comm x y l h
  insert_comm_of_told x y l (inr (inl h)) = sym (insert_comm y x l h)
  insert_comm_of_told x y l (inr (inr e)) = cc

  module _ (Apart : A → A → Type 0) (apart_prop : (a b : A) → IsProp (Apart a b))
      (apart_symm : (a b : A) → Apart a b → Apart b a)
      (told : (a b : A) → Apart a b → IsTold less a b) where
    -- the input's order is forgotten
    pub sort_slice-permᴰ :
        {xs ys : List A} → Permᴰ xs ys → Pairwise Apart xs → sort_slice less xs ≡ sort_slice less ys
    unfolding sort_slice
    sort_slice-permᴰ Permᴰ.nil h = refl
    sort_slice-permᴰ (Permᴰ.cons e p) (Pairwise.cons h hs) =
        ap₂ (insert_sorted less) e (sort_slice-permᴰ p hs)
    sort_slice-permᴰ (Permᴰ.swap {a = a} {b = b} {l = l} e g) (Pairwise.cons h hs) =
        insert_comm_of_told a b (sort_slice less l) (told a b (h b mem-cons_self))
        ∙ ap₂ (λ u v. insert_sorted less u (insert_sorted less v (sort_slice less l))) g e
    sort_slice-permᴰ (Permᴰ.trans p q) h =
        sort_slice-permᴰ p h ∙ sort_slice-permᴰ q (Permᴰ.pairwise apart_prop apart_symm p h)

insert_sorted-perm :
    {A : Type 0} (less : A → A → Bool) (x : A) (l : List A) → Perm (insert_sorted less x l) (x ∷ l)
unfolding insert_sorted
insert_sorted-perm less x [] = Perm.rfl
insert_sorted-perm less x (y ∷ ys) = elim (Bool-cases (less y x)) [
  | inl e ↦ rw e (Perm.trans (Perm.cons y (insert_sorted-perm less x ys)) (Perm.swap x y ys))
  | inr e ↦ rw e Perm.rfl
]

sort_slice-perm : {A : Type 0} (less : A → A → Bool) (l : List A) → Perm (sort_slice less l) l
unfolding sort_slice
sort_slice-perm less [] = Perm.rfl
sort_slice-perm less (x ∷ xs) =
    Perm.trans (insert_sorted-perm less x (sort_slice less xs))
      (Perm.cons x (sort_slice-perm less xs))

str_lt-IsStrict : IsStrict str_lt
str_lt-IsStrict = record { trans = str_lt_trans; asymm = str_lt-asymm }

IsTold-of_text : (a b : String) → IsTold str_lt a b
IsTold-of_text a b = elim (Bool-cases (str_lt a b)) [
  | inl e ↦ inl e
  | inr e ↦ elim (Bool-cases (str_lt b a)) [
    | inl g ↦ inr (inl g)
    | inr g ↦ inr (inr (str_lt_connected a b e g))
  ]
]

abbrev IsAnyPair : String → String → Type 0
IsAnyPair a b = Unit

all_apart : (l : List String) → Pairwise IsAnyPair l
all_apart [] = Pairwise.nil
all_apart (x ∷ xs) = Pairwise.cons (λ a m. tt) (all_apart xs)

-- two lists of texts sort to one list just where one is a rearrangement of the other
pub sorted_texts_iff :
    (xs ys : List String) → (sort_slice str_lt xs ≡ sort_slice str_lt ys) ↔ Perm xs ys
sorted_texts_iff xs ys = (
  λ e.
      Perm.trans (Perm.symm (sort_slice-perm str_lt xs))
        (subst (λ (l : List String). Perm l ys) (sym e) (sort_slice-perm str_lt ys)),
  λ p. ∥∥₁_elim p (hlevel IsScalar-set) (λ q.
      sort_slice-permᴰ str_lt-IsStrict IsAnyPair (λ a b. hlevel) (λ a b u. tt)
        (λ a b u. IsTold-of_text a b) q (all_apart xs)),
)
