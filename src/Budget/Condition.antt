-- ===== src/Budget/Condition.antt =====
-- Status conditions of the Kubernetes API, as the controllers and the command line use them.
-- `meta.SetStatusCondition` belongs to a library: it is the parameter `set`, with the documented
-- behaviour that the code relies on. `LastTransitionTime` is left out: nothing here reads it.
use infercost.Base.{
  ◌≡◌, refl, Bool, false, ◌&&◌, Option, none, some, String, List, [], ◌∷◌, str_eq, str_eq_iff,
  if◌then◌else◌, any, arith, Bool-cases, inl, inr, str_ne_symm, or_false, ◌∙◌,
}

pub record Condition : Type 0 where
  pub type : String
  pub status : String
  pub reason : String
  pub message : String

abbrev pub condition_true : String
condition_true = "True"

abbrev pub condition_false : String
condition_false = "False"

-- `meta.FindStatusCondition`: the first condition of a type
abbrev pub find_condition : String → List Condition → Option Condition
find_condition t [] = none
find_condition t (c ∷ cs) = if str_eq c.type t then some c else find_condition t cs

abbrev pub SetCondition : Type 0
SetCondition = List Condition → Condition → List Condition

-- at most one condition of each type, as the API's list-map merge key demands
abbrev pub HasUniqueTypes : List Condition → Type 0
HasUniqueTypes [] = Unit
HasUniqueTypes (c ∷ cs) = (find_condition c.type cs ≡ none) × HasUniqueTypes cs

pub record IsSetCondition (set : SetCondition) : Type 0 where
  pub find_same : (cs : List Condition) (c : Condition) → find_condition c.type (set cs c) ≡ some c
  pub find_other :
      (cs : List Condition) (c : Condition) (t : String)
      → str_eq c.type t ≡ false
      → find_condition t (set cs c) ≡ find_condition t cs
  pub keeps_unique :
      (cs : List Condition) (c : Condition) → HasUniqueTypes cs → HasUniqueTypes (set cs c)

-- A function that behaves so: it replaces the condition of the type in its place, or appends.
abbrev pub set_in_place : SetCondition
set_in_place [] c = c ∷ []
set_in_place (d ∷ ds) c = if str_eq d.type c.type then c ∷ ds else d ∷ set_in_place ds c

set_in_place-find_same :
    (cs : List Condition) (c : Condition) → find_condition c.type (set_in_place cs c) ≡ some c
set_in_place-find_same [] c = ground (arith, str_eq_iff c.type c.type)
set_in_place-find_same (d ∷ ds) c =
    ground (arith, str_eq_iff c.type c.type, set_in_place-find_same ds c)

set_in_place-find_other :
    (cs : List Condition) (c : Condition) (t : String)
    → str_eq c.type t ≡ false
    → find_condition t (set_in_place cs c) ≡ find_condition t cs
set_in_place-find_other [] c t h = ground arith
set_in_place-find_other (d ∷ ds) c t h =
    ground (arith, str_eq_iff d.type c.type, set_in_place-find_other ds c t h)

set_in_place_unique :
    (cs : List Condition) (c : Condition) → HasUniqueTypes cs → HasUniqueTypes (set_in_place cs c)
set_in_place_unique [] c u = (refl, tt)
set_in_place_unique (d ∷ ds) c (none_d, u) = elim (Bool-cases (str_eq d.type c.type)) [
  | inl e ↦ rw e ((rw ((str_eq_iff d.type c.type).0 e) at none_d), u)
  | inr e ↦ rw e (
    (set_in_place-find_other ds c d.type (str_ne_symm d.type c.type e) ∙ none_d),
    set_in_place_unique ds c u,
  )
]

pub set_in_place-IsSetCondition : IsSetCondition set_in_place
set_in_place-IsSetCondition = record {
  find_same = set_in_place-find_same;
  find_other = set_in_place-find_other;
  keeps_unique = set_in_place_unique;
}

-- Whether a condition of the type holds, by what `find_condition` finds.
abbrev pub is_true_option : Option Condition → Bool
is_true_option none = false
is_true_option (some c) = str_eq c.status condition_true

abbrev pub holds : String → List Condition → Bool
holds t cs = is_true_option (find_condition t cs)

-- Where types are unique, a condition holds if any entry of its type does.
pub any-eq-holds :
    (t : String) (cs : List Condition)
    → HasUniqueTypes cs
    → any (λ c. str_eq c.type t && str_eq c.status condition_true) cs ≡ holds t cs
any-eq-holds t [] u = refl
any-eq-holds t (c ∷ cs) (fresh, u) = elim (Bool-cases (str_eq c.type t)) [
  | inl e ↦
      let same = (str_eq_iff c.type t).0 e in
      let gone : find_condition t cs ≡ none = rw same at fresh in
      rw (e, any-eq-holds t cs u, gone) (or_false (str_eq c.status condition_true))
  | inr e ↦ rw e (any-eq-holds t cs u)
]
