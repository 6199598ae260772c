-- ===== src/Utilization/Store/Bolt/Memory.antt =====
-- A database in memory that behaves as `Bolt` asks: an association list of buckets.
use infercost.Base.{
  ◌≡◌, refl, sym, ap, ◌∙◌, Bool-cases, inl, inr, Option, none, some, String, List, [], ◌∷◌, str_eq,
  str_eq_iff, any, if◌then◌else◌, arith, map,
}
use mathlib.Core.Path.{subst}
use infercost.Utilization.Store.Bolt.{Pair, put_pair, delete_pair, or_empty, is_some, Bolt, IsBolt}

abbrev pub Memory : Type 0
Memory = List (String × List Pair)

abbrev find_bucket : Memory → String → Option (List Pair)
find_bucket [] name = none
find_bucket ((n, ps) ∷ m) name = if str_eq n name then some ps else find_bucket m name

-- the pairs of a bucket changed, and a missing bucket made
abbrev change_bucket : (List Pair → List Pair) → String → Memory → Memory
change_bucket g name [] = (name, g []) ∷ []
change_bucket g name ((n, ps) ∷ m) =
    if str_eq n name then (n, g ps) ∷ m else (n, ps) ∷ change_bucket g name m

abbrev first : String × List Pair → String
first p = p.0

instance abbrev pub memory_bolt : Bolt Memory
memory_bolt = record {
  bucket = find_bucket;
  bucket_names = map first;
  create_bucket_if_not_exists = λ m name. some (change_bucket (λ ps. ps) name m);
  put = λ m name k v. some (change_bucket (put_pair k v) name m);
  delete = λ m name k. some (change_bucket (delete_pair k) name m);
}

find-change :
    (g : List Pair → List Pair) (m : Memory) (name other : String)
    → find_bucket (change_bucket g name m) other ≡ (
        if str_eq name other
        then some (g (or_empty (find_bucket m other)))
        else find_bucket m other)
find-change g [] name other = ground arith
find-change g ((n, ps) ∷ m) name other = ground (
  arith,
  find-change g m name other,
  str_eq_iff n name,
  str_eq_iff n other,
  str_eq_iff name other,
)

names-find :
    (m : Memory) (name : String)
    → any (λ n. str_eq n name) (map first m) ≡ is_some (find_bucket m name)
names-find [] name = refl
names-find ((n, ps) ∷ m) name = ground (arith, names-find m name)

some_inj : {A : Type 0} (a b : A) → Path (Option A) (some a) (some b) → a ≡ b
some_inj a b h = cc

change_some :
    (g : List Pair → List Pair) (d e : Memory) (name other : String)
    → Path (Option Memory) (some (change_bucket g name d)) (some e)
    → find_bucket e other ≡ (
        if str_eq name other
        then some (g (or_empty (find_bucket d other)))
        else find_bucket d other)
change_some g d e name other h =
    ap (λ m. find_bucket m other) (sym (some_inj (change_bucket g name d) e h))
    ∙ find-change g d name other

change_existing :
    (g : List Pair → List Pair) (d e : Memory) (name other : String) (ps : List Pair)
    → Path (Option Memory) (some (change_bucket g name d)) (some e)
    → find_bucket d name ≡ some ps
    → find_bucket e other ≡ (if str_eq name other then some (g ps) else find_bucket d other)
change_existing g d e name other ps h found = elim (Bool-cases (str_eq name other)) [
  | inl same ↦
      let there : find_bucket d other ≡ some ps =
        subst (λ n. find_bucket d n ≡ some ps) ((str_eq_iff name other).0 same) found in
      change_some g d e name other h ∙ rw (same, there) refl
  | inr differ ↦ change_some g d e name other h ∙ rw differ refl
]

pub Memory-IsBolt : IsBolt Memory
Memory-IsBolt = record {
  bucket-create = λ d e name other h. change_some (λ ps. ps) d e name other h;
  bucket-put = λ d e name other k v h. change_some (put_pair k v) d e name other h;
  bucket-delete = λ d e name other k ps h. change_existing (delete_pair k) d e name other ps h;
  names-bucket = names-find;
}
