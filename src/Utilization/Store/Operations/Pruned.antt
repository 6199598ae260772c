-- ===== src/Utilization/Store/Operations/Pruned.antt =====
-- What is left of each bucket after `Prune`.
use Prim.Native.Nat.{Ordering}
use infercost.Base.{
  ℕ, ◌≡◌, refl, sym, ap, ◌∙◌, Bool, true, false, Bool-cases, inl, inr, Option, none, some, String,
  List, [], ◌∷◌, str_eq, str_eq_refl, str_eq_iff, any, if◌then◌else◌, arith,
}
use mathlib.Core.Path.{subst}
use infercost.Utilization.Store.Codec.{Bytes, compare_bytes, bytes_lt, make_key}
use infercost.Utilization.Store.Bolt.{Pair, delete_pair, is_some, Bolt, IsBolt}
use infercost.Utilization.Store.Operations.{
  seek, stale_keys, on_success, delete_keys, prune_bucket, prune_buckets, prune,
}

compare_bytes_refl : (k : Bytes) → compare_bytes k k ≡ Ordering.eq
unfolding compare_bytes
compare_bytes_refl [] = refl
compare_bytes_refl (x ∷ xs) = ground (arith, compare_bytes_refl xs)

abbrev pub map_option : {A B : Type 0} → (A → B) → Option A → Option B
map_option g none = none
map_option g (some a) = some (g a)

seek_twice : (k : Bytes) (ps : List Pair) → seek k (seek k ps) ≡ seek k ps
unfolding seek
seek_twice k [] = refl
seek_twice k ((j, u) ∷ ps) = elim (Bool-cases (bytes_lt j k)) [
  | inl e ↦ rw e (seek_twice k ps)
  | inr e ↦ rw (e, e) refl
]

delete_pair-first : (j u : Bytes) (ps : List Pair) → delete_pair j ((j, u) ∷ ps) ≡ ps
unfolding delete_pair
delete_pair-first j u ps = rw (compare_bytes_refl j) refl

some_inj : {A : Type 0} (x y : A) → Path (Option A) (some x) (some y) → x ≡ y
some_inj x y h = cc

-- the buckets of other names differ by nothing
other_branch :
    {A : Type 0} (name other : String) (x y z : A)
    → (str_eq name other ≡ false → y ≡ z)
    → (if str_eq name other then x else y) ≡ (if str_eq name other then x else z)
other_branch name other x y z h = elim (Bool-cases (str_eq name other)) [
  | inl same ↦ rw same refl
  | inr differ ↦ rw differ (h differ)
]

pub on_success-some :
    {A B : Type 0} (o : Option A) (g : A → Option B) (e : B)
    → on_success o g ≡ some e
    → (a : A) × (o ≡ some a) × (g a ≡ some e)
on_success-some none g e h = ground arith
on_success-some (some a) g e h = (a, refl, h)

-- a bucket that was cut is not cut again
already :
    (k : Bytes) (t : Bool) (o : Option (List Pair))
    → (if t then map_option (seek k) (map_option (seek k) o) else map_option (seek k) o)
      ≡ map_option (seek k) o
already k true none = refl
already k true (some ps) = ap some (seek_twice k ps)
already k false o = refl

where_some :
    (g : List Pair → List Pair) (o : Option (List Pair))
    → (if is_some o then map_option g o else o) ≡ map_option g o
where_some g none = refl
where_some g (some ps) = refl

module _ {D : Type 0} ⦃b : Bolt D⦄ (laws : IsBolt D) where
  same_bucket :
      (name other : String) (o : Option (List Pair)) (d : D)
      → b.bucket d name ≡ o
      → b.bucket d other ≡ (if str_eq name other then o else b.bucket d other)
  same_bucket name other o d found = elim (Bool-cases (str_eq name other)) [
    | inl same ↦ rw same (subst (λ n. b.bucket d n ≡ o) ((str_eq_iff name other).0 same) found)
    | inr differ ↦ rw differ refl
  ]

  unchanged :
      (name other : String) (o : Option (List Pair)) (d e : D)
      → b.bucket d name ≡ o
      → Path (Option D) (some d) (some e)
      → b.bucket e other ≡ (if str_eq name other then o else b.bucket d other)
  unchanged name other o d e found h =
      ap (λ x. b.bucket x other) (sym (some_inj d e h)) ∙ same_bucket name other o d found

  delete_keys-bucket :
      (cutoff : Bytes) (name other : String) (ps : List Pair) (d e : D)
      → b.bucket d name ≡ some ps
      → delete_keys name (stale_keys cutoff ps) d ≡ some e
      → b.bucket e other ≡ (if str_eq name other then some (seek cutoff ps) else b.bucket d other)
  unfolding delete_keys stale_keys seek
  delete_keys-bucket cutoff name other [] d e found h = unchanged name other (some []) d e found h
  delete_keys-bucket cutoff name other ((j, u) ∷ ps) d e found h =
      elim (Bool-cases (bytes_lt j cutoff)) [
        | inl stale ↦
            let (d', deleted, rest) =
              on_success-some (b.delete d name j) (delete_keys name (stale_keys cutoff ps)) e
                (rw stale at h) in
            let one =
              λ (n : String). laws.bucket-delete d d' name n j ((j, u) ∷ ps) deleted found in
            let found' : b.bucket d' name ≡ some ps =
              one name ∙ rw (str_eq_refl name, delete_pair-first j u ps) refl in
            let ih = delete_keys-bucket cutoff name other ps d' e found' rest in
            rw stale (
              ih
              ∙ other_branch name other (some (seek cutoff ps)) _ _
                  (λ differ. one other ∙ rw differ refl))
        | inr fresh ↦ rw fresh (unchanged name other (some ((j, u) ∷ ps)) d e found (rw fresh at h))
      ]

  prune_bucket-bucket :
      (cutoff : Bytes) (name other : String) (o : Option (List Pair)) (d e : D)
      → b.bucket d name ≡ o
      → prune_bucket cutoff name o d ≡ some e
      → b.bucket e other
        ≡ (if str_eq name other then map_option (seek cutoff) o else b.bucket d other)
  unfolding prune_bucket
  prune_bucket-bucket cutoff name other none d e found h = unchanged name other none d e found h
  prune_bucket-bucket cutoff name other (some ps) d e found h =
      delete_keys-bucket cutoff name other ps d e found h

  prune_buckets-bucket :
      (cutoff : Bytes) (names : List String) (other : String) (d e : D)
      → prune_buckets cutoff names d ≡ some e
      → b.bucket e other ≡ (
          if any (λ n. str_eq n other) names
          then map_option (seek cutoff) (b.bucket d other)
          else b.bucket d other)
  unfolding prune_buckets
  prune_buckets-bucket cutoff [] other d e h = ap (λ x. b.bucket x other) (sym (some_inj d e h))
  prune_buckets-bucket cutoff (name ∷ names) other d e h =
      let (d', first, rest) =
        on_success-some (prune_bucket cutoff name (b.bucket d name) d) (prune_buckets cutoff names)
          e h in
      let one = prune_bucket-bucket cutoff name other (b.bucket d name) d d' refl first in
      prune_buckets-bucket cutoff names other d' e rest ∙ elim (Bool-cases (str_eq name other)) [
        | inl same ↦
            let here : b.bucket d' other ≡ map_option (seek cutoff) (b.bucket d other) =
              one
              ∙ rw same (
                  ap (λ n. map_option (seek cutoff) (b.bucket d n))
                    ((str_eq_iff name other).0 same)) in
            rw (same, here) (already cutoff (any (λ n. str_eq n other) names) (b.bucket d other))
        | inr differ ↦
            let here : b.bucket d' other ≡ b.bucket d other = one ∙ rw differ refl in
            rw (differ, here) refl
      ]

  -- `Prune` cuts each bucket at the first pair that does not lie before the cutoff, a pair at the
  -- cutoff kept.
  pub prune-bucket :
      (d e : D) (cutoff : ℕ) (name : String)
      → prune d cutoff ≡ some e
      → b.bucket e name ≡ map_option (seek (make_key cutoff)) (b.bucket d name)
  unfolding prune
  prune-bucket d e cutoff name h =
      prune_buckets-bucket (make_key cutoff) (b.bucket_names d) name d e h
      ∙ rw (laws.names-bucket d name) (where_some (seek (make_key cutoff)) (b.bucket d name))
