-- ===== src/Utilization/Store/Bolt.antt =====
-- The operations of bbolt that internal/utilization/store.go calls, and what it relies on: a bucket
-- maps keys to values and a cursor visits them in the order of `bytes.Compare`. `none` is an error,
-- after which `Update` leaves the database as it was.
pub mod Memory
use Prim.Native.Nat.{Ordering}
use infercost.Base.{
  ◌≡◌, Bool, true, false, Option, none, some, String, List, [], ◌∷◌, str_eq, any, if◌then◌else◌,
}
use infercost.Utilization.Store.Codec.{Bytes, compare_bytes}

abbrev pub Pair : Type 0
Pair = Bytes × Bytes

-- the one of three values that an order names
abbrev pub by_order {ℓ} : {A : Type ℓ} → Ordering → A → A → A → A
by_order Ordering.lt x y z = x
by_order Ordering.eq x y z = y
by_order Ordering.gt x y z = z

-- a value put under a key, in the place that the order gives it
unfoldable pub put_pair : Bytes → Bytes → List Pair → List Pair
put_pair k v [] = (k, v) ∷ []
put_pair k v ((j, u) ∷ ps) =
    let rest = put_pair k v ps in
    by_order (compare_bytes k j) ((k, v) ∷ (j, u) ∷ ps) ((k, v) ∷ ps) ((j, u) ∷ rest)

unfoldable pub delete_pair : Bytes → List Pair → List Pair
delete_pair k [] = []
delete_pair k ((j, u) ∷ ps) =
    let rest = delete_pair k ps in by_order (compare_bytes k j) ((j, u) ∷ rest) ps ((j, u) ∷ rest)

abbrev pub or_empty : Option (List Pair) → List Pair
or_empty none = []
or_empty (some ps) = ps

abbrev pub is_some : Option (List Pair) → Bool
is_some none = false
is_some (some ps) = true

-- the pairs of a bucket in the order of a cursor, the names in the order of `ForEach`
pub record Bolt (D : Type 0) : Type 0 where
  pub bucket : D → String → Option (List Pair)
  pub bucket_names : D → List String
  pub create_bucket_if_not_exists : D → String → Option D
  pub put : D → String → Bytes → Bytes → Option D
  pub delete : D → String → Bytes → Option D

pub record IsBolt (D : Type 0) ⦃b : Bolt D⦄ : Type 0 where
  pub bucket-create :
      (d e : D) (name other : String)
      → b.create_bucket_if_not_exists d name ≡ some e
      → b.bucket e other
        ≡ (if str_eq name other then some (or_empty (b.bucket d other)) else b.bucket d other)
  pub bucket-put :
      (d e : D) (name other : String) (k v : Bytes)
      → b.put d name k v ≡ some e
      → b.bucket e other ≡ (
          if str_eq name other
          then some (put_pair k v (or_empty (b.bucket d other)))
          else b.bucket d other)
  pub bucket-delete :
      (d e : D) (name other : String) (k : Bytes) (ps : List Pair)
      → b.delete d name k ≡ some e
      → b.bucket d name ≡ some ps
      → b.bucket e other ≡ (if str_eq name other then some (delete_pair k ps) else b.bucket d other)
  pub names-bucket :
      (d : D) (name : String)
      → any (λ n. str_eq n name) (b.bucket_names d) ≡ is_some (b.bucket d name)
