-- ===== src/Utilization/Store/Operations.antt =====
-- internal/utilization/store.go: `Append`, `LoadRange`, `Keys` and `Prune`, over the database's
-- operations.
pub mod Pruned
pub mod Harmless
use infercost.Base.{
  ℕ, ◌==◌, ◌≡◌, Bool, true, false, not, ◌&&◌, Option, none, some, String, List, [], ◌∷◌,
  if◌then◌else◌, Result, ok, err, ◌>>=◌,
}
use infercost.Float.{Float64}
use infercost.Utilization.Sample.{Sample}
use infercost.Utilization.Store.Codec.{
  Bytes, bytes_lt, make_key, encode_sample, decode_sample, DecodeError,
}
use infercost.Utilization.Store.Bolt.{Pair, Bolt}

-- `c.Seek(k)`: the pairs from the first key on that does not lie before
unfoldable pub seek : Bytes → List Pair → List Pair
seek k [] = []
seek k ((j, u) ∷ ps) = let rest = seek k ps in if bytes_lt j k then rest else (j, u) ∷ ps

-- the keys that `Prune` collects: those before the cutoff, to the first that is not
unfoldable pub stale_keys : Bytes → List Pair → List Bytes
stale_keys k [] = []
stale_keys k ((j, u) ∷ ps) = let rest = stale_keys k ps in if bytes_lt j k then j ∷ rest else []

abbrev pub on_success : {A B : Type 0} → Option A → (A → Option B) → Option B
on_success none g = none
on_success (some a) g = g a

module _ {F : Type 0} ⦃f : Float64 F⦄ where
  -- the loop of `LoadRange`; the zero instant is no upper bound
  unfoldable pub load_loop : ℕ → List Pair → Result DecodeError (List (Sample F))
  load_loop end [] = ok []
  load_loop end ((k, v) ∷ ps) =
      let rest = decode_sample k v >>= λ s. load_loop end ps >>= λ ss. ok (s ∷ ss) in
      if not (end == 0) && not (bytes_lt k (make_key end)) then ok [] else rest

  abbrev pub load_bucket : ℕ → ℕ → Option (List Pair) → Result DecodeError (List (Sample F))
  load_bucket start end none = ok []
  load_bucket start end (some ps) = load_loop end (seek (make_key start) ps)

module _ {D : Type 0} ⦃b : Bolt D⦄ where
  -- `Keys`
  abbrev pub keys : D → List String
  keys d = b.bucket_names d

  unfoldable pub delete_keys : String → List Bytes → D → Option D
  delete_keys name [] d = some d
  delete_keys name (k ∷ ks) d = on_success (b.delete d name k) (delete_keys name ks)

  prune_bucket : Bytes → String → Option (List Pair) → D → Option D
  unfolding delete_keys stale_keys
  prune_bucket cutoff name none d = some d
  prune_bucket cutoff name (some ps) d = delete_keys name (stale_keys cutoff ps) d

  unfoldable pub prune_buckets : Bytes → List String → D → Option D
  unfolding prune_bucket
  prune_buckets cutoff [] d = some d
  prune_buckets cutoff (name ∷ names) d =
      on_success (prune_bucket cutoff name (b.bucket d name) d) (prune_buckets cutoff names)

  -- `Prune`
  unfoldable pub prune : D → ℕ → Option D
  prune d cutoff = prune_buckets (make_key cutoff) (b.bucket_names d) d

  module _ {F : Type 0} ⦃f : Float64 F⦄ where
    -- `Append`
    unfoldable pub append : D → String → Sample F → Option D
    append d name s =
        on_success (b.create_bucket_if_not_exists d name)
          λ e. b.put e name (make_key s.at) (encode_sample s)

    -- `LoadRange`
    unfoldable pub load_range : D → String → ℕ → ℕ → Result DecodeError (List (Sample F))
    unfolding load_loop seek
    load_range d name start end = load_bucket start end (b.bucket d name)
