-- ===== src/Utilization/Store/Operations/Harmless.antt =====
-- `Prune` takes nothing away that `LoadRange` is asked for later.
use infercost.Base.{
  ℕ, ◌≤◌, ◌≡◌, refl, sym, ap, ◌∙◌, true, false, Bool-cases, inl, inr, Option, none, some, String,
  List, [], ◌∷◌, arith,
}
use infercost.Float.{Float64}
use infercost.Utilization.Store.Codec.{Bytes, compare_bytes, bytes_lt, make_key}
use infercost.Utilization.Store.Codec.Order.{IsInRange, compare-make_key}
use infercost.Utilization.Store.Bolt.{Pair, Bolt, IsBolt}
use infercost.Utilization.Store.Operations.{seek, prune, load_loop, load_bucket, load_range}
use infercost.Utilization.Store.Operations.Pruned.{map_option, prune-bucket}

bytes_lt_trans : (a b c : Bytes) → bytes_lt a b ≡ true → bytes_lt c b ≡ false → bytes_lt a c ≡ true
unfolding compare_bytes
bytes_lt_trans [] [] [] h k = h
bytes_lt_trans [] (y ∷ ys) [] h k = sym k
bytes_lt_trans [] ys (z ∷ zs) h k = refl
bytes_lt_trans (x ∷ xs) [] c h k = ground (arith, h)
bytes_lt_trans (x ∷ xs) (y ∷ ys) [] h k = ground (arith, k)
bytes_lt_trans (x ∷ xs) (y ∷ ys) (z ∷ zs) h k = ground (arith, bytes_lt_trans xs ys zs, h, k)

seek_later : (c s : Bytes) (ps : List Pair) → bytes_lt s c ≡ false → seek s (seek c ps) ≡ seek s ps
unfolding seek
seek_later c s [] le = refl
seek_later c s ((j, u) ∷ ps) le = elim (Bool-cases (bytes_lt j c)) [
  | inl before ↦ rw (before, bytes_lt_trans j c s before le) (seek_later c s ps le)
  | inr after ↦ rw after refl
]

module _ {D : Type 0} ⦃b : Bolt D⦄ (laws : IsBolt D) {F : Type 0} ⦃f : Float64 F⦄ where
  load_bucket_later :
      (c start end : ℕ) (o : Option (List Pair))
      → bytes_lt (make_key start) (make_key c) ≡ false
      → load_bucket {F = F} start end (map_option (seek (make_key c)) o) ≡ load_bucket start end o
  load_bucket_later c start end none le = refl
  load_bucket_later c start end (some ps) le =
      ap (load_loop end) (seek_later (make_key c) (make_key start) ps le)

  -- Pruning at a cutoff, a sample at the cutoff included in what is kept, changes nothing in what
  -- `LoadRange` returns, for any key, from the cutoff or a later instant on, where both instants lie
  -- between 1970 and 2262 and the database behaves as documented.
  pub prune-load_range :
      (d e : D) (c start end : ℕ) (name : String)
      → prune d c ≡ some e
      → c ≤ start
      → IsInRange c
      → IsInRange start
      → load_range {F = F} e name start end ≡ load_range d name start end
  unfolding load_range
  prune-load_range d e c start end name cut le hc hs =
      ap (load_bucket {F = F} start end) (prune-bucket laws d e c name cut)
      ∙ load_bucket_later c start end (b.bucket d name)
          (rw (compare-make_key start c hs hc) (ground (arith, le)))
