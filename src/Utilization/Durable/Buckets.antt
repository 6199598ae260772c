-- ===== src/Utilization/Durable/Buckets.antt =====
-- The pairs of a bucket that holds the samples of a history, as the calls of the store change it.
use Prim.Native.Nat.{compare, Ordering}
use infercost.Base.{
  ℕ, ◌≤◌, ◌<◌, ◌==◌, ◌≡◌, refl, sym, ap, true, false, Bool-cases, inl, inr, List, [], ◌∷◌, ◌++◌,
  map, All, keep, leb, ltb, arith, ok,
}
use infercost.Float.{Float64}
use infercost.Utilization.Sample.{Sample, IsChronological, is_retained}
use infercost.Utilization.Retention.Filter.{keep_first}
use infercost.Utilization.Store.Codec.{bytes_lt, make_key, encode_sample}
use infercost.Utilization.Store.Codec.Order.{IsInRange, compare-make_key}
use infercost.Utilization.Store.Codec.RoundTrip.{IsCoded, decode-encode_sample}
use infercost.Utilization.Store.Bolt.{Pair, put_pair}
use infercost.Utilization.Store.Operations.{seek, load_loop}

less-make_key : (t u : ℕ) → IsInRange t → IsInRange u → bytes_lt (make_key t) (make_key u) ≡ ltb t u
less-make_key t u ht hu = rw (compare-make_key t u ht hu) (ground arith)

module _ {F : Type 0} ⦃f : Float64 F⦄ where
  abbrev pub pair_of : Sample F → Pair
  pair_of s = (make_key s.at, encode_sample s)

  -- in range, and not after an instant
  abbrev pub IsStored : ℕ → Sample F → Type 0
  IsStored t s = IsInRange s.at × (s.at ≤ t)

  pub put_pair-last :
      (t : ℕ) (h : List (Sample F)) (s : Sample F)
      → All (IsStored t) h
      → t < s.at
      → IsInRange s.at
      → put_pair (make_key s.at) (encode_sample s) (map pair_of h) ≡ map pair_of (h ++ (s ∷ []))
  unfolding put_pair
  put_pair-last t [] s stored late range = refl
  put_pair-last t (x ∷ xs) s ((rx, le), rest) late range =
      let after : compare s.at x.at ≡ Ordering.gt = ground (arith, late, le) in
      rw (compare-make_key s.at x.at range rx, after)
        (ap (◌∷◌ (pair_of x)) (put_pair-last t xs s rest late range))

  pub seek-keep :
      (t c : ℕ) (h : List (Sample F))
      → IsChronological h
      → All (IsStored t) h
      → IsInRange c
      → seek (make_key c) (map pair_of h) ≡ map pair_of (keep (is_retained c) h)
  unfolding seek
  seek-keep t c [] chron stored range = refl
  seek-keep t c (x ∷ xs) chron ((rx, le), rest) range = elim (Bool-cases (ltb x.at c)) [
    | inl before ↦
        let gone : leb c x.at ≡ false = ground arith in
        rw (less-make_key x.at c rx range, before, gone) (seek-keep t c xs chron.1 rest range)
    | inr after ↦
        let kept : leb c x.at ≡ true = ground arith in
        rw (less-make_key x.at c rx range, after)
          (ap (map pair_of) (sym (keep_first c (x ∷ xs) chron kept)))
  ]

  pub load_loop-stored :
      (coded : IsCoded F) (t end : ℕ) (h : List (Sample F))
      → All (IsStored t) h
      → t < end
      → IsInRange end
      → load_loop end (map pair_of h) ≡ ok h
  unfolding load_loop
  load_loop-stored coded t end [] stored late range = refl
  load_loop-stored coded t end (x ∷ xs) ((rx, le), rest) late range =
      let before : ltb x.at end ≡ true = ground (arith, late, le) in
      let bound : (end == 0) ≡ false = ground (arith, late) in
      rw
        (
          bound,
          less-make_key x.at end rx range,
          before,
          decode-encode_sample coded x rx,
          load_loop-stored coded t end xs rest late range,
        )
        refl
