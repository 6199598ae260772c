-- ===== src/Utilization/Durable/Step.antt =====
-- Each call of `Record` keeps the store and the windows in step.
use infercost.Base.{
  ℕ, ◌-◌, ◌<◌, ◌==◌, ◌≡◌, refl, sym, ap, ◌∙◌, Bool, true, false, not, ◌&&◌, Bool-cases,
  Option-cases, inl, inr, Option, none, some, String, List, [], ◌∷◌, ◌++◌, keep, ltb, if◌then◌else◌,
  arith, str_eq,
}
use mathlib.Core.Path.{subst}
use infercost.Float.{Float64}
use infercost.Utilization.Sample.{Sample, is_retained}
use infercost.Utilization.Retention.{gc_locked}
use infercost.Utilization.Record.{Reading, sample_of_reading, record_sample}
use infercost.Utilization.Store.Codec.{Bytes, make_key, encode_sample}
use infercost.Utilization.Store.Codec.Order.{IsInRange}
use infercost.Utilization.Store.Bolt.{Pair, put_pair, or_empty, Bolt, IsBolt}
use infercost.Utilization.Store.Operations.{seek, append, prune}
use infercost.Utilization.Store.Operations.Pruned.{map_option, on_success-some, prune-bucket}
use infercost.Utilization.Durable.{
  Sampler, prune_interval, value_or, prune_store, add_to_window, record_durable,
}
use infercost.Utilization.Durable.Backed.{IsBacked, later, added, pruned, AreBacked}

or_empty-map :
    (k : Bytes) (o : Option (List Pair)) → or_empty (map_option (seek k) o) ≡ seek k (or_empty o)
unfolding seek
or_empty-map k none = refl
or_empty-map k (some ps) = refl

or_empty_if :
    (t : Bool) (l : List Pair) (o : Option (List Pair))
    → or_empty (if t then some l else o) ≡ (if t then l else or_empty o)
or_empty_if true l o = refl
or_empty_if false l o = refl

or_empty_same :
    (t : Bool) (o : Option (List Pair)) → or_empty (if t then some (or_empty o) else o) ≡ or_empty o
or_empty_same true o = refl
or_empty_same false o = refl

module _ {F : Type 0} ⦃f : Float64 F⦄ {D : Type 0} ⦃b : Bolt D⦄ (laws : IsBolt D)
    (retention : ℕ) where
  append-bucket :
      (d e : D) (name other : String) (s : Sample F)
      → append d name s ≡ some e
      → or_empty (b.bucket e other) ≡ (
          if str_eq name other
          then put_pair (make_key s.at) (encode_sample s) (or_empty (b.bucket d other))
          else or_empty (b.bucket d other))
  unfolding append
  append-bucket d e name other s h =
      let (d', made, wrote) =
        on_success-some (b.create_bucket_if_not_exists d name)
          (λ x. b.put x name (make_key s.at) (encode_sample s)) e h in
      let same : or_empty (b.bucket d' other) ≡ or_empty (b.bucket d other) =
        ap or_empty (laws.bucket-create d d' name other made)
        ∙ or_empty_same (str_eq name other) (b.bucket d other) in
      ap or_empty (laws.bucket-put d' e name other (make_key s.at) (encode_sample s) wrote)
      ∙ or_empty_if (str_eq name other) _ (b.bucket d' other)
      ∙ rw same refl

  prune_store-IsBacked :
      (now : ℕ) (s : Sampler D F) (key : String) (w p : List (Sample F))
      → IsInRange (now - retention)
      → IsBacked retention now (or_empty (b.bucket s.db key)) w p
      → (q : List (Sample F)) × IsBacked retention now
          (or_empty (b.bucket (prune_store retention now s).db key))
          w
          q
  unfolding prune_store
  prune_store-IsBacked now s key w p range h =
      elim (Bool-cases (not (s.last_prune == 0) && ltb (now - s.last_prune) prune_interval)) [
        | inl recent ↦ rw recent (p, h)
        | inr due ↦ elim (Option-cases (prune s.db (now - retention))) [
          | inl failed ↦ rw (due, failed) (p, h)
          | inr (e, cut) ↦
              let left =
                ap or_empty (prune-bucket laws s.db e (now - retention) key cut)
                ∙ or_empty-map (make_key (now - retention)) (b.bucket s.db key) in
              rw (due, cut, left)
                (keep (is_retained (now - retention)) p, pruned retention now _ w p range h)
        ]
      ]

  prune_store-windows :
      (now : ℕ) (s : Sampler D F) → (prune_store retention now s).windows ≡ s.windows
  unfolding prune_store
  prune_store-windows now s =
      elim (Bool-cases (not (s.last_prune == 0) && ltb (now - s.last_prune) prune_interval)) [
        | inl recent ↦ rw recent refl
        | inr due ↦ rw due refl
      ]

  window_after :
      (r : Reading F) (s : Sampler D F) (key : String)
      → (add_to_window retention r (prune_store retention r.now s)).windows key ≡ (
          if str_eq r.key key
          then gc_locked (r.now - retention) (s.windows key ++ (sample_of_reading r ∷ []))
          else s.windows key)
  unfolding record_sample
  window_after r s key = rw (prune_store-windows r.now s) refl

  appended-AreBacked :
      (t : ℕ) (r : Reading F) (s : Sampler D F) (e : D)
      → t < r.now
      → IsInRange r.now
      → IsInRange (r.now - retention)
      → append s.db r.key (sample_of_reading r) ≡ some e
      → AreBacked retention t s
      → AreBacked retention r.now
          (add_to_window retention r (prune_store retention r.now (record s { db = e })))
  appended-AreBacked t r s e late range cutoff wrote h key =
      let (p, back) = h key in
      let x = sample_of_reading r in
      let s' = record s { db = e } in
      let here = append-bucket s.db e r.key key x wrote in
      rw (window_after r s' key) (elim (Bool-cases (str_eq r.key key)) [
        | inl same ↦
            let l = put_pair (make_key r.now) (encode_sample x) (or_empty (b.bucket s.db key)) in
            let bucket : or_empty (b.bucket e key) ≡ l = here ∙ rw same refl in
            let w = gc_locked (r.now - retention) (s.windows key ++ (x ∷ [])) in
            let full =
              added retention t x (or_empty (b.bucket s.db key)) (s.windows key) p late range
                back in
            rw same (
              prune_store-IsBacked r.now s' key w (p ++ (x ∷ [])) cutoff
                (subst (λ ps. IsBacked retention r.now ps w (p ++ (x ∷ []))) (sym bucket) full))
        | inr differ ↦
            let bucket : or_empty (b.bucket e key) ≡ or_empty (b.bucket s.db key) =
              here ∙ rw differ refl in
            let kept =
              later retention t r.now (or_empty (b.bucket s.db key)) (s.windows key) p
                (omega (arith, late)) back in
            rw differ (
              prune_store-IsBacked r.now s' key (s.windows key) p cutoff
                (subst (λ ps. IsBacked retention r.now ps (s.windows key) p) (sym bucket) kept))
      ])

  pub record_durable-AreBacked :
      (t : ℕ) (r : Reading F) (s : Sampler D F)
      → t < r.now
      → IsInRange r.now
      → IsInRange (r.now - retention)
      → AreBacked retention t s
      → AreBacked retention r.now (value_or s (record_durable retention r s))
  unfolding record_durable
  record_durable-AreBacked t r s late range cutoff h =
      elim (Option-cases (append s.db r.key (sample_of_reading r))) [
        | inl failed ↦ rw failed λ key.
            let (p, back) = h key in (p, later retention t r.now _ _ p (omega (arith, late)) back)
        | inr (e, wrote) ↦ rw wrote (appended-AreBacked t r s e late range cutoff wrote h)
      ]
