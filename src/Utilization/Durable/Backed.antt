-- ===== src/Utilization/Durable/Backed.antt =====
-- What a store holds for the windows of a sampler, and that additions and pruning keep it so.
use infercost.Base.{
  ℕ, ◌-◌, ◌≤◌, ◌<◌, ◌≡◌, sym, ap, ◌∙◌, String, List, [], ◌∷◌, ◌++◌, map, All, All-weaken, All-snoc,
  All-keep, keep-append, keep, arith,
}
use mathlib.Core.Path.{subst}
use infercost.Float.{Float64}
use infercost.Utilization.Sample.{Sample, IsChronological, is_retained}
use infercost.Utilization.Retention.{gc_locked}
use infercost.Utilization.Retention.Filter.{gc_locked-eq-keep}
use infercost.Utilization.Record.Window.{keep-IsChronological, append-IsChronological, keep_again}
use infercost.Utilization.Store.Codec.{make_key, encode_sample}
use infercost.Utilization.Store.Codec.Order.{IsInRange}
use infercost.Utilization.Store.Bolt.{Pair, put_pair, or_empty, Bolt}
use infercost.Utilization.Store.Operations.{seek}
use infercost.Utilization.Durable.{Sampler}
use infercost.Utilization.Durable.Buckets.{pair_of, IsStored, put_pair-last, seek-keep}

module _ {F : Type 0} ⦃f : Float64 F⦄ (retention : ℕ) where
  -- At an instant the pairs of a bucket are the history `p`, which agrees with the window `w` from
  -- each cutoff on that is still to come.
  pub record IsBacked (t : ℕ) (l : List Pair) (w p : List (Sample F)) : Type 0 where
    pub pairs : l ≡ map pair_of p
    pub stored : All (IsStored t) p
    pub history_chron : IsChronological p
    pub window_until : All (λ s. s.at ≤ t) w
    pub window_chron : IsChronological w
    pub agree : (c : ℕ) → t - retention ≤ c → keep (is_retained c) p ≡ keep (is_retained c) w

  pub later :
      (t u : ℕ) (l : List Pair) (w p : List (Sample F))
      → t ≤ u
      → IsBacked t l w p
      → IsBacked u l w p
  later t u l w p le h = record {
    pairs = h.pairs;
    stored = All-weaken (IsStored t) (IsStored u) p (λ x k. (k.0, omega (arith, k.1, le))) h.stored;
    history_chron = h.history_chron;
    window_until =
        All-weaken (λ s. s.at ≤ t) (λ s. s.at ≤ u) w (λ x k. omega (arith, k, le)) h.window_until;
    window_chron = h.window_chron;
    agree = λ c k. h.agree c (omega (arith, le, k));
  }

  pub added :
      (t : ℕ) (s : Sample F) (l : List Pair) (w p : List (Sample F))
      → t < s.at
      → IsInRange s.at
      → IsBacked t l w p
      → IsBacked s.at
          (put_pair (make_key s.at) (encode_sample s) l)
          (gc_locked (s.at - retention) (w ++ (s ∷ [])))
          (p ++ (s ∷ []))
  added t s l w p late range h =
      let d = s.at - retention in
      let long_window = w ++ (s ∷ []) in
      let until =
        All-weaken (λ x. x.at ≤ t) (λ x. x.at ≤ s.at) w (λ x k. omega (arith, k, late))
          h.window_until in
      let chron = append-IsChronological w s h.window_chron until in
      let window = gc_locked-eq-keep d long_window chron in
      let older =
        All-weaken (IsStored t) (λ x. x.at ≤ s.at) p (λ x k. omega (arith, k.1, late)) h.stored in
      record {
        pairs =
            ap (put_pair (make_key s.at) (encode_sample s)) h.pairs
            ∙ put_pair-last t p s h.stored late range;
        stored =
            All-snoc (IsStored s.at) p s
              (All-weaken (IsStored t) (IsStored s.at) p (λ x k. (k.0, omega (arith, k.1, late)))
                h.stored)
              (range, omega arith);
        history_chron = append-IsChronological p s h.history_chron older;
        window_until = subst (All (λ x. x.at ≤ s.at)) (sym window) (
            All-keep (λ x. x.at ≤ s.at) (is_retained d) long_window
              (All-snoc (λ x. x.at ≤ s.at) w s until (omega arith)));
        window_chron =
            subst IsChronological (sym window)
              (keep-IsChronological (is_retained d) long_window chron);
        agree = λ c k.
            keep-append (is_retained c) p (s ∷ [])
            ∙ ap (λ xs. xs ++ keep (is_retained c) (s ∷ [])) (h.agree c (omega (arith, late, k)))
            ∙ sym (keep-append (is_retained c) w (s ∷ []))
            ∙ sym (keep_again d c long_window k)
            ∙ ap (keep (is_retained c)) (sym window);
      }

  pub pruned :
      (t : ℕ) (l : List Pair) (w p : List (Sample F))
      → IsInRange (t - retention)
      → IsBacked t l w p
      → IsBacked t (seek (make_key (t - retention)) l) w (keep (is_retained (t - retention)) p)
  pruned t l w p range h =
      let c = t - retention in
      record {
        pairs = ap (seek (make_key c)) h.pairs ∙ seek-keep t c p h.history_chron h.stored range;
        stored = All-keep (IsStored t) (is_retained c) p h.stored;
        history_chron = keep-IsChronological (is_retained c) p h.history_chron;
        window_until = h.window_until;
        window_chron = h.window_chron;
        agree = λ d k. keep_again c d p k ∙ h.agree d k;
      }

module _ {F : Type 0} ⦃f : Float64 F⦄ {D : Type 0} ⦃b : Bolt D⦄ (retention : ℕ) where
  -- every bucket backs the window of its key
  abbrev pub AreBacked : ℕ → Sampler D F → Type 0
  AreBacked t s =
      (key : String)
      → (p : List (Sample F)) × IsBacked retention t (or_empty (b.bucket s.db key)) (s.windows key)
          p
