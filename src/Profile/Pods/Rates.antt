-- ===== src/Profile/Pods/Rates.antt =====
-- The token rates that are published, and the costs that follow from them, are not negative.
use infercost.Base.{
  ℕ, ◌-◌, ◌≡◌, refl, false, Option, none, some, String, List, [], ◌∷◌, All, All-snoc, str_eq, ltb,
  arith, Bool-cases, inl, inr, Result, ok, err,
}
use infercost.Float.{Float64, IsOrdered, ◌≼◌, ◌≺◌}
use infercost.Scraper.Metrics.{InferenceMetrics}
use infercost.Scraper.Dispatch.{Fetch, ScrapeError}
use infercost.Calculator.Cost.{TokenSnapshot, compute_cost_per_token}
use infercost.Calculator.Cost.Rates.{IsCounter, compute_token_rate_nonneg}
use infercost.Profile.Resource.{ProfileResource}
use infercost.Profile.Pods.{
  Visit, Snapshots, Scan, PublishedRate, min_snapshot_interval, put_snapshot, snapshot_key,
  snapshot_of, is_candidate, observe, count_pod, published_rate, start_scan, visit_scraped,
  scrape_visit, visit_pod, visit_pods,
}

module _ {F : Type 0} ⦃f : Float64 F⦄ (laws : IsOrdered F) where
  open laws use {of_nat_mono, le_of_not_lt, le_refl_of_le, div_nonneg, not_le_of_lt}

  -- a snapshot of two counters
  abbrev pub AreCounters : Option (TokenSnapshot F) → Type 0
  AreCounters none = Unit
  AreCounters (some t) = IsCounter laws t.input_tokens × IsCounter laws t.output_tokens

  abbrev pub IsNonnegRate : PublishedRate F → Type 0
  IsNonnegRate r = (f.of_nat 0 ≼ r.tokens_per_hour) × (f.of_nat 0 ≼ r.cost_per_token)

  pos_of_not_le : (a : F) → f.of_nat 0 ≼ a → f.le a (f.of_nat 0) ≡ false → f.of_nat 0 ≺ a
  pos_of_not_le a h k = elim (Bool-cases (f.lt (f.of_nat 0) a)) [
    | inl e ↦ e
    | inr e ↦
        let below =
          le_of_not_lt (f.of_nat 0) a (of_nat_mono 0 0 (omega arith)) (le_refl_of_le _ _ h).1 e in
        cc
  ]

  compute_cost_per_token_nonneg :
      (cost rate : F)
      → IsCounter laws cost
      → f.of_nat 0 ≼ rate
      → f.of_nat 0 ≼ compute_cost_per_token cost rate
  unfolding compute_cost_per_token
  compute_cost_per_token_nonneg cost rate (c, finite) h =
      elim (Bool-cases (f.le rate (f.of_nat 0))) [
        | inl e ↦ rw e (of_nat_mono 0 0 (omega arith))
        | inr e ↦ rw e (div_nonneg cost rate c finite (pos_of_not_le rate h e))
      ]

  put-AreCounters :
      (key : String) (t : TokenSnapshot F) (snapshots : Snapshots F)
      → AreCounters (some t)
      → ((k : String) → AreCounters (snapshots k))
      → (k : String) → AreCounters (put_snapshot key t snapshots k)
  put-AreCounters key t snapshots h hs k = elim (Bool-cases (str_eq key k)) [
    | inl e ↦ rw e h
    | inr e ↦ rw e (hs k)
  ]

  -- what the loop keeps up
  abbrev IsSane : Scan F → Type 0
  IsSane s = ((k : String) → AreCounters (s.snapshots k)) × All IsNonnegRate s.published

  module _ (format_int : ℕ → String) (fetch : Fetch F) (profile : ProfileResource F) where
    -- every pod that answers reports counters
    abbrev pub ReportsCounters : Type 0
    ReportsCounters =
        (v : Visit) (im : InferenceMetrics F)
        → scrape_visit format_int fetch profile v ≡ ok im
        → IsCounter laws im.prompt_tokens_total × IsCounter laws im.predicted_tokens_total

  module _ (hourly_cost : F) (cost_counter : IsCounter laws hourly_cost) where
    observe-IsSane :
        (v : Visit) (im : InferenceMetrics F) (prev : Option (TokenSnapshot F)) (s : Scan F)
        → AreCounters (some (snapshot_of v.now im))
        → AreCounters prev
        → IsSane s
        → IsSane (observe hourly_cost v im prev s)
    unfolding observe
    observe-IsSane v im none s c p (hs, hp) = (put-AreCounters _ _ s.snapshots c hs, hp)
    observe-IsSane v im (some prev) s c p (hs, hp) =
        elim (Bool-cases (ltb (v.now - prev.timestamp) min_snapshot_interval)) [
          | inl e ↦ rw e (hs, hp)
          | inr e ↦
              let curr = snapshot_of v.now im in
              let (_, _, rate) = compute_token_rate_nonneg laws prev curr p.0 p.1 c.0 c.1 in
              let cost = compute_cost_per_token_nonneg hourly_cost _ cost_counter rate in
              rw e (
                put-AreCounters _ _ s.snapshots c hs,
                All-snoc IsNonnegRate s.published (published_rate hourly_cost v.pod prev curr) hp
                    (rate, cost),
              )
        ]

    module _ (format_int : ℕ → String) (fetch : Fetch F) (profile : ProfileResource F) where
      module _ (counters : ReportsCounters format_int fetch profile) where
        visit_scraped-IsSane :
            (v : Visit) (r : Result ScrapeError (InferenceMetrics F)) (s : Scan F)
            → scrape_visit format_int fetch profile v ≡ r
            → IsSane s
            → IsSane (visit_scraped hourly_cost v r s)
        unfolding visit_scraped
        visit_scraped-IsSane v (err e) s h sane = sane
        visit_scraped-IsSane v (ok im) s h (hs, hp) =
            observe-IsSane v im (s.snapshots (snapshot_key v.pod)) (count_pod v im s)
              (counters v im h) (hs (snapshot_key v.pod)) (hs, hp)

        visit_pod-IsSane :
            (v : Visit) (s : Scan F)
            → IsSane s
            → IsSane (visit_pod format_int fetch profile hourly_cost v s)
        unfolding visit_pod
        visit_pod-IsSane v s sane = elim (Bool-cases (is_candidate profile v)) [
          | inl e ↦
              rw e (visit_scraped-IsSane v (scrape_visit format_int fetch profile v) s refl sane)
          | inr e ↦ rw e sane
        ]

        visit_pods-IsSane :
            (vs : List Visit) (s : Scan F)
            → IsSane s
            → IsSane (visit_pods format_int fetch profile hourly_cost vs s)
        unfolding visit_pods
        visit_pods-IsSane [] s sane = sane
        visit_pods-IsSane (v ∷ vs) s sane =
            visit_pods-IsSane vs (visit_pod format_int fetch profile hourly_cost v s)
              (visit_pod-IsSane v s sane)

        -- Where the hourly cost is finite and not negative, the pods that answer report token counts
        -- that are finite and not negative, and so do the snapshots at the start, no published token
        -- rate and no published cost of a token is negative, restarts of pods and repeated visits
        -- included, and the snapshots are again counts that are finite and not negative.
        pub visit_pods-rates :
            (visits : List Visit) (snapshots : Snapshots F)
            → ((k : String) → AreCounters (snapshots k))
            → let s =
                visit_pods format_int fetch profile hourly_cost visits (start_scan snapshots) in
              All IsNonnegRate s.published × ((k : String) → AreCounters (s.snapshots k))
        visit_pods-rates visits snapshots h =
            let (hs, hp) = visit_pods-IsSane visits (start_scan snapshots) (h, tt) in (hp, hs)
