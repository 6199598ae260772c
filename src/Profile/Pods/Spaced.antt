-- ===== src/Profile/Pods/Spaced.antt =====
-- Snapshots are replaced at intervals.
use infercost.Base.{
  ℕ, ◌-◌, ◌+◌, ◌≤◌, ◌≡◌, refl, ◌⊎◌, inl, inr, Option, none, some, String, List, [], ◌∷◌, str_eq,
  str_eq_iff, ltb, ltb→le, arith, Bool-cases, Result, ok, err,
}
use infercost.Float.{Float64}
use infercost.Scraper.Metrics.{InferenceMetrics}
use infercost.Scraper.Dispatch.{Fetch, ScrapeError}
use infercost.Calculator.Cost.{TokenSnapshot}
use infercost.Profile.Resource.{ProfileResource}
use infercost.Profile.Pods.{
  Visit, Snapshots, Scan, min_snapshot_interval, put_snapshot, snapshot_key, snapshot_of,
  is_candidate, observe, count_pod, visit_scraped, scrape_visit, visit_pod, visit_pods,
}

module _ {F : Type 0} where
  -- a snapshot and what later stands in its place
  abbrev pub IsSpaced : TokenSnapshot F → Option (TokenSnapshot F) → Type 0
  IsSpaced old none = ⊥
  IsSpaced old (some new) = (old ≡ new) ⊎ (old.timestamp + min_snapshot_interval ≤ new.timestamp)

  abbrev Follows : Option (TokenSnapshot F) → Option (TokenSnapshot F) → Type 0
  Follows none later = Unit
  Follows (some old) later = IsSpaced old later

  Follows-refl : (a : Option (TokenSnapshot F)) → Follows a a
  Follows-refl none = tt
  Follows-refl (some t) = inl refl

  IsSpaced-trans :
      (a : TokenSnapshot F) (b c : Option (TokenSnapshot F))
      → IsSpaced a b
      → Follows b c
      → IsSpaced a c
  IsSpaced-trans a none c h k = elim h [ ]
  IsSpaced-trans a (some b) none h k = elim k [ ]
  IsSpaced-trans a (some b) (some c) (inl e) k = rw e k
  IsSpaced-trans a (some b) (some c) (inr h) (inl e) = inr (rw e at h)
  IsSpaced-trans a (some b) (some c) (inr h) (inr k) = inr (omega arith)

  Follows-trans : (a b c : Option (TokenSnapshot F)) → Follows a b → Follows b c → Follows a c
  Follows-trans none b c h k = tt
  Follows-trans (some a) b c h k = IsSpaced-trans a b c h k

  put-Follows :
      (key : String) (t : TokenSnapshot F) (snapshots : Snapshots F)
      → Follows (snapshots key) (some t)
      → (k : String) → Follows (snapshots k) (put_snapshot key t snapshots k)
  put-Follows key t snapshots h k = elim (Bool-cases (str_eq key k)) [
    | inl e ↦ let same = (str_eq_iff key k).0 e in rw e (rw same at h)
    | inr e ↦ rw e (Follows-refl (snapshots k))
  ]

  abbrev KeepsSpaced : Scan F → Scan F → Type 0
  KeepsSpaced s t = (k : String) → Follows (s.snapshots k) (t.snapshots k)

module _ {F : Type 0} ⦃f : Float64 F⦄ (hourly_cost : F) where
  observe-KeepsSpaced :
      (v : Visit) (im : InferenceMetrics F) (prev : Option (TokenSnapshot F)) (s : Scan F)
      → s.snapshots (snapshot_key v.pod) ≡ prev
      → KeepsSpaced s (observe hourly_cost v im prev s)
  unfolding observe
  observe-KeepsSpaced v im none s h =
      put-Follows (snapshot_key v.pod) (snapshot_of v.now im) s.snapshots (rw h tt)
  observe-KeepsSpaced v im (some prev) s h =
      elim (Bool-cases (ltb (v.now - prev.timestamp) min_snapshot_interval)) [
        | inl e ↦ rw e (λ k. Follows-refl (s.snapshots k))
        | inr e ↦
            let late : prev.timestamp + min_snapshot_interval ≤ v.now =
              omega (arith, ltb→le _ _ e) in
            rw e (
              put-Follows (snapshot_key v.pod) (snapshot_of v.now im) s.snapshots (rw h (inr late)))
      ]

  visit_scraped-KeepsSpaced :
      (v : Visit) (r : Result ScrapeError (InferenceMetrics F)) (s : Scan F)
      → KeepsSpaced s (visit_scraped hourly_cost v r s)
  unfolding visit_scraped
  visit_scraped-KeepsSpaced v (err e) s = λ k. Follows-refl (s.snapshots k)
  visit_scraped-KeepsSpaced v (ok im) s =
      observe-KeepsSpaced v im (s.snapshots (snapshot_key v.pod)) (count_pod v im s) refl

  module _ (format_int : ℕ → String) (fetch : Fetch F) (profile : ProfileResource F) where
    visit_pod-KeepsSpaced :
        (v : Visit) (s : Scan F)
        → KeepsSpaced s (visit_pod format_int fetch profile hourly_cost v s)
    unfolding visit_pod
    visit_pod-KeepsSpaced v s = elim (Bool-cases (is_candidate profile v)) [
      | inl e ↦ rw e (visit_scraped-KeepsSpaced v (scrape_visit format_int fetch profile v) s)
      | inr e ↦ rw e (λ k. Follows-refl (s.snapshots k))
    ]

    visit_pods-KeepsSpaced :
        (vs : List Visit) (s : Scan F)
        → KeepsSpaced s (visit_pods format_int fetch profile hourly_cost vs s)
    unfolding visit_pods
    visit_pods-KeepsSpaced [] s k = Follows-refl (s.snapshots k)
    visit_pods-KeepsSpaced (v ∷ vs) s k =
        let t = visit_pod format_int fetch profile hourly_cost v s in
        Follows-trans (s.snapshots k) (t.snapshots k) _ (visit_pod-KeepsSpaced v s k)
          (visit_pods-KeepsSpaced vs t k)

    -- However often the loop sees a pod, no snapshot is lost, and one is only replaced by a snapshot
    -- taken at least 10 seconds after it: after any visits each key that had a snapshot has that same
    -- one or one that is later by 10 seconds or more.
    pub visit_pods-IsSpaced :
        (vs : List Visit) (s : Scan F) (key : String) (old : TokenSnapshot F)
        → s.snapshots key ≡ some old
        → IsSpaced old ((visit_pods format_int fetch profile hourly_cost vs s).snapshots key)
    visit_pods-IsSpaced vs s key old h =
        let follows = visit_pods-KeepsSpaced vs s key in rw h at follows
