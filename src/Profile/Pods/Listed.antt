-- ===== src/Profile/Pods/Listed.antt =====
-- What the API store holds after the pods were scraped.
use infercost.Base.{
  ℕ, ◌≡◌, refl, sym, ap, ◌∙◌, Option, none, some, String, List, [], ◌∷◌, ◌++◌, map, arith,
  Bool-cases, inl, inr, Result, ok, err, if◌then◌else◌, add_int64, pos_int64,
}
use mathlib.Core.List.{append_assoc, append-nil}
use infercost.Float.{Float64}
use infercost.Scraper.Metrics.{InferenceMetrics}
use infercost.Scraper.Dispatch.{Fetch, ScrapeError}
use infercost.Api.Store.{Store, ModelData, ComparisonData, set_models, set_comparisons}
use infercost.Calculator.Cost.{TokenSnapshot}
use infercost.Calculator.Cloud.{CloudPricing}
use infercost.Calculator.Cloud.Pairing.{priced, build_comparisons-priced}
use infercost.Profile.Resource.{ProfileResource}
use infercost.Profile.Pods.{
  Visit, Snapshots, Scan, Scraped, model_data, is_candidate, observe, count_pod, hours_running,
  start_scan, compare_scan, with_models, visit_scraped, scrape_visit, visit_pod, visit_pods,
  scrape_inference_pods,
}

module _ {F : Type 0} ⦃f : Float64 F⦄ where
  -- the sum of the counters of the models, as `int64`
  abbrev pub sum_tokens : (ModelData F → F) → ℕ → List (ModelData F) → ℕ
  sum_tokens counter acc [] = acc
  sum_tokens counter acc (m ∷ ms) = sum_tokens counter (add_int64 acc (f.to_int64 (counter m))) ms

  abbrev pub report_of : Visit → Result ScrapeError (InferenceMetrics F) → List (ModelData F)
  report_of v (err e) = []
  report_of v (ok im) = model_data v.pod im ∷ []

  -- the models of a scan, and the sums over them
  abbrev IsListed : List (ModelData F) → Scan F → Scan F → Type 0
  IsListed ms s t =
      (t.models ≡ s.models ++ ms)
      × (t.total_input_tokens ≡ sum_tokens (λ m. m.input_tokens) s.total_input_tokens ms)
      × (t.total_output_tokens ≡ sum_tokens (λ m. m.output_tokens) s.total_output_tokens ms)

  IsListed-none : (s : Scan F) → IsListed [] s s
  IsListed-none s = (sym (append-nil s.models), refl, refl)

  sum_tokens-append :
      (counter : ModelData F → F) (acc : ℕ) (xs ys : List (ModelData F))
      → sum_tokens counter acc (xs ++ ys) ≡ sum_tokens counter (sum_tokens counter acc xs) ys
  sum_tokens-append counter acc [] ys = refl
  sum_tokens-append counter acc (x ∷ xs) ys =
      sum_tokens-append counter (add_int64 acc (f.to_int64 (counter x))) xs ys

  IsListed-trans :
      (xs ys : List (ModelData F)) (s t u : Scan F)
      → IsListed xs s t
      → IsListed ys t u
      → IsListed (xs ++ ys) s u
  IsListed-trans xs ys s t u (m, i, o) (m', i', o') = (
    m' ∙ ap (λ l. l ++ ys) m ∙ append_assoc s.models xs ys,
    i'
        ∙ ap (λ n. sum_tokens (λ x. x.input_tokens) n ys) i
        ∙ sym (sum_tokens-append (λ x. x.input_tokens) s.total_input_tokens xs ys),
    o'
        ∙ ap (λ n. sum_tokens (λ x. x.output_tokens) n ys) o
        ∙ sym (sum_tokens-append (λ x. x.output_tokens) s.total_output_tokens xs ys),
  )

  module _ (format_int : ℕ → String) (fetch : Fetch F) (profile : ProfileResource F) where
    -- a candidate that is scraped is listed
    abbrev pub reported_of : Visit → List (ModelData F)
    reported_of v =
        if is_candidate profile v then report_of v (scrape_visit format_int fetch profile v) else []

    abbrev pub reported : List Visit → List (ModelData F)
    reported [] = []
    reported (v ∷ vs) = reported_of v ++ reported vs

  module _ (hourly_cost : F) where
    -- the snapshots have no part in it
    observe-IsListed :
        (v : Visit) (im : InferenceMetrics F) (prev : Option (TokenSnapshot F))
        (ms : List (ModelData F)) (s t : Scan F)
        → IsListed ms s t
        → IsListed ms s (observe hourly_cost v im prev t)
    unfolding observe
    observe-IsListed v im none ms s t h = h
    observe-IsListed v im (some prev) ms s t h = ground arith

    visit_scraped-IsListed :
        (v : Visit) (r : Result ScrapeError (InferenceMetrics F)) (s : Scan F)
        → IsListed (report_of v r) s (visit_scraped hourly_cost v r s)
    unfolding visit_scraped
    visit_scraped-IsListed v (err e) s = IsListed-none s
    visit_scraped-IsListed v (ok im) s =
        observe-IsListed v im _ (model_data v.pod im ∷ []) s (count_pod v im s) (refl, refl, refl)

    module _ (format_int : ℕ → String) (fetch : Fetch F) (profile : ProfileResource F) where
      visit_pod-IsListed :
          (v : Visit) (s : Scan F)
          → IsListed
              (reported_of format_int fetch profile v)
              s
              (visit_pod format_int fetch profile hourly_cost v s)
      unfolding visit_pod
      visit_pod-IsListed v s = elim (Bool-cases (is_candidate profile v)) [
        | inl e ↦ rw e (visit_scraped-IsListed v (scrape_visit format_int fetch profile v) s)
        | inr e ↦ rw e (IsListed-none s)
      ]

      visit_pods-IsListed :
          (vs : List Visit) (s : Scan F)
          → IsListed
              (reported format_int fetch profile vs)
              s
              (visit_pods format_int fetch profile hourly_cost vs s)
      unfolding visit_pods
      visit_pods-IsListed [] s = IsListed-none s
      visit_pods-IsListed (v ∷ vs) s =
          let t = visit_pod format_int fetch profile hourly_cost v s in
          let u = visit_pods format_int fetch profile hourly_cost vs t in
          IsListed-trans (reported_of format_int fetch profile v)
            (reported format_int fetch profile vs) s t u (visit_pod-IsListed v s)
            (visit_pods-IsListed vs t)

      module _ (pricing : List (CloudPricing F)) (now : ℕ) (store : Store F) where
        -- the comparisons for the sums of the tokens; those that were there, where there are none
        abbrev pub compared : ℕ → ℕ → List (ComparisonData F)
        compared i o =
            if pos_int64 (add_int64 i o)
            then map (priced i o (f.mul hourly_cost (hours_running profile now))) pricing
            else store.comparisons

        compare_scan-compared :
            (s : Scan F)
            → compare_scan pricing profile hourly_cost now s store
              ≡ some (record store {
                comparisons = compared s.total_input_tokens s.total_output_tokens;
              })
        unfolding compare_scan set_comparisons
        compare_scan-compared s =
            let i = s.total_input_tokens in
            let o = s.total_output_tokens in
            let cost = f.mul hourly_cost (hours_running profile now) in
            elim (Bool-cases (pos_int64 (add_int64 i o))) [
              | inl e ↦ rw (e, build_comparisons-priced pricing i o cost) refl
              | inr e ↦ rw e refl
            ]

        -- Scraping the pods always comes to an end without a panic, and sets in the store the models
        -- and the comparisons, and nothing else. The models are the pods that are candidates and answer,
        -- in the order of the list, whatever the snapshots hold. If the sums of their input and output
        -- tokens, as `int64`, are together positive, every priced model is compared for these sums at
        -- the hourly cost times the hours that the profile has existed, at least 0.001; otherwise
        -- the comparisons stay.
        pub scrape_inference_pods-store :
            (visits : List Visit) (snapshots : Snapshots F)
            → let ms = reported format_int fetch profile visits in
              (out : Scraped F) × (scrape_inference_pods format_int fetch pricing profile
                  hourly_cost now
                  (ok visits)
                  snapshots
                  store
                ≡ some out)
              × (out.store ≡ record store {
                models = ms;
                comparisons =
                    compared
                      (sum_tokens (λ m. m.input_tokens) 0 ms)
                      (sum_tokens (λ m. m.output_tokens) 0 ms);
              })
        unfolding scrape_inference_pods set_models
        scrape_inference_pods-store visits snapshots =
            let s = visit_pods format_int fetch profile hourly_cost visits (start_scan snapshots) in
            let (m, i, o) = visit_pods-IsListed visits (start_scan snapshots) in
            (_, ap (with_models s) (compare_scan-compared s), rw (m, i, o) refl)
