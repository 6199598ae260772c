-- ===== src/Profile/Pods.antt =====
-- internal/controller/costprofile_controller.go: `scrapeInferencePods`. A pod comes with the instant, in
-- nanoseconds, that `time.Now` returns when the loop is at it. `fetch` is the scraper's client, and
-- `fmt`'s decimal text of a number an argument. Of the gauges, the token rates and the costs that follow
-- from them are kept; the calls are in Metrics/Emit. The mutex makes reading and writing a snapshot one step. The manager always sets
-- the store, so the tests for `nil` are left out. A duration that is not positive is 0.
pub mod Spaced
pub mod Rates
pub mod Listed
use infercost.Base.{
  ℕ, ◌-◌, Bool, true, false, not, ◌&&◌, Option, none, some, String, List, [], ◌∷◌, ◌++◌, str_eq,
  cat, ltb, if◌then◌else◌, add_int64, pos_int64, Result, ok, err,
}
use infercost.Float.{Float64}
use infercost.Utilization.Sample.{hours}
use infercost.Scraper.Backend.{label_or_empty, resolve_backend}
use infercost.Scraper.Metrics.{InferenceMetrics}
use infercost.Scraper.Dispatch.{Fetch, ScrapeError, scrape}
use infercost.Api.Store.{Store, ModelData, ComparisonData, set_models, set_comparisons}
use infercost.Calculator.Cost.{TokenSnapshot, compute_token_rate, compute_cost_per_token}
use infercost.Calculator.Cloud.{CloudPricing, build_comparisons}
use infercost.Usage.Pods.{Pod, model_label, metrics_endpoint}
use infercost.Profile.Resource.{ProfileResource, hostname_label}

-- a pod of the list, with the node that it is scheduled on, and when the loop is at it
pub record Visit : Type 0 where
  pub pod : Pod
  pub node_name : String
  pub now : ℕ

-- 10 seconds
abbrev pub min_snapshot_interval : ℕ
min_snapshot_interval = 10000000000

-- `r.tokenSnapshots`
abbrev pub Snapshots : Type 0 → Type 0
Snapshots F = String → Option (TokenSnapshot F)

abbrev pub put_snapshot : {F : Type 0} → String → TokenSnapshot F → Snapshots F → Snapshots F
put_snapshot key t snapshots k = if str_eq key k then some t else snapshots k

-- the gauges that the loop sets for a model
pub record PublishedRate (F : Type 0) : Type 0 where
  pub model : String
  pub namespace : String
  pub tokens_per_hour : F
  pub cost_per_token : F
  pub cost_per_million_tokens : F

-- what the loop has changed so far
pub record Scan (F : Type 0) : Type 0 where
  pub snapshots : Snapshots F
  pub total_input_tokens : ℕ
  pub total_output_tokens : ℕ
  pub models : List (ModelData F)
  pub published : List (PublishedRate F)

-- what `scrapeInferencePods` leaves behind
pub record Scraped (F : Type 0) : Type 0 where
  pub snapshots : Snapshots F
  pub published : List (PublishedRate F)
  pub store : Store F

abbrev pub is_on_selected_node : Option String → String → Bool
is_on_selected_node none node = true
is_on_selected_node (some hostname) node = str_eq node hostname

abbrev pub snapshot_key : Pod → String
snapshot_key pod = cat pod.namespace (cat "/" pod.name)

module _ {F : Type 0} ⦃f : Float64 F⦄ where
  -- the tests that lead to `continue` before the pod is scraped
  unfoldable pub is_candidate : ProfileResource F → Visit → Bool
  is_candidate profile v =
      not (str_eq (label_or_empty v.pod.labels model_label) "")
      && (str_eq v.pod.phase "Running" && not (str_eq v.pod.pod_ip ""))
      && is_on_selected_node (profile.node_selector hostname_label) v.node_name

  abbrev pub model_data : Pod → InferenceMetrics F → ModelData F
  model_data pod im = record {
    model = label_or_empty pod.labels model_label;
    namespace = pod.namespace;
    pod = pod.name;
    input_tokens = im.prompt_tokens_total;
    output_tokens = im.predicted_tokens_total;
    tokens_per_hour = f.of_nat 0;
    cost_per_m_tok = f.of_nat 0;
    tokens_per_sec = im.predicted_tokens_per_sec;
    is_active = f.lt (f.of_nat 0) im.requests_processing;
  }

  abbrev pub snapshot_of : ℕ → InferenceMetrics F → TokenSnapshot F
  snapshot_of now im = record {
    timestamp = now;
    input_tokens = im.prompt_tokens_total;
    output_tokens = im.predicted_tokens_total;
  }

  abbrev pub published_rate : F → Pod → TokenSnapshot F → TokenSnapshot F → PublishedRate F
  published_rate hourly_cost pod prev curr =
      let tokens_per_hour = (compute_token_rate prev curr).total_per_hour in
      let cost_per_token = compute_cost_per_token hourly_cost tokens_per_hour in
      record {
        model = label_or_empty pod.labels model_label;
        namespace = pod.namespace;
        tokens_per_hour = tokens_per_hour;
        cost_per_token = cost_per_token;
        cost_per_million_tokens = f.mul cost_per_token (f.of_nat 1000000);
      }

  -- the part of the loop that looks at the snapshot of the pod
  observe : F → Visit → InferenceMetrics F → Option (TokenSnapshot F) → Scan F → Scan F
  observe hourly_cost v im none s = record s {
    snapshots = put_snapshot (snapshot_key v.pod) (snapshot_of v.now im) s.snapshots;
  }
  observe hourly_cost v im (some prev) s =
      let curr = snapshot_of v.now im in
      if ltb (v.now - prev.timestamp) min_snapshot_interval then s else record s {
        snapshots = put_snapshot (snapshot_key v.pod) curr s.snapshots;
        published = s.published ++ (published_rate hourly_cost v.pod prev curr ∷ []);
      }

  abbrev pub count_pod : Visit → InferenceMetrics F → Scan F → Scan F
  count_pod v im s = record s {
    total_input_tokens = add_int64 s.total_input_tokens (f.to_int64 im.prompt_tokens_total);
    total_output_tokens = add_int64 s.total_output_tokens (f.to_int64 im.predicted_tokens_total);
    models = s.models ++ (model_data v.pod im ∷ []);
  }

  -- a pod that fails to scrape is skipped
  visit_scraped : F → Visit → Result ScrapeError (InferenceMetrics F) → Scan F → Scan F
  unfolding observe
  visit_scraped hourly_cost v (err e) s = s
  visit_scraped hourly_cost v (ok im) s =
      observe hourly_cost v im (s.snapshots (snapshot_key v.pod)) (count_pod v im s)

  module _ (format_int : ℕ → String) (fetch : Fetch F) (profile : ProfileResource F) where
    abbrev pub scrape_visit : Visit → Result ScrapeError (InferenceMetrics F)
    scrape_visit v =
        scrape fetch (resolve_backend v.pod.annotations v.pod.labels)
          (metrics_endpoint format_int v.pod)

    visit_pod : F → Visit → Scan F → Scan F
    unfolding visit_scraped
    visit_pod hourly_cost v s =
        if is_candidate profile v then visit_scraped hourly_cost v (scrape_visit v) s else s

    unfoldable pub visit_pods : F → List Visit → Scan F → Scan F
    unfolding visit_pod
    visit_pods hourly_cost [] s = s
    visit_pods hourly_cost (v ∷ vs) s = visit_pods hourly_cost vs (visit_pod hourly_cost v s)

  abbrev pub start_scan : Snapshots F → Scan F
  start_scan snapshots = record {
    snapshots = snapshots;
    total_input_tokens = 0;
    total_output_tokens = 0;
    models = [];
    published = [];
  }

  -- hours since the profile was created, at least 0.001
  unfoldable pub hours_running : ProfileResource F → ℕ → F
  hours_running profile now =
      let h = hours (now - profile.creation_timestamp) in
      if f.lt h (f.dec 1 3) then f.dec 1 3 else h

  -- `none` is an index out of range, a panic
  abbrev pub set_rows : Option (List (ComparisonData F)) → Store F → Option (Store F)
  set_rows none store = none
  set_rows (some rows) store = some (set_comparisons store rows)

  compare_scan :
      List (CloudPricing F) → ProfileResource F → F → ℕ → Scan F → Store F → Option (Store F)
  unfolding hours_running build_comparisons
  compare_scan pricing profile hourly_cost now s store =
      if pos_int64 (add_int64 s.total_input_tokens s.total_output_tokens)
      then set_rows
          (build_comparisons pricing s.total_input_tokens s.total_output_tokens
            (f.mul hourly_cost (hours_running profile now)))
          store
      else some store

  abbrev pub with_models : Scan F → Option (Store F) → Option (Scraped F)
  with_models s none = none
  with_models s (some store) = some (record {
    snapshots = s.snapshots;
    published = s.published;
    store = set_models store s.models;
  })

  module _ (format_int : ℕ → String) (fetch : Fetch F) (pricing : List (CloudPricing F)) where
    -- `now` is the instant after the loop; an error of the list changes nothing
    unfoldable pub scrape_inference_pods :
        ProfileResource F
        → F
        → ℕ
        → Result String (List Visit)
        → Snapshots F
        → Store F
        → Option (Scraped F)
    unfolding visit_pods compare_scan
    scrape_inference_pods profile hourly_cost now (err e) snapshots store =
        some (record { snapshots = snapshots; published = []; store = store })
    scrape_inference_pods profile hourly_cost now (ok visits) snapshots store =
        let s = visit_pods format_int fetch profile hourly_cost visits (start_scan snapshots) in
        with_models s (compare_scan pricing profile hourly_cost now s store)
