-- ===== src/Usage/Pods.antt =====
-- internal/controller/usagereport_controller.go: `podIsScrapeable` and `scrapeTokens`. The pod list
-- is what the cluster returned; a list that fails ends the reconcile before this. `fetch` is the
-- scraper's client. A Go map from keys to counts is an association list in some order of iteration.
-- `fmt`'s decimal text of a number is the argument `format_int`.
pub mod Totals
use infercost.Base.{
  ℕ, ◌≡◌, Bool, true, false, not, ◌&&◌, ◌||◌, String, List, [], ◌∷◌, str_eq, cat, any,
  if◌then◌else◌, add_int64, Result, ok, err, ltb,
}
use infercost.Float.{Float64}
use infercost.Scraper.Backend.{Labels, label_or_empty, resolve_backend}
use infercost.Scraper.Port.{resolve_metrics_port}
use infercost.Scraper.Metrics.{InferenceMetrics}
use infercost.Scraper.Dispatch.{Fetch, scrape}

abbrev pub model_label : String
model_label = "inference.llmkube.dev/model"

pub record Pod : Type 0 where
  pub name : String
  pub namespace : String
  pub labels : Labels
  pub annotations : Labels
  pub phase : String
  pub pod_ip : String

pub record ModelKey : Type 0 where
  pub model : String
  pub namespace : String

pub record TokenCounts : Type 0 where
  pub input : ℕ
  pub output : ℕ

-- `nsFilter` holds the report's namespaces
unfoldable pub pod_is_scrapeable : Pod → List String → Bool
pod_is_scrapeable pod [] =
    not (str_eq (label_or_empty pod.labels model_label) "")
    && (str_eq pod.phase "Running" && not (str_eq pod.pod_ip ""))
pod_is_scrapeable pod (n ∷ ns) =
    not (str_eq (label_or_empty pod.labels model_label) "")
    && (str_eq pod.phase "Running" && not (str_eq pod.pod_ip ""))
    && any (λ m. str_eq m pod.namespace) (n ∷ ns)

abbrev pub same_model_key : ModelKey → ModelKey → Bool
same_model_key a b = str_eq a.model b.model && str_eq a.namespace b.namespace

-- `m[k]` read, increased and written back; a missing key counts from 0
unfoldable pub add_counts :
    {K : Type 0}
    → (K → K → Bool)
    → K
    → TokenCounts
    → List (K × TokenCounts)
    → List (K × TokenCounts)
add_counts same k t [] =
    (k, record { input = add_int64 0 t.input; output = add_int64 0 t.output }) ∷ []
add_counts same k t ((j, u) ∷ m) =
    if same j k
    then (j, record { input = add_int64 u.input t.input; output = add_int64 u.output t.output }) ∷ m
    else (j, u) ∷ add_counts same k t m

-- the two maps of `scrapeTokens`
pub record Tokens : Type 0 where
  pub by_model : List (ModelKey × TokenCounts)
  pub by_namespace : List (String × TokenCounts)

unfoldable pub add_pod : Pod → TokenCounts → Tokens → Tokens
unfolding add_counts
add_pod pod t tokens = record {
  by_model =
      add_counts same_model_key
        (record { model = label_or_empty pod.labels model_label; namespace = pod.namespace }) t
        tokens.by_model;
  by_namespace = add_counts str_eq pod.namespace t tokens.by_namespace;
}

module _ (format_int : ℕ → String) where
  abbrev pub metrics_endpoint : Pod → String
  metrics_endpoint pod =
      let backend = resolve_backend pod.annotations pod.labels in
      cat "http://" (
        cat pod.pod_ip (
          cat ":" (
            cat (format_int (resolve_metrics_port backend pod.annotations pod.labels)) "/metrics")))

  module _ {F : Type 0} ⦃f : Float64 F⦄ (fetch : Fetch F) where
    abbrev pub scraped : Pod → List String → Result (Unit {0}) TokenCounts
    scraped pod filter =
        if pod_is_scrapeable pod filter
        then elim (scrape fetch (resolve_backend pod.annotations pod.labels)
            (metrics_endpoint pod)) [
              | ok im ↦ ok (record {
                input = f.to_int64 im.prompt_tokens_total;
                output = f.to_int64 im.predicted_tokens_total;
              })
              | err e ↦ err tt
            ]
        else err tt

    abbrev pub add_scraped : Pod → Result (Unit {0}) TokenCounts → Tokens → Tokens
    add_scraped pod (ok t) tokens = add_pod pod t tokens
    add_scraped pod (err e) tokens = tokens

    -- the loop: a pod that is no candidate or fails to scrape is skipped
    scrape_pods : List String → List Pod → Tokens → Tokens
    unfolding add_pod
    scrape_pods filter [] tokens = tokens
    scrape_pods filter (pod ∷ pods) tokens =
        scrape_pods filter pods (add_scraped pod (scraped pod filter) tokens)

    unfoldable pub scrape_tokens : List String → List Pod → Tokens
    unfolding scrape_pods
    scrape_tokens filter pods =
        scrape_pods filter pods (record { by_model = []; by_namespace = [] })
