-- ===== src/Scraper/Client.antt =====
-- internal/scraper/scraper.go: the client's `Scrape` and `parseMetrics`. The requests of net/http and
-- the text parser of expfmt are parameters; the families that the parser returns are a Go map, and
-- the list has them in the order in which the loop visits them. A label that a metric has twice keeps
-- its last value.
pub mod Unordered
use infercost.Base.{
  ℕ, Bool, not, Option, none, some, String, List, [], ◌∷◌, ◌++◌, str_eq, cat, ◌==◌, if◌then◌else◌,
  Result, ok, err, ◌>>=◌, map_err,
}
use infercost.Float.{Float64}
use infercost.Scraper.Backend.{Labels}
use infercost.Scraper.Metrics.{MetricSample}

pub data MetricType : Type 0 where
  counter gauge summary untyped histogram gauge_histogram : MetricType

pub record LabelPair : Type 0 where
  pub name : String
  pub value : String

-- the three values are 0 where the metric has none
pub record Metric (F : Type 0) : Type 0 where
  pub labels : List LabelPair
  pub gauge_value : F
  pub counter_value : F
  pub untyped_value : F

pub record MetricFamily (F : Type 0) : Type 0 where
  pub name : String
  pub type : MetricType
  pub metrics : List (Metric F)

pub record HttpResponse (Body : Type 0) : Type 0 where
  pub status_code : ℕ
  pub body : Body

abbrev pub http_ok : ℕ
http_ok = 200

-- the loop that fills the map of labels, from what it holds so far
labels_from : Labels → List LabelPair → Labels
labels_from labels [] = labels
labels_from labels (p ∷ ps) =
    labels_from (λ k. if str_eq k p.name then some p.value else labels k) ps

module _ {F : Type 0} where
  -- the `switch`; `none` is `continue`
  metric_value : MetricType → Metric F → Option F
  metric_value gauge m = some m.gauge_value
  metric_value counter m = some m.counter_value
  metric_value untyped m = some m.untyped_value
  metric_value _ m = none

  cons_sample : String → Metric F → Option F → List (MetricSample F) → List (MetricSample F)
  unfolding labels_from
  cons_sample name m none rest = rest
  cons_sample name m (some v) rest =
      record { name = name; labels = labels_from (λ k. none) m.labels; value = v } ∷ rest

  unfoldable pub family_samples : String → MetricType → List (Metric F) → List (MetricSample F)
  unfolding metric_value cons_sample
  family_samples name type [] = []
  family_samples name type (m ∷ ms) =
      cons_sample name m (metric_value type m) (family_samples name type ms)

  unfoldable pub samples_of_families : List (MetricFamily F) → List (MetricSample F)
  unfolding family_samples
  samples_of_families [] = []
  samples_of_families (fam ∷ fams) =
      family_samples fam.name fam.type fam.metrics ++ samples_of_families fams

  module _ {Body : Type 0} (parse : Body → Result String (List (MetricFamily F))) where
    unfoldable pub parse_metrics : Body → Result String (List (MetricSample F))
    unfolding samples_of_families
    parse_metrics body = do
      families ← map_err (cat "parsing metrics: ") (parse body)
      ok (samples_of_families families)

    -- `new_request` and `send`: `http.NewRequestWithContext` and `httpClient.Do`
    module _ {Request : Type 0} (new_request : String → Result String Request)
        (send : Request → Result String (HttpResponse Body)) (format_int : ℕ → String) where
      check_response : String → HttpResponse Body → Result String (List (MetricSample F))
      unfolding parse_metrics
      check_response url resp =
          if not (resp.status_code == http_ok)
          then err (cat "scraping " (cat url (cat ": status " (format_int resp.status_code))))
          else parse_metrics resp.body

      unfoldable pub client_scrape : String → Result String (List (MetricSample F))
      unfolding check_response
      client_scrape url = do
        req ← map_err (cat "creating request: ") (new_request url)
        resp ← map_err (λ e. cat "scraping " (cat url (cat ": " e))) (send req)
        check_response url resp
