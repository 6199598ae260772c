-- ===== src/Cli/Status.antt =====
-- pkg/cli/status.go: `infercost status`. The answers of the cluster, the two scrape clients and the
-- discovery of models are arguments, and so is the decimal text of a number, `format_int`. The result
-- is the lines that are printed and, behind them, the error. An instant later than now gives no age.

pub mod Idle
use infercost.Base.{
  ℕ, ◌-◌, Bool, true, false, not, Option, none, some, String, List, [], ◌∷◌, ◌++◌, map, str_eq, cat,
  if◌then◌else◌, leb, ltb, Result, ok, err, length, ◌==◌,
}
use infercost.Float.{Float64}
use infercost.Utilization.Sample.{hours}
use infercost.Scraper.Metrics.{InferenceMetrics}
use infercost.Scraper.Dispatch.{ScrapeError}
use infercost.Profile.Resource.{ProfileResource}
use infercost.Calculator.Cloud.{CloudPricing, CloudComparison, compare_to_cloud}
use infercost.Message.Status.{status_message}
use infercost.Usage.Status.{ReportStatus}
use infercost.Cli.Discovery.{DiscoveredModel}
use infercost.Cli.Text.{split_lines, format_age}
use infercost.Cli.Scan.{
  Line, text, cells, TokenTotals, ScrapeClients, no_tokens, total_tokens_from, scrape_model,
  format_token_count,
}

-- a report of the list, with the parts that are printed
pub record NamedReport (F : Type 0) : Type 0 where
  pub name : String
  pub status : ReportStatus F

pub record Printed : Type 0 where
  pub lines : List Line
  pub error : Option String

abbrev infrastructure_header : List Line
infrastructure_header =
    text "INFRASTRUCTURE COSTS"
    ∷ text "===================="
    ∷ cells ("PROFILE" ∷ "GPU MODEL" ∷ "GPUs" ∷ "$/HOUR" ∷ "AMORT" ∷ "ELEC" ∷ "POWER" ∷ "AGE" ∷ [])
    ∷ []

abbrev models_header : List Line
models_header = text "\nINFERENCE MODELS" ∷ text "================" ∷ []

abbrev models_columns : Line
models_columns = cells (
    "MODEL" ∷ "NAMESPACE" ∷ "SOURCE" ∷ "INPUT TOKENS" ∷ "OUTPUT TOKENS" ∷ "TOKENS/SEC" ∷ "STATUS"
    ∷ [])

abbrev no_models : List DiscoveredModel → List Line
no_models [] = text "  No inference models found." ∷ []
no_models (m ∷ ms) = []

-- a row without figures, behind which stands the phase or the failure
abbrev blank_row : DiscoveredModel → String → Line
blank_row m state = cells (m.name ∷ m.namespace ∷ m.source_name ∷ "-" ∷ "-" ∷ "-" ∷ state ∷ [])

module _ (format_int : ℕ → String) {F : Type 0} ⦃f : Float64 F⦄ where
  profile_line : ℕ → ProfileResource F → Line
  unfolding format_age
  profile_line now p = cells (
      p.name
      ∷ p.hardware.gpu_model
      ∷ format_int p.hardware.gpu_count
      ∷ cat "$" (f.fixed 4 p.status.hourly_cost_usd)
      ∷ cat "$" (f.fixed 4 p.status.amortization_rate_per_hour)
      ∷ cat "$" (f.fixed 4 p.status.electricity_cost_per_hour)
      ∷ cat (f.fixed 1 p.status.current_power_draw_watts) "W"
      ∷ format_age format_int F (now - p.creation_timestamp)
      ∷ [])

  abbrev active_status : F → String
  active_status requests =
      if f.lt (f.of_nat 0) requests
      then cat "Active (" (cat (format_int (f.to_int64 requests)) " req)")
      else "Idle"

  abbrev scraped_row : DiscoveredModel → Result ScrapeError (InferenceMetrics F) → Line
  scraped_row m (err e) = blank_row m "Scrape Error"
  scraped_row m (ok im) = cells (
      m.name
      ∷ m.namespace
      ∷ m.source_name
      ∷ format_token_count im.prompt_tokens_total
      ∷ format_token_count im.predicted_tokens_total
      ∷ f.fixed 1 im.predicted_tokens_per_sec
      ∷ active_status im.requests_processing
      ∷ [])

  -- the row of a model in the table of models
  unfoldable pub model_row : ScrapeClients F → DiscoveredModel → Line
  unfolding scrape_model format_token_count
  model_row clients m =
      if not m.is_scrapable then blank_row m m.phase else scraped_row m (scrape_model clients m)

  -- the lines of the reports, of which one was printed before or none
  unfoldable pub report_lines : Bool → List (NamedReport F) → List Line
  unfolding split_lines status_message
  report_lines printed [] = []
  report_lines printed (r ∷ rs) =
      let skip = report_lines printed rs in
      let rest = report_lines true rs in
      let header = if printed then [] else text "\nUSAGE REPORTS" ∷ text "=============" ∷ [] in
      let body = map (λ l. text (cat "  " l)) (split_lines (status_message format_int r.status)) in
      if str_eq r.status.view.period ""
      then skip
      else header ++ (text (cat "\n" (cat r.name ":")) ∷ body ++ rest)

  -- an error of the list is not shown
  abbrev reports_or_none : Result String (List (NamedReport F)) → List Line
  reports_or_none (err e) = []
  reports_or_none (ok rs) = report_lines false rs

module _ {F : Type 0} ⦃f : Float64 F⦄ where
  projection_lines : List (ProfileResource F) → List Line
  projection_lines [] = []
  projection_lines (p ∷ ps) =
      let rest = projection_lines ps in
      let hourly = p.status.hourly_cost_usd in
      let monthly = f.mul (f.mul hourly (f.of_nat 24)) (f.of_nat 30) in
      let yearly = f.mul hourly (f.of_nat 8760) in
      if f.lt (f.of_nat 0) hourly
      then text (
          cat "\n  " (
            cat p.name (
              cat " projected: $"
                (cat (f.fixed 2 monthly) (cat "/month, $" (cat (f.fixed 2 yearly) "/year"))))))
        ∷ rest
      else rest

  unfoldable pub quick_line : CloudComparison F → Line
  quick_line c =
      let savings =
        if f.lt c.savings_percent (f.of_nat 0)
        then cat "-$" (
            cat (f.fixed 2 (f.neg c.savings_usd))
              (cat " (cloud " (cat (f.fixed 0 (f.neg c.savings_percent)) "% cheaper)")))
        else cat "$"
            (cat (f.fixed 2 c.savings_usd) (cat " (" (cat (f.fixed 0 c.savings_percent) "%)"))) in
      cells
        (cat "  " c.provider ∷ c.model ∷ cat "$" (f.fixed 2 c.cloud_cost_usd) ∷ savings ∷ "" ∷ [])

  -- of the first profile, where any tokens were read
  quick_comparison : List (CloudPricing F) → ℕ → ProfileResource F → TokenTotals F → List Line
  unfolding quick_line compare_to_cloud format_token_count
  quick_comparison pricing now profile t =
      let hours_running = hours (now - profile.creation_timestamp) in
      let on_prem_total = f.mul profile.status.hourly_cost_usd hours_running in
      if f.lt (f.of_nat 0) (f.add t.input t.output)
      then text "\nQUICK COMPARISON"
        ∷ text "================"
        ∷ text (
            cat "  Total tokens processed: " (
              cat (format_token_count t.input)
                (cat " input + " (cat (format_token_count t.output) " output"))))
        ∷ text (
            cat "  On-prem cost ("
              (cat (f.fixed 1 hours_running) (cat " hours): $" (f.fixed 4 on_prem_total))))
        ∷ text ""
        ∷ cells ("  PROVIDER" ∷ "MODEL" ∷ "CLOUD COST" ∷ "SAVINGS" ∷ "" ∷ [])
        ∷ map quick_line
            (compare_to_cloud (f.to_int64 t.input) (f.to_int64 t.output) on_prem_total pricing)
      else []

module _ (format_int : ℕ → String) {F : Type 0} ⦃f : Float64 F⦄ (pricing : List (CloudPricing F))
    (clients : ScrapeClients F) (discover : String → Result String (List DiscoveredModel)) where
  -- behind the infrastructure, from what discovery returned
  status_of_models :
      ℕ
      → ProfileResource F
      → List Line
      → Result String (List (NamedReport F))
      → Result String (List DiscoveredModel)
      → Printed
  unfolding model_row quick_comparison report_lines total_tokens_from
  status_of_models now profile before reports (err e) = record { lines = before; error = some e }
  status_of_models now profile before reports (ok models) = record {
    lines =
        before
        ++ (models_columns ∷ map (model_row format_int clients) models
            ++ (no_models models
                ++ (quick_comparison pricing now profile
                      (total_tokens_from clients no_tokens models)
                    ++ reports_or_none format_int reports)));
    error = none;
  }

  -- from the namespace to look into, now, and the lists of profiles and of reports
  unfoldable pub run_status :
      String
      → ℕ
      → Result String (List (ProfileResource F))
      → Result String (List (NamedReport F))
      → Printed
  unfolding status_of_models profile_line projection_lines
  run_status namespace now (err e) reports = record {
    lines = [];
    error = some (cat "failed to list CostProfiles: " e);
  }
  run_status namespace now (ok []) reports = record {
    lines =
        text "No CostProfiles found. Create one to start tracking costs."
        ∷ text "  kubectl apply -f config/samples/finops_v1alpha1_costprofile.yaml"
        ∷ [];
    error = none;
  }
  run_status namespace now (ok (p ∷ ps)) reports =
      status_of_models now p
        (infrastructure_header
          ++ (map (profile_line format_int now) (p ∷ ps)
              ++ (projection_lines (p ∷ ps) ++ models_header)))
        reports (discover namespace)
