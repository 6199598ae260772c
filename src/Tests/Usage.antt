-- ===== src/Tests/Usage.antt =====
-- Tests and examples of internal/utilization and of the usage reports.
use infercost.Base.{
  String, Bool, true, false, ℕ, ◌≡◌, refl, ◌-◌, leb, none, some, List, [], ◌∷◌, All, length, ◌+◌,
  map, keep, add_int64, arith,
}
use Prim.Native.Nat.{max}
use infercost.Float.{◌≼◌}
use infercost.Float.Whole.{Whole, pos, whole_float, Whole-IsOrdered}
use infercost.Utilization.Sample.{Sample, IsChronological, is_retained}
use infercost.Utilization.Search.{search, IsMonotone, IsTurn, search-IsTurn}
use infercost.Utilization.Retention.{gc_locked}
use infercost.Utilization.Retention.Filter.{gc_locked-eq-keep}
use infercost.Utilization.Record.{Reading, no_windows, record_all}
use infercost.Utilization.Record.Window.{AreTimely, history, last_cutoff, record_all-window}
use infercost.Utilization.Summary.{summarize}
use infercost.Utilization.Summary.Bounds.{summarize-active-le-total}
use infercost.Utilization.Summary.Coverage.{
  overlaps, sum_hours, sum, observed_from, summarize-coverage,
}
use infercost.Usage.Pods.{scrape_tokens, pod_is_scrapeable}
use infercost.Scraper.Dispatch.{scrape}
use infercost.Scraper.Backend.{resolve_backend, default_port}
use infercost.Scraper.Port.{resolve_metrics_port}
use infercost.Scraper.Metrics.{llama_metrics}
use infercost.Usage.Pods.Totals.{input_side, total, scraped_total, scrape_tokens-totals}
use infercost.Usage.Breakdown.{build_breakdowns}
use infercost.Usage.Breakdown.Totals.{column_sum, api_row, build_breakdowns-totals}
use infercost.Usage.BreakEven.{ProfileCosts, compute_break_even, targets_or_default}
use infercost.Usage.BreakEven.Verdict.{IsPastBreakEven, compute_break_even-verdict}
use infercost.Tests.Data.{fetch_two, two_pods, two_prices, decimal}

abbrev sample_at : ℕ → ℕ → Sample Whole
sample_at t w = record { at = t; power_w = pos w; active_w = pos 50 }

-- every hour
abbrev three_samples : List (Sample Whole)
three_samples =
    sample_at 3600000000000 100 ∷ sample_at 7200000000000 20 ∷ sample_at 10800000000000 90 ∷ []

three_IsChronological : IsChronological three_samples
three_IsChronological = ((omega arith, (omega arith, tt)), ((omega arith, tt), (tt, tt)))

gc_locked_examples :
    (length (gc_locked 7200000000000 three_samples) ≡ 2)
    × (length (gc_locked 7200000000001 three_samples) ≡ 1)
    × (length (gc_locked 0 three_samples) ≡ 3)
unfolding gc_locked
gc_locked_examples = (refl, refl, refl)

gc_locked-eq-keep_example :
    gc_locked 7200000000000 three_samples ≡ keep (is_retained 7200000000000) three_samples
gc_locked-eq-keep_example = gc_locked-eq-keep 7200000000000 three_samples three_IsChronological

from_three : IsMonotone 5 (leb 3)
from_three i k le lt e = ground arith

search-IsTurn_example : IsTurn 5 (leb 3) (search 5 (leb 3))
search-IsTurn_example = search-IsTurn 5 (leb 3) from_three

summarize-active-le-total_example :
    (pos 0 ≼ (summarize three_samples 0 14400000000000).active_hours)
    × ((summarize three_samples 0 14400000000000).active_hours
        ≼ (summarize three_samples 0 14400000000000).total_hours)
summarize-active-le-total_example =
    summarize-active-le-total Whole-IsOrdered three_samples 0 14400000000000

summarize-coverage_example :
    ((summarize three_samples 0 14400000000000).total_hours
      ≡ sum_hours (pos 0) (overlaps 0 14400000000000 three_samples))
    × (sum (overlaps 0 14400000000000 three_samples)
        ≡ 14400000000000 - max (observed_from 14400000000000 three_samples) 0)
summarize-coverage_example = summarize-coverage three_samples 0 14400000000000 three_IsChronological

scrape_tokens-totals_example :
    (total input_side 0 (scrape_tokens decimal fetch_two [] two_pods).by_model
      ≡ scraped_total decimal fetch_two input_side [] 0 two_pods)
    × (total input_side 0 (scrape_tokens decimal fetch_two [] two_pods).by_namespace
        ≡ scraped_total decimal fetch_two input_side [] 0 two_pods)
scrape_tokens-totals_example = scrape_tokens-totals decimal fetch_two input_side [] two_pods

-- the pod that answers is counted
scrape_tokens_example : scraped_total decimal fetch_two input_side [] 0 two_pods ≡ 120
unfolding add_int64 pod_is_scrapeable scrape resolve_backend resolve_metrics_port default_port
    llama_metrics
scrape_tokens_example = refl

build_breakdowns-totals_example :
    (column_sum
        (λ r. r.input_tokens)
        0
        (build_breakdowns (scrape_tokens decimal fetch_two [] two_pods) (pos 9)).by_model
      ≡ (build_breakdowns (scrape_tokens decimal fetch_two [] two_pods) (pos 9)).total_in)
    × (column_sum
          (λ r. r.output_tokens)
          0
          (build_breakdowns (scrape_tokens decimal fetch_two [] two_pods) (pos 9)).by_model
        ≡ (build_breakdowns (scrape_tokens decimal fetch_two [] two_pods) (pos 9)).total_out)
    × (column_sum
          (λ r. r.token_count)
          0
          (build_breakdowns (scrape_tokens decimal fetch_two [] two_pods) (pos 9)).by_namespace
        ≡ add_int64
            (build_breakdowns (scrape_tokens decimal fetch_two [] two_pods) (pos 9)).total_in
            (build_breakdowns (scrape_tokens decimal fetch_two [] two_pods) (pos 9)).total_out)
    × (map api_row
          (build_breakdowns (scrape_tokens decimal fetch_two [] two_pods) (pos 9)).ns_cost_data
        ≡ (build_breakdowns (scrape_tokens decimal fetch_two [] two_pods) (pos 9)).by_namespace)
build_breakdowns-totals_example = build_breakdowns-totals decimal fetch_two [] two_pods (pos 9)

abbrev profile : ProfileCosts Whole
profile = record {
  targets = [];
  amortization_rate_per_hour = pos 1;
  idle_watts_threshold = some (pos 1000);
  tdp_watts = none;
  gpu_count = 2;
  rate_per_kwh = pos 1;
  pue_factor = pos 0;
}

compute_break_even-verdict_example :
    All IsPastBreakEven (compute_break_even (λ s. s) two_prices profile 1000 500 (pos 2)).entries
    × (length (compute_break_even (λ s. s) two_prices profile 1000 500 (pos 2)).entries
          + length (compute_break_even (λ s. s) two_prices profile 1000 500 (pos 2)).unknown
        ≡ length (targets_or_default profile.targets))
compute_break_even-verdict_example =
    compute_break_even-verdict (λ s. s) Whole-IsOrdered two_prices profile 1000 500 (pos 2)
      (refl, (refl, tt))

-- of the default targets two have a price, and both are past their break-even
compute_break_even_example :
    (length (compute_break_even (λ s. s) two_prices profile 1000 500 (pos 2)).entries ≡ 2)
    × ((compute_break_even (λ s. s) two_prices profile 1000 500 (pos 2)).unknown
        ≡ "Anthropic/claude-sonnet-4-6" ∷ [])
unfolding compute_break_even
compute_break_even_example = (refl, refl)

abbrev power_at : String → ℕ → Bool → Reading Whole
power_at key t persisted = record {
  key = key;
  power_w = pos 100;
  active_threshold_w = pos 50;
  now = t;
  persisted = persisted;
}

-- the store refuses the third
abbrev five_readings : List (Reading Whole)
five_readings =
    power_at "a" 100 true
    ∷ power_at "b" 110 true
    ∷ power_at "a" 120 false
    ∷ power_at "a" 130 true
    ∷ power_at "a" 160 true
    ∷ []

five_AreTimely : AreTimely 0 five_readings
five_AreTimely = (omega arith, (omega arith, (omega arith, (omega arith, (omega arith, tt)))))

record_all-window_example :
    record_all 40 five_readings no_windows "a"
    ≡ keep (is_retained (last_cutoff 40 "a" 0 five_readings)) (history "a" [] five_readings)
record_all-window_example = record_all-window 40 "a" five_readings five_AreTimely

record_all_example :
    (length (record_all 40 five_readings no_windows "a") ≡ 2)
    × (length (record_all 40 five_readings no_windows "b") ≡ 1)
unfolding record_all
record_all_example = (refl, refl)
