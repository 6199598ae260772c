-- ===== src/Cli/Compare.antt =====
-- pkg/cli/compare.go: `infercost compare`. The answers of the cluster, the two scrape clients and the
-- discovery of models are arguments; `pricing` is what `DefaultCloudPricing` returns. The result is the
-- error, or the lines that are printed. An instant later than now gives no age.
pub mod Rates
use infercost.Base.{
  ℕ, ◌-◌, Bool, true, false, ◌&&◌, String, List, [], ◌∷◌, ◌++◌, map, str_eq, cat, if◌then◌else◌,
  Result, ok, err, ◌>>=◌, map_err,
}
use infercost.Float.{Float64}
use infercost.Profile.Resource.{ProfileResource}
use infercost.Profile.Pods.{hours_running}
use infercost.Calculator.Cloud.{CloudPricing, CloudComparison, compare_to_cloud}
use infercost.Cli.Discovery.{DiscoveredModel}
use infercost.Cli.Scan.{
  Line, text, cells, TokenTotals, ScrapeClients, no_tokens, total_tokens_from, format_token_count,
}

pub record CompareOptions : Type 0 where
  pub namespace : String
  pub monthly : Bool

abbrev compare_footer : List Line
compare_footer =
    text ""
    ∷ text "Cloud pricing: verified list prices as of 2026-03-21."
    ∷ text "Sources: openai.com/pricing, platform.claude.com/pricing, ai.google.dev/pricing"
    ∷ text "Note: Does not reflect negotiated enterprise rates or batch discounts."
    ∷ []

abbrev table_header : List Line
table_header =
    text "PROVIDER        MODEL                  INPUT/MTok  OUTPUT/MTok  CLOUD COST  SAVINGS"
    ∷ text "--------        -----                  ----------  -----------  ----------  -------"
    ∷ []

module _ {F : Type 0} ⦃f : Float64 F⦄ where
  -- the loop over the prices, which stops at the first entry of the model; the input rate and the
  -- output rate, 0 where no entry fits
  unfoldable pub rates_of : List (CloudPricing F) → CloudComparison F → F × F
  rates_of [] c = (f.of_nat 0, f.of_nat 0)
  rates_of (p ∷ ps) c =
      let rest = rates_of ps c in
      if str_eq p.provider c.provider && str_eq p.model c.model
      then (p.input_per_million, p.output_per_million)
      else rest

  -- with so many decimals of a dollar
  unfoldable pub savings_text : ℕ → CloudComparison F → String
  savings_text digits c =
      if f.lt c.savings_percent (f.of_nat 0)
      then cat "-$" (
          cat (f.fixed digits (f.neg c.savings_usd))
            (cat " (" (cat (f.fixed 0 (f.neg c.savings_percent)) "% more)")))
      else cat "$"
          (cat (f.fixed digits c.savings_usd) (cat " (" (cat (f.fixed 0 c.savings_percent) "%)")))

  unfoldable pub comparison_line : List (CloudPricing F) → CloudComparison F → Line
  unfolding rates_of savings_text
  comparison_line pricing c =
      let rates = rates_of pricing c in
      cells (
        c.provider
        ∷ c.model
        ∷ cat "$" (f.fixed 2 rates.0)
        ∷ cat "$" (f.fixed 2 rates.1)
        ∷ cat "$" (f.fixed 2 c.cloud_cost_usd)
        ∷ savings_text 2 c
        ∷ [])

  unfoldable pub monthly_line : CloudComparison F → Line
  unfolding savings_text
  monthly_line c = cells (
      c.provider
      ∷ c.model
      ∷ cat "$" (f.fixed 0 c.cloud_cost_usd)
      ∷ cat "$" (f.fixed 0 c.on_prem_cost_usd)
      ∷ savings_text 0 c
      ∷ [])

  abbrev pub per_month : F → F
  per_month x = f.mul (f.mul x (f.of_nat 24)) (f.of_nat 30)

  -- at an hourly cost, the tokens so far and the hours that they took
  unfoldable pub monthly_lines : List (CloudPricing F) → F → TokenTotals F → F → List Line
  unfolding monthly_line compare_to_cloud format_token_count
  monthly_lines pricing hourly_cost t hours_running =
      let total = f.add t.input t.output in
      let monthly_tokens = per_month (f.div total hours_running) in
      let monthly_on_prem = per_month hourly_cost in
      let ratio = f.div t.input total in
      let monthly_input = f.mul monthly_tokens ratio in
      let monthly_output = f.mul monthly_tokens (f.sub (f.of_nat 1) ratio) in
      (text ""
        ∷ text "MONTHLY PROJECTION (based on current usage rate)"
        ∷ text "================================================"
        ∷ text (cat "Projected tokens/month: " (format_token_count monthly_tokens))
        ∷ text (cat "Projected on-prem cost: $" (cat (f.fixed 2 monthly_on_prem) "/month"))
        ∷ text ""
        ∷ cells ("PROVIDER" ∷ "MODEL" ∷ "CLOUD/MONTH" ∷ "ON-PREM/MONTH" ∷ "SAVINGS/MONTH" ∷ [])
        ∷ [])
      ++ map monthly_line (
          compare_to_cloud (f.to_int64 monthly_input) (f.to_int64 monthly_output) monthly_on_prem
            pricing)

  module _ (format_int : ℕ → String) where
    header_lines : ProfileResource F → F → F → TokenTotals F → List Line
    unfolding format_token_count
    header_lines profile hours on_prem_total t =
        text "CLOUD vs ON-PREM COST COMPARISON"
        ∷ text "================================"
        ∷ text (
            cat "GPU Hardware:    " (
              cat profile.hardware.gpu_model
                (cat " (" (cat (format_int profile.hardware.gpu_count) " GPUs)"))))
        ∷ text (
            cat "Purchase Price:  $" (
              cat (f.fixed 0 profile.hardware.purchase_price_usd) (
                cat " (amortized over "
                  (cat (format_int profile.hardware.amortization_years) " years)"))))
        ∷ text (
            cat "Electricity:     $" (
              cat (f.fixed 2 profile.electricity.rate_per_kwh)
                (cat "/kWh, PUE " (f.fixed 1 profile.electricity.pue_factor))))
        ∷ text
            (cat "Current Power:   " (cat (f.fixed 1 profile.status.current_power_draw_watts) "W"))
        ∷ text (cat "Uptime:          " (cat (f.fixed 1 hours) " hours"))
        ∷ text ""
        ∷ text (
            cat "Tokens Processed: " (
              cat (format_token_count t.input) (
                cat " input + " (
                  cat (format_token_count t.output) (
                    cat " output = "
                      (cat (format_token_count (f.add t.input t.output)) " total"))))))
        ∷ text (
            cat "On-Prem Cost:     $" (
              cat (f.fixed 4 on_prem_total)
                (cat " (infrastructure total for " (cat (f.fixed 1 hours) " hours)"))))
        ∷ text ""
        ∷ []

    -- what is printed of the first profile and of the tokens that were read
    unfoldable pub comparison_report :
        List (CloudPricing F) → Bool → ProfileResource F → ℕ → TokenTotals F → List Line
    unfolding header_lines comparison_line monthly_lines compare_to_cloud hours_running
    comparison_report pricing monthly profile now t =
        let hours = hours_running profile now in
        let on_prem_total = f.mul profile.status.hourly_cost_usd hours in
        if f.eq (f.add t.input t.output) (f.of_nat 0)
        then text "No token data available. Run some inference requests first." ∷ []
        else header_lines profile hours on_prem_total t
          ++ (table_header
              ++ (map (comparison_line pricing) (
                    compare_to_cloud (f.to_int64 t.input) (f.to_int64 t.output) on_prem_total
                      pricing)
                  ++ ((if monthly && f.lt (f.of_nat 0) hours
                        then monthly_lines pricing profile.status.hourly_cost_usd t hours
                        else [])
                      ++ compare_footer)))

    module _ (pricing : List (CloudPricing F)) (clients : ScrapeClients F)
        (discover : String → Result String (List DiscoveredModel)) where
      compare_profiles : CompareOptions → ℕ → List (ProfileResource F) → Result String (List Line)
      unfolding comparison_report total_tokens_from
      compare_profiles opts now [] =
          ok (text "No CostProfiles found. Create one to start tracking costs." ∷ [])
      compare_profiles opts now (profile ∷ rest) = do
        models ← discover opts.namespace
        ok (
            comparison_report pricing opts.monthly profile now
              (total_tokens_from clients no_tokens models))

      unfoldable pub run_compare :
          CompareOptions → ℕ → Result String (List (ProfileResource F)) → Result String (List Line)
      unfolding compare_profiles
      run_compare opts now list_profiles = do
        profiles ← map_err (cat "failed to list CostProfiles: ") list_profiles
        compare_profiles opts now profiles
