-- ===== src/Usage/BreakEven.antt =====
-- internal/controller/usagereport_controller.go: `defaultBreakEvenTargets`, `computeBreakEven` and
-- `breakEvenToAPI`, with `resolveIdleThreshold` of costprofile_controller.go. The prices are what
-- `DefaultCloudPricing` returns; `strings.ToLower` is an argument.
pub mod Verdict
use infercost.Base.{
  ℕ, Bool, Option, none, some, String, List, [], ◌∷◌, ◌&&◌, str_eq, cat, if◌then◌else◌, add_int64,
}
use infercost.Float.{Float64, of_int64}
use infercost.Utilization.Summary.{default_idle_threshold_watts}
use infercost.Calculator.Cost.{
  daily_hardware_cost, break_even_tokens_per_day, percent_of_break_even,
}
use infercost.Calculator.Cloud.{CloudPricing, cloud_cost_per_token}
use infercost.Api.Store.{BreakEvenData}

pub record CloudTarget : Type 0 where
  pub provider : String
  pub model : String

-- the parts of a cost profile that the analysis reads
pub record ProfileCosts (F : Type 0) : Type 0 where
  pub targets : List CloudTarget
  pub amortization_rate_per_hour : F
  pub idle_watts_threshold : Option F
  pub tdp_watts : Option ℕ
  pub gpu_count : ℕ
  pub rate_per_kwh : F
  pub pue_factor : F

pub record BreakEvenEntry (F : Type 0) : Type 0 where
  pub provider : String
  pub model : String
  pub break_even_tokens_per_day : ℕ
  pub current_utilization_tokens_per_day : ℕ
  pub percent_of_break_even : F
  pub verdict : String

-- the two results of `computeBreakEven`
pub record BreakEvenAnalysis (F : Type 0) : Type 0 where
  pub entries : List (BreakEvenEntry F)
  pub unknown : List String

abbrev pub default_break_even_targets : List CloudTarget
default_break_even_targets =
    record { provider = "OpenAI"; model = "gpt-5.4-mini" }
    ∷ record { provider = "Anthropic"; model = "claude-sonnet-4-6" }
    ∷ record { provider = "Google"; model = "gemini-2.5-flash" }
    ∷ []

abbrev pub targets_or_default : List CloudTarget → List CloudTarget
targets_or_default [] = default_break_even_targets
targets_or_default (t ∷ ts) = t ∷ ts

abbrev pub on_prem_cheaper : String
on_prem_cheaper = "on-prem-cheaper-at-current-utilization"

abbrev pub cloud_cheaper : String
cloud_cheaper = "cloud-cheaper-at-current-utilization"

module _ (to_lower : String → String) where
  -- the key of a price or a target in the map of prices
  abbrev pub pricing_key : String → String → String
  pricing_key provider model = cat (to_lower provider) (cat "/" (to_lower model))

  -- of the prices that have the key, the map holds the one written last
  module _ {F : Type 0} where
    unfoldable pub find_price : String → List (CloudPricing F) → Option (CloudPricing F)
    find_price key [] = none
    find_price key (p ∷ ps) = elim (find_price key ps) [
      | some q ↦ some q
      | none ↦ if str_eq (pricing_key p.provider p.model) key then some p else none
    ]

module _ {F : Type 0} where
  -- `append` to the one or the other result
  abbrev pub add_target :
      (CloudPricing F → BreakEvenEntry F)
      → CloudTarget
      → Option (CloudPricing F)
      → BreakEvenAnalysis F
      → BreakEvenAnalysis F
  add_target entry t (some p) rest = record {
    entries = entry p ∷ rest.entries;
    unknown = rest.unknown;
  }
  add_target entry t none rest = record {
    entries = rest.entries;
    unknown = cat t.provider (cat "/" t.model) ∷ rest.unknown;
  }

  unfoldable pub break_even_to_api : List (BreakEvenEntry F) → List (BreakEvenData F)
  break_even_to_api [] = []
  break_even_to_api (e ∷ es) =
      record {
        provider = e.provider;
        model = e.model;
        break_even_tokens_per_day = e.break_even_tokens_per_day;
        current_utilization_tokens_per_day = e.current_utilization_tokens_per_day;
        percent_of_break_even = e.percent_of_break_even;
        verdict = e.verdict;
      }
      ∷ break_even_to_api es

module _ (to_lower : String → String) {F : Type 0} where
  unfoldable pub break_even_of_targets :
      (CloudPricing F → BreakEvenEntry F)
      → List (CloudPricing F)
      → List CloudTarget
      → BreakEvenAnalysis F
  unfolding find_price
  break_even_of_targets entry pricing [] = record { entries = []; unknown = [] }
  break_even_of_targets entry pricing (t ∷ ts) =
      add_target entry t (find_price to_lower (pricing_key to_lower t.provider t.model) pricing)
        (break_even_of_targets entry pricing ts)

module _ {F : Type 0} ⦃f : Float64 F⦄ where
  abbrev threshold_or_default : Option F → Option ℕ → ℕ → F
  threshold_or_default (some w) tdp gpus = w
  threshold_or_default none tdp gpus = default_idle_threshold_watts tdp gpus

  unfoldable pub resolve_idle_threshold : ProfileCosts F → F
  resolve_idle_threshold profile =
      threshold_or_default profile.idle_watts_threshold profile.tdp_watts profile.gpu_count

  abbrev pub profile_daily_cost : ProfileCosts F → F
  profile_daily_cost profile =
      daily_hardware_cost profile.amortization_rate_per_hour (resolve_idle_threshold profile)
        profile.rate_per_kwh profile.pue_factor

  unfoldable pub current_tokens_per_day : ℕ → ℕ → F → F
  current_tokens_per_day total_in total_out hours_in_period =
      if f.lt (f.of_nat 0) hours_in_period
      then f.mul (f.div (of_int64 (add_int64 total_in total_out)) hours_in_period) (f.of_nat 24)
      else f.of_nat 0

  -- the entry of one target whose price is known
  unfoldable pub entry_of_price : F → F → ℕ → ℕ → CloudPricing F → BreakEvenEntry F
  entry_of_price daily_cost current total_in total_out p =
      let break_even =
        break_even_tokens_per_day daily_cost (cloud_cost_per_token p total_in total_out) in
      record {
        provider = p.provider;
        model = p.model;
        break_even_tokens_per_day = f.to_int64 (f.round break_even);
        current_utilization_tokens_per_day = f.to_int64 (f.round current);
        percent_of_break_even = percent_of_break_even current break_even;
        verdict =
            if f.lt (f.of_nat 0) break_even && f.le break_even current
            then on_prem_cheaper
            else cloud_cheaper;
      }

  module _ (to_lower : String → String) where
    unfoldable pub compute_break_even :
        List (CloudPricing F) → ProfileCosts F → ℕ → ℕ → F → BreakEvenAnalysis F
    unfolding break_even_of_targets
    compute_break_even pricing profile total_in total_out hours_in_period =
        break_even_of_targets to_lower
          (entry_of_price (profile_daily_cost profile)
            (current_tokens_per_day total_in total_out hours_in_period) total_in total_out)
          pricing (targets_or_default profile.targets)
