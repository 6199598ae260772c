-- ===== src/Metrics/Emit.antt =====
-- internal/controller: where the reconcilers set their gauges. `none` is a panic of the client.
use infercost.Base.{◌||◌, Option, none, some, String, List, [], ◌∷◌, ◌++◌, str_eq, if◌then◌else◌}
use infercost.Float.{Float64, of_int64}
use infercost.Scraper.Backend.{label_or_empty}
use infercost.Scraper.Power.{GpuPowerReading}
use infercost.Scraper.Metrics.{InferenceMetrics}
use infercost.Utilization.Store.Operations.{on_success}
use infercost.Profile.Resource.{ProfileResource, hostname_label}
use infercost.Profile.Pods.{PublishedRate}
use infercost.Calculator.Cloud.{CloudComparison}
use infercost.Usage.BreakEven.{BreakEvenEntry}
use infercost.Budget.Entry.{TokenBudget}
use infercost.Metrics.{
  GaugeVec, Registry, hourly_cost_usd_gauge, amortization_per_hour_gauge,
  electricity_per_hour_gauge, gpu_power_watts_gauge, cost_per_token_usd_gauge,
  cost_per_million_tokens_usd_gauge, cloud_equivalent_cost_usd_gauge, savings_vs_cloud_usd_gauge,
  savings_vs_cloud_percent_gauge, tokens_total_gauge, tokens_per_hour_gauge, budget_limit_usd_gauge,
  budget_current_spend_usd_gauge, budget_utilization_percent_gauge, break_even_tokens_per_day_gauge,
  percent_of_break_even_gauge,
}

-- one call on a gauge
pub record GaugeCall (F : Type 0) : Type 0 where
  pub gauge : GaugeVec
  pub values : List String
  pub value : F

module _ {G F : Type 0} ⦃r : Registry G F⦄ where
  -- one call after the other
  unfoldable pub emit : List (GaugeCall F) → G → Option G
  emit [] d = some d
  emit (c ∷ cs) d = on_success (r.set_gauge d c.gauge c.values c.value) (emit cs)

abbrev pub call : {F : Type 0} → GaugeVec → List String → F → GaugeCall F
call g values v = record { gauge = g; values = values; value = v }

module _ {F : Type 0} where
  abbrev node_or : String → ProfileResource F → String
  node_or fallback profile =
      let node = label_or_empty profile.node_selector hostname_label in
      if str_eq node "" then fallback else node

  -- `Reconcile` of a cost profile, from the amortization, the electricity and their sum
  unfoldable pub cost_calls : ProfileResource F → F → F → F → List (GaugeCall F)
  cost_calls profile amort elec total =
      let node = node_or "unknown" profile in
      call hourly_cost_usd_gauge (profile.name ∷ node ∷ profile.hardware.gpu_model ∷ []) total
      ∷ call amortization_per_hour_gauge (profile.name ∷ node ∷ []) amort
      ∷ call electricity_per_hour_gauge (profile.name ∷ node ∷ []) elec
      ∷ []

  -- `readDCGMPower`
  unfoldable pub power_calls : ProfileResource F → List (GpuPowerReading F) → List (GaugeCall F)
  power_calls profile [] = []
  power_calls profile (g ∷ gs) =
      let rest = power_calls profile gs in
      let node = label_or_empty profile.node_selector hostname_label in
      if str_eq node "" || str_eq g.node node
      then call gpu_power_watts_gauge (profile.name ∷ g.node ∷ g.gpu_id ∷ []) g.power_w ∷ rest
      else rest

  -- `readMetalPower`
  unfoldable pub metal_calls : ProfileResource F → F → List (GaugeCall F)
  metal_calls profile combined =
      call gpu_power_watts_gauge (profile.name ∷ node_or profile.name profile ∷ "soc" ∷ []) combined
      ∷ []

  -- `scrapeInferencePods`, of a pod that was scraped
  unfoldable pub token_calls : String → String → InferenceMetrics F → List (GaugeCall F)
  token_calls model namespace im =
      call tokens_total_gauge (model ∷ namespace ∷ "input" ∷ []) im.prompt_tokens_total
      ∷ call tokens_total_gauge (model ∷ namespace ∷ "output" ∷ []) im.predicted_tokens_total
      ∷ []

  -- and of a pod with an earlier snapshot
  unfoldable pub rate_calls : PublishedRate F → List (GaugeCall F)
  rate_calls p =
      call tokens_per_hour_gauge (p.model ∷ p.namespace ∷ []) p.tokens_per_hour
      ∷ call cost_per_token_usd_gauge (p.model ∷ p.namespace ∷ []) p.cost_per_token
      ∷ call cost_per_million_tokens_usd_gauge (p.model ∷ p.namespace ∷ [])
          p.cost_per_million_tokens
      ∷ []

  -- and of the comparison with the cloud
  unfoldable pub comparison_calls : List (CloudComparison F) → List (GaugeCall F)
  comparison_calls [] = []
  comparison_calls (c ∷ cs) =
      call cloud_equivalent_cost_usd_gauge (c.provider ∷ c.model ∷ []) c.cloud_cost_usd
      ∷ call savings_vs_cloud_usd_gauge (c.provider ∷ c.model ∷ []) c.savings_usd
      ∷ call savings_vs_cloud_percent_gauge (c.provider ∷ c.model ∷ []) c.savings_percent
      ∷ comparison_calls cs

  -- `Reconcile` of a budget, from its spend and its utilization
  unfoldable pub budget_calls : TokenBudget F → F → F → List (GaugeCall F)
  budget_calls budget current_spend utilization =
      let ns = budget.scope_namespace in
      call budget_limit_usd_gauge (ns ∷ budget.name ∷ []) budget.monthly_limit_usd
      ∷ call budget_current_spend_usd_gauge (ns ∷ budget.name ∷ []) current_spend
      ∷ call budget_utilization_percent_gauge (ns ∷ budget.name ∷ []) utilization
      ∷ []

-- the one source of power that a reconcile of a profile asks
pub data PowerSource (F : Type 0) : Type 0 where
  dcgm : List (GpuPowerReading F) → PowerSource F
  metal : F → PowerSource F
  -- no endpoint, or one that did not answer
  no_power : PowerSource F

-- a pod that was scraped, with its rates where it has an earlier snapshot
pub record ScrapedPod (F : Type 0) : Type 0 where
  pub model : String
  pub namespace : String
  pub metrics : InferenceMetrics F
  pub rate : Option (PublishedRate F)

module _ {F : Type 0} where
  unfoldable pub source_calls : ProfileResource F → PowerSource F → List (GaugeCall F)
  source_calls profile (dcgm readings) = power_calls profile readings
  source_calls profile (metal combined) = metal_calls profile combined
  source_calls profile no_power = []

  unfoldable pub rate_calls_of : Option (PublishedRate F) → List (GaugeCall F)
  rate_calls_of none = []
  rate_calls_of (some p) = rate_calls p

  -- the loop of `scrapeInferencePods`
  unfoldable pub pod_calls : List (ScrapedPod F) → List (GaugeCall F)
  unfolding token_calls
  pod_calls [] = []
  pod_calls (p ∷ ps) =
      token_calls p.model p.namespace p.metrics ++ (rate_calls_of p.rate ++ pod_calls ps)

  -- `Reconcile` of a profile; no comparison is an empty list
  unfoldable pub profile_calls :
      ProfileResource F
      → PowerSource F
      → F
      → F
      → F
      → List (ScrapedPod F)
      → List (CloudComparison F)
      → List (GaugeCall F)
  unfolding cost_calls comparison_calls
  profile_calls profile source amort elec total pods cs =
      source_calls profile source
      ++ (cost_calls profile amort elec total ++ (pod_calls pods ++ comparison_calls cs))

module _ {F : Type 0} ⦃f : Float64 F⦄ where
  -- `emitBreakEvenMetrics`
  unfoldable pub emit_break_even_metrics : String → List (BreakEvenEntry F) → List (GaugeCall F)
  emit_break_even_metrics cost_profile [] = []
  emit_break_even_metrics cost_profile (e ∷ es) =
      call break_even_tokens_per_day_gauge (cost_profile ∷ e.provider ∷ e.model ∷ [])
        (of_int64 e.break_even_tokens_per_day)
      ∷ call percent_of_break_even_gauge (cost_profile ∷ e.provider ∷ e.model ∷ [])
          e.percent_of_break_even
      ∷ emit_break_even_metrics cost_profile es
