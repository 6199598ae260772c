-- ===== src/Focus/Row.antt =====
-- internal/focus/focus.go: `Columns`, `buildRow` and the two ways to fill a row. Instants count
-- nanoseconds from Go's zero time. Their text and the bounds of their month come from the standard
-- library's calendar: the parameter `Calendar`. Token counts are `int64` patterns.
use infercost.Base.{
  ℕ, Option, none, some, String, List, [], ◌∷◌, ◌++◌, cat, if◌then◌else◌, ◌==◌, add_int64,
}
use infercost.Float.{Float64}

abbrev pub columns : List String
columns =
    "BilledCost" ∷ "EffectiveCost" ∷ "ListCost" ∷ "ContractedCost" ∷ "ChargePeriodStart"
    ∷ "ChargePeriodEnd" ∷ "BillingPeriodStart" ∷ "BillingPeriodEnd" ∷ "Currency" ∷ "ServiceName"
    ∷ "ServiceCategory" ∷ "ProviderName" ∷ "PublisherName" ∷ "InvoiceIssuerName" ∷ "ResourceId"
    ∷ "ResourceName" ∷ "ResourceType" ∷ "Region" ∷ "UsageQuantity" ∷ "UsageUnit" ∷ "PricingUnit"
    ∷ "PricingCategory" ∷ "ChargeCategory" ∷ "ChargeClass" ∷ "ChargeDescription" ∷ "ChargeFrequency"
    ∷ "SkuId" ∷ "SkuPriceId" ∷ "SubAccountId" ∷ "SubAccountName" ∷ "Tags" ∷ "x-InferCostProfile"
    ∷ "x-InferGpuModel" ∷ "x-InferGpuCount" ∷ "x-InferTokensInput" ∷ "x-InferTokensOutput"
    ∷ "x-InferAmortizationYears" ∷ "x-InferElectricityRatePerKWh" ∷ "x-InferPUEFactor"
    ∷ "x-InferCloudEquivalentProvider" ∷ "x-InferCloudEquivalentModel"
    ∷ "x-InferCloudEquivalentCostUSD" ∷ "x-InferSavingsUSD" ∷ "x-InferSavingsPercent" ∷ []

-- `t.UTC().Format(time.RFC3339)`, the first instant of the month and of the next month, and the
-- decimal text of an `int64`
pub record Calendar : Type 0 where
  pub rfc3339 : ℕ → String
  pub month_start : ℕ → ℕ
  pub next_month_start : ℕ → ℕ
  pub format_int : ℕ → String

pub record ModelCostBreakdown (F : Type 0) : Type 0 where
  pub model : String
  pub namespace : String
  pub input_tokens : ℕ
  pub output_tokens : ℕ
  pub estimated_cost_usd : F
  pub cost_per_million_tokens : F

pub record CloudComparisonEntry (F : Type 0) : Type 0 where
  pub provider : String
  pub model : String
  pub estimated_cloud_cost_usd : F
  pub savings_usd : F
  pub savings_percent : F

-- the parts of a report that the export reads
pub record UsageReport (F : Type 0) : Type 0 where
  pub name : String
  pub namespace : String
  pub cost_profile_ref : String
  pub schedule : String
  pub period : String
  pub period_start : Option ℕ
  pub period_end : Option ℕ
  pub input_tokens : ℕ
  pub output_tokens : ℕ
  pub estimated_cost_usd : F
  pub by_model : List (ModelCostBreakdown F)
  pub cloud_comparison : List (CloudComparisonEntry F)

-- the parts of a cost profile that the export reads
pub record CostProfile (F : Type 0) : Type 0 where
  pub gpu_model : String
  pub gpu_count : ℕ
  pub amortization_years : ℕ
  pub rate_per_kwh : F
  pub pue_factor : F

-- the texts that the two callers hand to `buildRow`
pub record RowTexts : Type 0 where
  pub resource_id : String
  pub resource_name : String
  pub sub_account_id : String
  pub sub_account_name : String
  pub charge_desc : String
  pub sku_id : String
  pub tags : String

-- the zero instant where the status has none
abbrev pub instant_or_zero : Option ℕ → ℕ
instant_or_zero none = 0
instant_or_zero (some t) = t

module _ (calendar : Calendar) where
  open calendar use {rfc3339, month_start, next_month_start, format_int}

  unfoldable pub iso_time : ℕ → String
  iso_time t = if t == 0 then "" else rfc3339 t

  unfoldable pub month_bounds : ℕ → ℕ × ℕ
  month_bounds t = if t == 0 then (t, t) else (month_start t, next_month_start t)

  module _ {F : Type 0} ⦃f : Float64 F⦄ where
    abbrev pub money : F → String
    money v = f.fixed 4 v

    -- the five columns of the best comparison
    comparison_cells : Option (CloudComparisonEntry F) → F → List String
    comparison_cells none on_prem = "" ∷ "" ∷ "" ∷ "" ∷ "" ∷ []
    comparison_cells (some best) on_prem =
        best.provider
        ∷ best.model
        ∷ money best.estimated_cloud_cost_usd
        ∷ money (f.sub best.estimated_cloud_cost_usd on_prem)
        ∷ f.fixed 2 best.savings_percent
        ∷ []

    unfoldable pub build_row :
        (cost : F) (start end total_tokens : ℕ) (texts : RowTexts) (profile : CostProfile F)
        (profile_name region : String) (tokens_in tokens_out : ℕ)
        (best : Option (CloudComparisonEntry F)) (on_prem_cost : F)
        → List String
    unfolding iso_time month_bounds comparison_cells
    build_row cost start end total_tokens texts profile profile_name region tokens_in tokens_out
          best on_prem_cost =
        let cost_str = money cost in
        let (billing_start, billing_end) = month_bounds start in
        (cost_str
          ∷ cost_str
          ∷ cost_str
          ∷ cost_str
          ∷ iso_time start
          ∷ iso_time end
          ∷ iso_time billing_start
          ∷ iso_time billing_end
          ∷ "USD"
          ∷ "On-Prem AI Inference"
          ∷ "AI and Machine Learning"
          ∷ "InferCost"
          ∷ "Self-Hosted"
          ∷ "Self-Hosted"
          ∷ texts.resource_id
          ∷ texts.resource_name
          ∷ "AI Inference Endpoint"
          ∷ region
          ∷ format_int total_tokens
          ∷ "Tokens"
          ∷ "1M Tokens"
          ∷ "Usage-Based"
          ∷ "Usage"
          ∷ ""
          ∷ texts.charge_desc
          ∷ "Usage-Based"
          ∷ texts.sku_id
          ∷ texts.sku_id
          ∷ texts.sub_account_id
          ∷ texts.sub_account_name
          ∷ texts.tags
          ∷ profile_name
          ∷ profile.gpu_model
          ∷ format_int profile.gpu_count
          ∷ format_int tokens_in
          ∷ format_int tokens_out
          ∷ format_int profile.amortization_years
          ∷ f.shortest profile.rate_per_kwh
          ∷ f.shortest profile.pue_factor
          ∷ [])
        ++ comparison_cells best on_prem_cost

    build_tags : UsageReport F → ModelCostBreakdown F → CostProfile F → String
    build_tags r m profile = cat "{\"report\":\"" (
        cat r.name (
          cat "\",\"schedule\":\"" (
            cat r.schedule (
              cat "\",\"model\":\""
                (cat m.model (cat "\",\"gpuModel\":\"" (cat profile.gpu_model "\"}")))))))

    unfoldable pub row_from_model :
        UsageReport F
        → ModelCostBreakdown F
        → CostProfile F
        → String
        → Option (CloudComparisonEntry F)
        → List String
    unfolding build_row build_tags
    row_from_model r m profile region best =
        build_row m.estimated_cost_usd (instant_or_zero r.period_start)
          (instant_or_zero r.period_end) (add_int64 m.input_tokens m.output_tokens)
          (record {
            resource_id = cat r.namespace (cat "/" (cat r.name (cat "/" m.model)));
            resource_name = m.model;
            sub_account_id = m.namespace;
            sub_account_name = m.namespace;
            charge_desc = cat "Inference on " (cat m.model (cat " for period " r.period));
            sku_id = m.model;
            tags = build_tags r m profile;
          })
          profile r.cost_profile_ref region m.input_tokens m.output_tokens best m.estimated_cost_usd

    unfoldable pub row_from_totals :
        UsageReport F → CostProfile F → String → Option (CloudComparisonEntry F) → List String
    unfolding build_row
    row_from_totals r profile region best =
        build_row r.estimated_cost_usd (instant_or_zero r.period_start)
          (instant_or_zero r.period_end) (add_int64 r.input_tokens r.output_tokens)
          (record {
            resource_id = cat r.namespace (cat "/" r.name);
            resource_name = r.name;
            sub_account_id = r.namespace;
            sub_account_name = r.namespace;
            charge_desc = cat "Inference rollup for period " (cat r.period " (no model breakdown)");
            sku_id = "";
            tags = cat "costProfile=" r.cost_profile_ref;
          })
          profile r.cost_profile_ref region r.input_tokens r.output_tokens best r.estimated_cost_usd
