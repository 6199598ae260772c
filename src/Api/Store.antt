-- ===== src/Api/Store.antt =====
-- internal/api/store.go: `Store`, its records, setters and getters. The getters return copies, so a
-- caller that changes what it was given changes nothing in the store. The lock makes each call one
-- step. `LastUpdated` of `CostData` is an instant in nanoseconds; `int32` counts are numbers.
use infercost.Base.{ℕ, Option, none, some, String, List, [], Bool}

pub record CostData (F : Type 0) : Type 0 where
  pub profile_name : String
  pub gpu_model : String
  pub gpu_count : ℕ
  pub hourly_cost_usd : F
  pub amortization_per_hr : F
  pub electricity_per_hr : F
  pub power_draw_watts : F
  pub monthly_projected : F
  pub yearly_projected : F
  pub purchase_price_usd : F
  pub amortization_years : ℕ
  pub rate_per_kwh : F
  pub pue_factor : F
  pub uptime_hours : F
  pub last_updated : ℕ

pub record ModelData (F : Type 0) : Type 0 where
  pub model : String
  pub namespace : String
  pub pod : String
  pub input_tokens : F
  pub output_tokens : F
  pub tokens_per_hour : F
  pub cost_per_m_tok : F
  pub tokens_per_sec : F
  pub is_active : Bool

pub record NamespaceCostData (F : Type 0) : Type 0 where
  pub namespace : String
  pub estimated_cost_usd : F
  pub token_count : ℕ
  pub models : List String

pub record ComparisonData (F : Type 0) : Type 0 where
  pub provider : String
  pub model : String
  pub cloud_cost_usd : F
  pub on_prem_cost_usd : F
  pub savings_usd : F
  pub savings_percent : F
  pub input_per_m_tok : F
  pub output_per_m_tok : F

pub record BreakEvenData (F : Type 0) : Type 0 where
  pub provider : String
  pub model : String
  pub break_even_tokens_per_day : ℕ
  pub current_utilization_tokens_per_day : ℕ
  pub percent_of_break_even : F
  pub verdict : String

pub record BudgetData (F : Type 0) : Type 0 where
  pub name : String
  pub namespace : String
  pub monthly_limit_usd : F
  pub current_spend_usd : F
  pub utilization_percent : F
  pub status : String

pub record Store (F : Type 0) : Type 0 where
  pub cost : Option (CostData F)
  pub models : List (ModelData F)
  pub comparisons : List (ComparisonData F)
  pub namespace_costs : List (NamespaceCostData F)
  pub budgets : List (BudgetData F)
  pub break_even : List (BreakEvenData F)

module _ {F : Type 0} where
  abbrev pub new_store : Store F
  new_store = record {
    cost = none;
    models = [];
    comparisons = [];
    namespace_costs = [];
    budgets = [];
    break_even = [];
  }

  unfoldable pub set_cost_data : Store F → CostData F → Store F
  set_cost_data s x = record s { cost = some x }

  unfoldable pub set_models : Store F → List (ModelData F) → Store F
  set_models s x = record s { models = x }

  unfoldable pub set_comparisons : Store F → List (ComparisonData F) → Store F
  set_comparisons s x = record s { comparisons = x }

  unfoldable pub set_break_even : Store F → List (BreakEvenData F) → Store F
  set_break_even s x = record s { break_even = x }

  unfoldable pub set_namespace_costs : Store F → List (NamespaceCostData F) → Store F
  set_namespace_costs s x = record s { namespace_costs = x }

  unfoldable pub set_budgets : Store F → List (BudgetData F) → Store F
  set_budgets s x = record s { budgets = x }

  unfoldable pub get_cost_data : Store F → Option (CostData F)
  get_cost_data s = s.cost

  unfoldable pub get_models : Store F → List (ModelData F)
  get_models s = s.models

  unfoldable pub get_comparisons : Store F → List (ComparisonData F)
  get_comparisons s = s.comparisons

  unfoldable pub get_break_even : Store F → List (BreakEvenData F)
  get_break_even s = s.break_even

  unfoldable pub get_namespace_costs : Store F → List (NamespaceCostData F)
  get_namespace_costs s = s.namespace_costs

  unfoldable pub get_budgets : Store F → List (BudgetData F)
  get_budgets s = s.budgets
