-- ===== src/Api/Server.antt =====
-- internal/api/server.go: the handlers. A response has its status and what is encoded as JSON; writing it
-- out, the mux's matching of methods and the life of the server are left out. The namespace is what
-- `Query().Get` returns, empty where the parameter is missing.
use infercost.Base.{ℕ, Option, none, some, String, List, [], ◌∷◌, length, str_eq, if◌then◌else◌}
use infercost.Float.{Float64}
use infercost.Api.Store.{
  Store, CostData, ModelData, NamespaceCostData, ComparisonData, BreakEvenData, BudgetData,
  get_cost_data, get_models, get_comparisons, get_namespace_costs, get_break_even, get_budgets,
}

abbrev pub status_ok : ℕ
status_ok = 200

abbrev pub status_service_unavailable : ℕ
status_service_unavailable = 503

-- the totals that `handleCompare` adds where there is a cost
pub record OnPremTotal (F : Type 0) : Type 0 where
  pub on_prem_cost_usd : F
  pub uptime_hours : F

-- what a handler encodes; lists come with their count
pub data Body (F : Type 0) : Type 0 where
  error_text : String → Body F
  current_cost : CostData F → Body F
  break_even : List (BreakEvenData F) → ℕ → Body F
  namespace_costs : List (NamespaceCostData F) → ℕ → Body F
  models : List (ModelData F) → ℕ → Body F
  compared :
      List (ComparisonData F)
      → List (String × String)
      → String
      → String
      → Option (OnPremTotal F)
      → Body F
  budgets : List (BudgetData F) → ℕ → Body F
  overview : Option (CostData F) → List (ModelData F) → List (ComparisonData F) → Body F
  healthy : Body F

pub record Response (F : Type 0) : Type 0 where
  pub status : ℕ
  pub body : Body F

abbrev pub pricing_sources : List (String × String)
pricing_sources =
    ("OpenAI", "https://developers.openai.com/api/docs/pricing")
    ∷ ("Anthropic", "https://platform.claude.com/docs/en/about-claude/pricing")
    ∷ ("Google", "https://ai.google.dev/gemini-api/docs/pricing")
    ∷ []

module _ {F : Type 0} where
  abbrev pub answer : Body F → Response F
  answer b = record { status = status_ok; body = b }

  abbrev pub unavailable : String → Response F
  unavailable text = record { status = status_service_unavailable; body = error_text text }

  abbrev pub cost_or_unavailable : Option (CostData F) → Response F
  cost_or_unavailable none = unavailable "no cost data available yet — waiting for first reconcile"
  cost_or_unavailable (some c) = answer (current_cost c)

  unfoldable pub handle_costs_current : Store F → Response F
  unfolding get_cost_data
  handle_costs_current store = cost_or_unavailable (get_cost_data store)

  abbrev pub break_even_or_unavailable : List (BreakEvenData F) → Response F
  break_even_or_unavailable [] =
      unavailable "no break-even data available yet — waiting for first reconcile"
  break_even_or_unavailable (b ∷ bs) = answer (break_even (b ∷ bs) (length (b ∷ bs)))

  unfoldable pub handle_break_even : Store F → Response F
  unfolding get_break_even
  handle_break_even store = break_even_or_unavailable (get_break_even store)

  -- the loop of `handleCostsByNamespace`
  unfoldable pub filter_costs : String → List (NamespaceCostData F) → List (NamespaceCostData F)
  filter_costs ns [] = []
  filter_costs ns (c ∷ cs) =
      let rest = filter_costs ns cs in if str_eq c.namespace ns then c ∷ rest else rest

  unfoldable pub handle_costs_by_namespace : String → Store F → Response F
  unfolding filter_costs get_namespace_costs
  handle_costs_by_namespace ns store =
      let costs = get_namespace_costs store in
      let shown = if str_eq ns "" then costs else filter_costs ns costs in
      answer (namespace_costs shown (length shown))

  unfoldable pub handle_models : Store F → Response F
  unfolding get_models
  handle_models store = answer (models (get_models store) (length (get_models store)))

  unfoldable pub handle_budgets : Store F → Response F
  unfolding get_budgets
  handle_budgets store = answer (budgets (get_budgets store) (length (get_budgets store)))

  unfoldable pub handle_status : Store F → Response F
  unfolding get_cost_data get_models get_comparisons
  handle_status store =
      answer (overview (get_cost_data store) (get_models store) (get_comparisons store))

  unfoldable pub handle_healthz : Response F
  handle_healthz = answer healthy

module _ {F : Type 0} ⦃f : Float64 F⦄ where
  abbrev pub on_prem_total : Option (CostData F) → Option (OnPremTotal F)
  on_prem_total none = none
  on_prem_total (some c) = some (record {
    on_prem_cost_usd = f.mul c.hourly_cost_usd c.uptime_hours;
    uptime_hours = c.uptime_hours;
  })

  unfoldable pub handle_compare : Store F → Response F
  unfolding get_comparisons get_cost_data
  handle_compare store = answer (
      compared (get_comparisons store) pricing_sources "2026-03-21"
        "Cloud pricing shown is list price. Does not reflect negotiated enterprise rates or batch discounts."
        (on_prem_total (get_cost_data store)))

  -- the routes of `NewServer`; `none` is a path without a handler
  unfoldable pub serve : String → String → Store F → Option (Response F)
  unfolding handle_costs_current handle_costs_by_namespace handle_models handle_compare
      handle_break_even handle_budgets handle_status handle_healthz
  serve path ns store =
      if str_eq path "/api/v1/costs/current"
      then some (handle_costs_current store)
      else if str_eq path "/api/v1/costs/by-namespace"
      then some (handle_costs_by_namespace ns store)
      else if str_eq path "/api/v1/models"
      then some (handle_models store)
      else if str_eq path "/api/v1/compare"
      then some (handle_compare store)
      else if str_eq path "/api/v1/break-even"
      then some (handle_break_even store)
      else if str_eq path "/api/v1/budgets"
      then some (handle_budgets store)
      else if str_eq path "/api/v1/status"
      then some (handle_status store)
      else if str_eq path "/healthz"
      then some handle_healthz
      else none
