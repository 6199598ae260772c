-- ===== src/Budget/Entry.antt =====
-- internal/controller/tokenbudget_controller.go: `Reconcile` and `updateAPIStore`. The cluster is left
-- out but for what `Reconcile` gets from it: the budget, or none where it is gone, and whether the
-- status update succeeds. The gauges are in Metrics/Emit; the log and the period bounds are
-- left out. The PrometheusRule, whose errors are only logged, is in Budget/Rules, on its own: nothing
-- here depends on it.
pub mod Upsert
use infercost.Base.{
  ℕ, Bool, true, false, ◌&&◌, Option, none, some, String, List, [], ◌∷◌, str_eq, if◌then◌else◌,
}
use infercost.Float.{Float64}
use infercost.Api.Store.{
  Store, BudgetData, NamespaceCostData, get_budgets, set_budgets, get_namespace_costs,
}
use infercost.Budget.Condition.{Condition, SetCondition}
use infercost.Budget.Evaluate.{AlertThreshold, evaluate_conditions}

pub record TokenBudget (F : Type 0) : Type 0 where
  pub name : String
  pub namespace : String
  pub scope_namespace : String
  pub monthly_limit_usd : F
  pub alert_thresholds : List AlertThreshold
  pub current_spend_usd : F
  pub utilization_percent : F
  pub conditions : List Condition

pub data Outcome : Type 0 where
  -- `ctrl.Result{}` and no error: the budget is gone
  gone : Outcome
  requeue_after_minute : Outcome
  status_update_failed : Outcome

pub record Reconciled (F : Type 0) : Type 0 where
  pub budget : Option (TokenBudget F)
  pub store : Option (Store F)
  pub outcome : Outcome

module _ {F : Type 0} where
  unfoldable pub entry_of : TokenBudget F → String → BudgetData F
  entry_of b status = record {
    name = b.name;
    namespace = b.scope_namespace;
    monthly_limit_usd = b.monthly_limit_usd;
    current_spend_usd = b.current_spend_usd;
    utilization_percent = b.utilization_percent;
    status = status;
  }

  -- the test by which `updateAPIStore` looks for the budget's entry
  abbrev pub is_entry_of : TokenBudget F → BudgetData F → Bool
  is_entry_of b e = str_eq e.name b.name && str_eq e.namespace b.namespace

  -- the loop with its `break`, and the append where nothing was found
  unfoldable pub upsert : TokenBudget F → String → List (BudgetData F) → List (BudgetData F)
  unfolding entry_of
  upsert b status [] = entry_of b status ∷ []
  upsert b status (e ∷ es) =
      if is_entry_of b e then entry_of b status ∷ es else e ∷ upsert b status es

  unfoldable pub update_api_store : Store F → TokenBudget F → String → Store F
  unfolding upsert get_budgets set_budgets
  update_api_store store b status = set_budgets store (upsert b status (get_budgets store))

module _ {F : Type 0} ⦃f : Float64 F⦄ where
  -- the spend of the first entry of the namespace
  unfoldable pub current_spend : String → List (NamespaceCostData F) → F
  current_spend ns [] = f.of_nat 0
  current_spend ns (c ∷ cs) =
      if str_eq c.namespace ns then c.estimated_cost_usd else current_spend ns cs

  unfoldable pub budget_utilization : F → F → F
  budget_utilization spend limit =
      if f.lt (f.of_nat 0) limit then f.mul (f.div spend limit) (f.of_nat 100) else f.of_nat 0

  -- The API store may be absent.
  spend_in : Option (Store F) → String → F
  unfolding current_spend get_namespace_costs
  spend_in none ns = f.of_nat 0
  spend_in (some store) ns = current_spend ns (get_namespace_costs store)

  store_after : Option (Store F) → TokenBudget F → String → Option (Store F)
  unfolding update_api_store
  store_after none b status = none
  store_after (some store) b status = some (update_api_store store b status)

  reconcile_budget : SetCondition → Bool → TokenBudget F → Option (Store F) → Reconciled F
  unfolding spend_in store_after budget_utilization evaluate_conditions
  reconcile_budget set update_ok b store =
      let spend = spend_in store b.scope_namespace in
      let utilization = budget_utilization spend b.monthly_limit_usd in
      let evaluation = evaluate_conditions set b.conditions b.alert_thresholds utilization in
      let b' = record b {
        current_spend_usd = spend;
        utilization_percent = utilization;
        conditions = evaluation.conditions;
      } in
      if update_ok
      then record {
        budget = some b';
        store = store_after store b' evaluation.status;
        outcome = requeue_after_minute;
      }
      else record { budget = some b; store = store; outcome = status_update_failed }

  -- `Reconcile`, with the budget as the cluster returned it
  unfoldable pub reconcile :
      SetCondition → Bool → Option (TokenBudget F) → Option (Store F) → Reconciled F
  unfolding reconcile_budget
  reconcile set update_ok none store = record { budget = none; store = store; outcome = gone }
  reconcile set update_ok (some b) store = reconcile_budget set update_ok b store
