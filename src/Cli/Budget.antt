-- ===== src/Cli/Budget.antt =====
-- pkg/cli/budget.go: `infercost budget`. A budget comes as an untyped object: a text that is missing or
-- no text is empty, and a number is none where `NestedFloat64` does not find one or fails, which it
-- does for a number that is no `float64`. The list of the cluster is an argument.
use infercost.Base.{
  Bool, Option, none, some, String, List, [], ◌∷◌, map, str_eq, cat, if◌then◌else◌, Result, ok,
  ◌>>=◌, map_err,
}
use infercost.Float.{Float64}
use infercost.Budget.Report.{Entry, budget_status}
use infercost.Cli.Scan.{Line, text, cells}

pub record BudgetObject (F : Type 0) : Type 0 where
  pub name : String
  pub namespace : String
  pub scope_namespace : String
  pub monthly_limit_usd : Option F
  pub current_spend_usd : Option F
  pub utilization_percent : Option F
  pub conditions : List Entry

-- the namespace to list, all where it is empty
pub record BudgetOptions : Type 0 where
  pub namespace : String
  pub all_namespaces : Bool

module _ {F : Type 0} where
  unfoldable pub budget_scope_namespace : BudgetObject F → String
  budget_scope_namespace obj =
      if str_eq obj.scope_namespace "" then obj.namespace else obj.scope_namespace

module _ {F : Type 0} ⦃f : Float64 F⦄ where
  unfoldable pub budget_field_float64 : Option F → F
  budget_field_float64 none = f.of_nat 0
  budget_field_float64 (some v) = v

  unfoldable pub budget_line : BudgetObject F → Line
  unfolding budget_scope_namespace budget_field_float64 budget_status
  budget_line obj = cells (
      budget_scope_namespace obj
      ∷ obj.name
      ∷ cat "$" (f.fixed 2 (budget_field_float64 obj.monthly_limit_usd))
      ∷ cat "$" (f.fixed 4 (budget_field_float64 obj.current_spend_usd))
      ∷ cat (f.fixed 1 (budget_field_float64 obj.utilization_percent)) "%"
      ∷ budget_status obj.conditions
      ∷ [])

  budget_lines : List (BudgetObject F) → List Line
  unfolding budget_line
  budget_lines [] =
      text "No TokenBudgets found. Create one to start tracking spend."
      ∷ text "  kubectl apply -f config/samples/finops_v1alpha1_tokenbudget.yaml"
      ∷ []
  budget_lines (obj ∷ objs) =
      cells ("NAMESPACE" ∷ "BUDGET" ∷ "LIMIT ($)" ∷ "SPEND ($)" ∷ "UTILIZATION" ∷ "STATUS" ∷ [])
      ∷ map budget_line (obj ∷ objs)

  unfoldable pub run_budget :
      BudgetOptions → (String → Result String (List (BudgetObject F))) → Result String (List Line)
  unfolding budget_lines
  run_budget opts list_budgets = do
    objs ← map_err (cat "failed to list TokenBudgets: ") (list_budgets opts.namespace)
    ok (budget_lines objs)
