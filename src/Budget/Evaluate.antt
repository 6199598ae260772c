-- ===== src/Budget/Evaluate.antt =====
-- internal/controller/tokenbudget_controller.go: `evaluateConditions`. Percents are positive by the
-- schema of the resource. `LastTransitionTime` is left out.
pub mod Status
use infercost.Base.{
  ℕ, Bool, true, false, not, ◌&&◌, String, List, [], ◌∷◌, str_eq, cat, if◌then◌else◌,
}
use infercost.Float.{Float64}
use infercost.Budget.Condition.{Condition, condition_true, condition_false, SetCondition}

abbrev pub severity_critical : String
severity_critical = "critical"

abbrev pub severity_warning : String
severity_warning = "warning"

pub record AlertThreshold : Type 0 where
  pub percent : ℕ
  pub severity : String

abbrev condition : String → String → String → String → Condition
condition t s r m = record { type = t; status = s; reason = r; message = m }

-- the status, from whether a critical threshold and whether any threshold is crossed
abbrev pub status_of : Bool → Bool → String
status_of true crossed = "exceeded"
status_of false true = "warning"
status_of false false = "ok"

-- what `evaluateConditions` returns: the new conditions and the budget status
pub record Evaluation : Type 0 where
  pub conditions : List Condition
  pub status : String

module _ {F : Type 0} ⦃f : Float64 F⦄ where
  abbrev pub is_triggered : F → AlertThreshold → Bool
  is_triggered utilization t = f.le (f.of_nat t.percent) utilization

  -- the loop over the thresholds
  highest_severity : F → String → List AlertThreshold → String
  highest_severity u highest [] = highest
  highest_severity u highest (t ∷ ts) =
      highest_severity u
        (if is_triggered u t
          then (if str_eq t.severity severity_critical
              then severity_critical
              else if not (str_eq highest severity_critical)
              then severity_warning
              else highest)
          else highest)
        ts

  abbrev utilization_at : F → String
  utilization_at u = cat "Budget utilization at " (cat (f.fixed 1 u) "%")

  set_critical : SetCondition → List Condition → F → List Condition
  set_critical set cs u =
      let over = cat (utilization_at u) " exceeds critical threshold" in
      let a = set cs (condition "BudgetOK" condition_false "BudgetExceeded" over) in
      let b =
        set a (condition "BudgetWarning" condition_true "ThresholdCrossed" (utilization_at u)) in
      set b (condition "BudgetExceeded" condition_true "CriticalThresholdCrossed" over)

  set_warning : SetCondition → List Condition → F → List Condition
  set_warning set cs u =
      let over = cat (utilization_at u) " exceeds warning threshold" in
      let a = set cs (condition "BudgetOK" condition_false "BudgetWarning" over) in
      let b =
        set a (condition "BudgetWarning" condition_true "ThresholdCrossed" (utilization_at u)) in
      set b (
        condition "BudgetExceeded" condition_false "WithinBudget"
          "Budget utilization is below critical threshold")

  set_ok : SetCondition → List Condition → F → List Condition
  set_ok set cs u =
      let a = set cs (
        condition "BudgetOK" condition_true "WithinBudget"
          (cat (utilization_at u) " is within limits")) in
      let b = set a (
        condition "BudgetWarning" condition_false "WithinBudget"
          "Budget utilization is below warning threshold") in
      set b (
        condition "BudgetExceeded" condition_false "WithinBudget"
          "Budget utilization is below critical threshold")

  -- the `switch` over the highest severity
  conclude : SetCondition → List Condition → F → String → Evaluation
  unfolding set_critical set_warning set_ok
  conclude set cs u highest =
      if str_eq highest severity_critical
      then record { conditions = set_critical set cs u; status = "exceeded" }
      else if str_eq highest severity_warning
      then record { conditions = set_warning set cs u; status = "warning" }
      else record { conditions = set_ok set cs u; status = "ok" }

  unfoldable pub evaluate_conditions :
      SetCondition → List Condition → List AlertThreshold → F → Evaluation
  unfolding conclude highest_severity
  evaluate_conditions set cs thresholds u = conclude set cs u (highest_severity u "" thresholds)

  -- a threshold that is crossed, and one of the severity `critical` that is
  abbrev pub is_triggered_critical : F → AlertThreshold → Bool
  is_triggered_critical u t = is_triggered u t && str_eq t.severity severity_critical
