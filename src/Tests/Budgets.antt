-- ===== src/Tests/Budgets.antt =====
-- Tests and examples of the budgets.
use infercost.Budget.Rules.{
  RuleOwner, PrometheusRule, Answers, RuleReconciled, reconcile_prometheus_rule,
}
use infercost.Budget.Rules.Desired.{IsDesired, reconcile_prometheus_rule-IsDesired}
use infercost.Tests.Data.{decimal}
use infercost.Base.{
  ℕ, true, some, none, inl, inr, ◌≡◌, refl, not, ◌||◌, String, List, [], ◌∷◌, any, map, length, ◌+◌,
}
use infercost.Float.Whole.{Whole, pos, whole_float}
use infercost.Api.Store.{Store, new_store}
use infercost.Budget.Condition.{
  Condition, HasUniqueTypes, set_in_place, set_in_place-IsSetCondition, holds,
}
use infercost.Budget.Evaluate.{
  AlertThreshold, is_triggered, is_triggered_critical, evaluate_conditions, status_of,
}
use infercost.Budget.Evaluate.Status.{evaluate_conditions-status, evaluate_conditions-Shows}
use infercost.Budget.Report.{present, budget_status}
use infercost.Budget.Report.Agreement.{display, budget_status-evaluate_conditions}
use infercost.Budget.Entry.{TokenBudget, update_api_store}
use infercost.Budget.Entry.Upsert.{
  lookup, shown, update_times, update_api_store-replaces, update_api_store-grows,
}

abbrev threshold_at : ℕ → String → AlertThreshold
threshold_at p s = record { percent = p; severity = s }

abbrev three_thresholds : List AlertThreshold
three_thresholds =
    threshold_at 100 "critical" ∷ threshold_at 50 "info" ∷ threshold_at 80 "warning" ∷ []

abbrev old_condition : Condition
old_condition = record { type = "BudgetWarning"; status = "False"; reason = "r"; message = "m" }

abbrev old_conditions : List Condition
old_conditions = old_condition ∷ []

status_examples :
    ((evaluate_conditions set_in_place old_conditions three_thresholds (pos 120)).status
      ≡ "exceeded")
    × ((evaluate_conditions set_in_place old_conditions three_thresholds (pos 60)).status
        ≡ "warning")
    × ((evaluate_conditions set_in_place old_conditions three_thresholds (pos 40)).status ≡ "ok")
unfolding evaluate_conditions
status_examples = (refl, refl, refl)

conditions_status :
    (evaluate_conditions set_in_place old_conditions three_thresholds (pos 120)).status
    ≡ status_of
        (any (is_triggered_critical (pos 120)) three_thresholds)
        (any (is_triggered (pos 120)) three_thresholds)
conditions_status =
    evaluate_conditions-status set_in_place old_conditions three_thresholds (pos 120)

conditions_shown :
    (holds "BudgetExceeded"
        (evaluate_conditions set_in_place old_conditions three_thresholds (pos 60)).conditions
      ≡ any (is_triggered_critical (pos 60)) three_thresholds)
    × (holds "BudgetWarning"
          (evaluate_conditions set_in_place old_conditions three_thresholds (pos 60)).conditions
        ≡ (any (is_triggered_critical (pos 60)) three_thresholds
            || any (is_triggered (pos 60)) three_thresholds))
    × (holds "BudgetOK"
          (evaluate_conditions set_in_place old_conditions three_thresholds (pos 60)).conditions
        ≡ not (
            any (is_triggered_critical (pos 60)) three_thresholds
            || any (is_triggered (pos 60)) three_thresholds))
    × HasUniqueTypes
        (evaluate_conditions set_in_place old_conditions three_thresholds (pos 60)).conditions
conditions_shown =
    evaluate_conditions-Shows set_in_place set_in_place-IsSetCondition old_conditions
      three_thresholds (pos 60) (refl, tt)

budget_status-evaluate_conditions_example :
    budget_status (
      map present
        (evaluate_conditions set_in_place old_conditions three_thresholds (pos 120)).conditions)
    ≡ display (evaluate_conditions set_in_place old_conditions three_thresholds (pos 120)).status
budget_status-evaluate_conditions_example =
    budget_status-evaluate_conditions set_in_place set_in_place-IsSetCondition old_conditions
      three_thresholds (pos 120) (refl, tt)

abbrev budget_for : String → TokenBudget Whole
budget_for scope = record {
  name = "b";
  namespace = "ops";
  scope_namespace = scope;
  monthly_limit_usd = pos 100;
  alert_thresholds = three_thresholds;
  current_spend_usd = pos 60;
  utilization_percent = pos 60;
  conditions = [];
}

abbrev empty : Store Whole
empty = new_store

-- the same budget later
abbrev spent : TokenBudget Whole
spent = record (budget_for "ops") { current_spend_usd = pos 90; utilization_percent = pos 90 }

update_api_store-replaces_example :
    let twice = update_api_store (update_api_store empty (budget_for "ops") "ok") spent "warning" in
    (twice ≡ update_api_store empty spent "warning")
    × (lookup "b" "ops" twice.budgets ≡ some (shown spent "warning"))
update_api_store-replaces_example =
    update_api_store-replaces empty (budget_for "ops") spent "ok" "warning" (refl, refl) refl refl

update_api_store-grows_example :
    length (update_times 3 empty (budget_for "team-a") "ok").budgets ≡ length empty.budgets + 3
update_api_store-grows_example = update_api_store-grows 3 empty (budget_for "team-a") "ok" refl refl

abbrev rule_owner : RuleOwner
rule_owner = record {
  name = "b";
  namespace = "finops";
  scope_namespace = "team-a";
  alert_thresholds =
      record { percent = 80; severity = "warning" }
      ∷ record { percent = 100; severity = "critical" }
      ∷ [];
}

abbrev willing : Answers
willing = record { is_installed = true; get_ok = true; write_ok = true }

reconcile_prometheus_rule-IsDesired_example :
    (out : RuleReconciled) × (p : PrometheusRule) × (reconcile_prometheus_rule decimal willing
        rule_owner none
      ≡ some out)
    × (out.stored ≡ some p)
    × IsDesired decimal rule_owner p
reconcile_prometheus_rule-IsDesired_example =
    reconcile_prometheus_rule-IsDesired decimal willing rule_owner
      (record { percent = 80; severity = "warning" })
      (record { percent = 100; severity = "critical" } ∷ []) none refl (inl refl, (inr refl, tt))
      (refl, refl, refl)
