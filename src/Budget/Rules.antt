-- ===== src/Budget/Rules.antt =====
-- internal/controller/tokenbudget_controller.go: `reconcilePrometheusRule`. The cluster is what it holds
-- under the name of the rule in the budget's namespace, and how it answers. The name of an alert is
-- bytes. The owner reference and the copy of the spec, which cannot fail for a new object in the budget's
-- own namespace, are left out; `fmt`'s decimal text is an argument.
pub mod Desired
use infercost.Base.{
  ℕ, ◌+◌, ◌-◌, ◌/◌, ◌%◌, Bool, true, false, Option, none, some, String, List, [], ◌∷◌, ◌++◌, str_eq,
  cat, if◌then◌else◌, ltb, Result, ok, err,
}
use infercost.Scraper.Port.{codes}
use infercost.Budget.Evaluate.{AlertThreshold, severity_critical}

-- the budget's parts that the rule names
pub record RuleOwner : Type 0 where
  pub name : String
  pub namespace : String
  pub scope_namespace : String
  pub alert_thresholds : List AlertThreshold

pub record AlertRule : Type 0 where
  pub alert : List ℕ
  pub expr : String
  pub for_duration : String
  pub severity : String
  pub summary : String

pub record RuleGroup : Type 0 where
  pub name : String
  pub rules : List AlertRule

pub record PrometheusRule : Type 0 where
  pub name : String
  pub namespace : String
  pub labels : List (String × String)
  pub groups : List RuleGroup

-- `string(b)` of a byte, in UTF-8
abbrev pub byte_text : ℕ → List ℕ
byte_text b = if ltb b 128 then b ∷ [] else (192 + b / 64) ∷ (128 + b % 64) ∷ []

-- the first letter in upper case; `none` is an index out of range, a panic
abbrev pub title : List ℕ → Option (List ℕ)
title [] = none
title (c ∷ cs) = some (byte_text ((c + 256 - 32) % 256) ++ cs)

abbrev pub for_of_severity : String → String
for_of_severity severity = if str_eq severity severity_critical then "1m" else "5m"

module _ (format_int : ℕ → String) (owner : RuleOwner) where
  abbrev pub alert_rule : AlertThreshold → List ℕ → AlertRule
  alert_rule t severity_title = record {
    alert = codes "InferCostBudget" ++ severity_title;
    expr = cat "infercost_budget_utilization_percent{namespace=\"" (
        cat owner.scope_namespace
          (cat "\",budget_name=\"" (cat owner.name (cat "\"} >= " (format_int t.percent)))));
    for_duration = for_of_severity t.severity;
    severity = t.severity;
    summary = cat "Inference budget at {{ $value }}% for namespace " owner.scope_namespace;
  }

  abbrev pub cons_rule :
      AlertThreshold → Option (List ℕ) → Option (List AlertRule) → Option (List AlertRule)
  cons_rule t none rules = none
  cons_rule t (some s) none = none
  cons_rule t (some s) (some rules) = some (alert_rule t s ∷ rules)

  -- the loop over the thresholds
  unfoldable pub alert_rules : List AlertThreshold → Option (List AlertRule)
  alert_rules [] = some []
  alert_rules (t ∷ ts) = cons_rule t (title (codes t.severity)) (alert_rules ts)

  abbrev pub prometheus_rule : List AlertRule → PrometheusRule
  prometheus_rule rules = record {
    name = cat "infercost-budget-" owner.name;
    namespace = owner.namespace;
    labels =
        ("app.kubernetes.io/name", "infercost")
        ∷ ("app.kubernetes.io/managed-by", "infercost")
        ∷ ("infercost.ai/budget", owner.name)
        ∷ [];
    groups =
        record { name = cat (cat "infercost-budget-" owner.name) ".rules"; rules = rules } ∷ [];
  }

-- an error of a call to the cluster
pub data CallError : Type 0 where
  not_found no_match other_error : CallError

-- how the cluster answers; without the resource definition every call finds no match
pub record Answers : Type 0 where
  pub is_installed : Bool
  pub get_ok : Bool
  pub write_ok : Bool

pub data RuleOutcome : Type 0 where
  no_thresholds not_installed created updated failed : RuleOutcome

pub record RuleReconciled : Type 0 where
  pub stored : Option PrometheusRule
  pub outcome : RuleOutcome

abbrev pub stored_rule : Option PrometheusRule → Result CallError PrometheusRule
stored_rule none = err not_found
stored_rule (some p) = ok p

abbrev pub get_rule : Answers → Option PrometheusRule → Result CallError PrometheusRule
get_rule answers stored =
    if answers.is_installed
    then (if answers.get_ok then stored_rule stored else err other_error)
    else err no_match

-- `Create` or `Update` of a rule that leaves another behind
abbrev pub write_rule : Answers → PrometheusRule → Result CallError PrometheusRule
write_rule answers p =
    if answers.is_installed
    then (if answers.write_ok then ok p else err other_error)
    else err no_match

abbrev pub after_create : Option PrometheusRule → Result CallError PrometheusRule → RuleReconciled
after_create stored (ok p) = record { stored = some p; outcome = created }
after_create stored (err no_match) = record { stored = stored; outcome = not_installed }
after_create stored (err not_found) = record { stored = stored; outcome = failed }
after_create stored (err other_error) = record { stored = stored; outcome = failed }

abbrev pub after_update : Option PrometheusRule → Result CallError PrometheusRule → RuleReconciled
after_update stored (ok p) = record { stored = some p; outcome = updated }
after_update stored (err e) = record { stored = stored; outcome = failed }

-- the calls, for the rule that the budget wants
pub apply_rule :
    Answers
    → PrometheusRule
    → Option PrometheusRule
    → Result CallError PrometheusRule
    → RuleReconciled
apply_rule answers wanted stored (ok existing) =
    after_update stored
      (write_rule answers (record existing { groups = wanted.groups; labels = wanted.labels }))
apply_rule answers wanted stored (err not_found) = after_create stored (write_rule answers wanted)
apply_rule answers wanted stored (err no_match) = record {
  stored = stored;
  outcome = not_installed;
}
apply_rule answers wanted stored (err other_error) = record { stored = stored; outcome = failed }

module _ (format_int : ℕ → String) (answers : Answers) where
  pub with_rules :
      RuleOwner → Option PrometheusRule → Option (List AlertRule) → Option RuleReconciled
  unfolding apply_rule
  with_rules owner stored none = none
  with_rules owner stored (some rules) =
      some (
        apply_rule answers (prometheus_rule format_int owner rules) stored
          (get_rule answers stored))

  pub with_thresholds :
      RuleOwner → Option PrometheusRule → List AlertThreshold → Option RuleReconciled
  unfolding with_rules alert_rules
  with_thresholds owner stored [] = some (record { stored = stored; outcome = no_thresholds })
  with_thresholds owner stored (t ∷ ts) =
      with_rules owner stored (alert_rules format_int owner (t ∷ ts))

  -- `none` is a panic
  unfoldable pub reconcile_prometheus_rule :
      RuleOwner → Option PrometheusRule → Option RuleReconciled
  unfolding with_thresholds
  reconcile_prometheus_rule owner stored = with_thresholds owner stored owner.alert_thresholds
