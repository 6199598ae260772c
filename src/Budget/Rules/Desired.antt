-- ===== src/Budget/Rules/Desired.antt =====
-- The rule that stands in the cluster after a reconcile.
use infercost.Base.{
  ◌≡◌, refl, ap, ◌⊎◌, ◌≢◌, inl, inr, true, none, some, Option, String, List, [], ◌∷◌, map, All,
  str_eq, cat, if◌then◌else◌, ℕ,
}
use infercost.Scraper.Port.{codes}
use infercost.Budget.Evaluate.{AlertThreshold, severity_critical, severity_warning}
use infercost.Budget.Rules.{
  RuleOwner, AlertRule, PrometheusRule, Answers, RuleReconciled, no_thresholds, title, alert_rule,
  alert_rules, prometheus_rule, get_rule, apply_rule, with_rules, with_thresholds,
  reconcile_prometheus_rule,
}

abbrev joined : List String → String
joined [] = ""
joined (x ∷ []) = x
joined (x ∷ y ∷ xs) = cat x (joined (y ∷ xs))

-- a severity that the resource definition admits
abbrev pub HasSeverity : AlertThreshold → Type 0
HasSeverity t = (t.severity ≡ severity_warning) ⊎ (t.severity ≡ severity_critical)

abbrev pub titled : String → List ℕ
titled severity = if str_eq severity severity_critical then codes "Critical" else codes "Warning"

title-codes :
    (severity : String)
    → (severity ≡ severity_warning) ⊎ (severity ≡ severity_critical)
    → title (codes severity) ≡ some (titled severity)
title-codes severity (inl e) = rw e refl
title-codes severity (inr e) = rw e refl

nil≢cons : {A : Type 0} (x : A) (xs : List A) → ◌≢◌ {A = List A} [] (x ∷ xs)
nil≢cons x xs h = cc

module _ (format_int : ℕ → String) where
  -- one rule for each threshold, in their order
  abbrev pub wanted_rules : RuleOwner → List AlertThreshold → List AlertRule
  wanted_rules owner ts = map (λ t. alert_rule format_int owner t (titled t.severity)) ts

  alert_rules-wanted :
      (owner : RuleOwner) (ts : List AlertThreshold)
      → All HasSeverity ts
      → alert_rules format_int owner ts ≡ some (wanted_rules owner ts)
  unfolding alert_rules
  alert_rules-wanted owner [] h = refl
  alert_rules-wanted owner (t ∷ ts) (h, hs) =
      rw (title-codes t.severity h, alert_rules-wanted owner ts hs) refl

  -- the cluster takes every call
  abbrev pub IsWilling : Answers → Type 0
  IsWilling a = (a.is_installed ≡ true) × (a.get_ok ≡ true) × (a.write_ok ≡ true)

  -- the alert asks whether the budget's utilization has reached the percentage
  abbrev pub IsAlertOf : RuleOwner → AlertThreshold → AlertRule → Type 0
  IsAlertOf owner t rule =
      let critical = str_eq t.severity "critical" in
      (rule.alert
        ≡ codes (if critical then "InferCostBudgetCritical" else "InferCostBudgetWarning"))
      × (rule.expr
          ≡ joined (
              "infercost_budget_utilization_percent{namespace=\""
              ∷ owner.scope_namespace
              ∷ "\",budget_name=\""
              ∷ owner.name
              ∷ "\"} >= "
              ∷ format_int t.percent
              ∷ []))
      × (rule.for_duration ≡ (if critical then "1m" else "5m"))
      × (rule.severity ≡ t.severity)

  -- one alert for each threshold, in their order
  abbrev pub AreAlertsOf : RuleOwner → List AlertThreshold → List AlertRule → Type 0
  AreAlertsOf owner [] [] = Unit
  AreAlertsOf owner [] (rule ∷ rules) = ⊥
  AreAlertsOf owner (t ∷ ts) [] = ⊥
  AreAlertsOf owner (t ∷ ts) (rule ∷ rules) = IsAlertOf owner t rule × AreAlertsOf owner ts rules

  wanted_rules-AreAlertsOf :
      (owner : RuleOwner) (ts : List AlertThreshold)
      → All HasSeverity ts
      → AreAlertsOf owner ts (wanted_rules owner ts)
  wanted_rules-AreAlertsOf owner [] h = tt
  wanted_rules-AreAlertsOf owner (t ∷ ts) (inl e, hs) =
      ((rw e refl, refl, rw e refl, refl), wanted_rules-AreAlertsOf owner ts hs)
  wanted_rules-AreAlertsOf owner (t ∷ ts) (inr e, hs) =
      ((rw e refl, refl, rw e refl, refl), wanted_rules-AreAlertsOf owner ts hs)

  -- the rule that the budget wants stands there: one group of alerts, and the three labels
  abbrev pub IsDesired : RuleOwner → PrometheusRule → Type 0
  IsDesired owner p =
      (p.labels
        ≡ ("app.kubernetes.io/name", "infercost")
          ∷ ("app.kubernetes.io/managed-by", "infercost")
          ∷ ("infercost.ai/budget", owner.name)
          ∷ [])
      × (rules : List AlertRule) × (p.groups
          ≡ record { name = cat (cat "infercost-budget-" owner.name) ".rules"; rules = rules } ∷ [])
      × AreAlertsOf owner owner.alert_thresholds rules

  apply_rule-IsDesired :
      (answers : Answers) (owner : RuleOwner) (stored : Option PrometheusRule)
      → All HasSeverity owner.alert_thresholds
      → IsWilling answers
      → let wanted = prometheus_rule format_int owner (wanted_rules owner owner.alert_thresholds) in
        (p : PrometheusRule) × ((apply_rule answers wanted stored (get_rule answers stored)).stored
          ≡ some p)
        × IsDesired owner p
  unfolding apply_rule
  apply_rule-IsDesired answers owner none severities (i, g, w) =
      let alerts = wanted_rules-AreAlertsOf owner owner.alert_thresholds severities in
      rw (i, g, w) (_, refl, (refl, _, refl, alerts))
  apply_rule-IsDesired answers owner (some existing) severities (i, g, w) =
      let alerts = wanted_rules-AreAlertsOf owner owner.alert_thresholds severities in
      rw (i, g, w) (_, refl, (refl, _, refl, alerts))

  with_thresholds-some :
      (answers : Answers) (owner : RuleOwner) (stored : Option PrometheusRule)
      (xs : List AlertThreshold) (t : AlertThreshold) (ts : List AlertThreshold)
      (rules : List AlertRule)
      → xs ≡ t ∷ ts
      → alert_rules format_int owner xs ≡ some rules
      → with_thresholds format_int answers owner stored xs
        ≡ some (
            apply_rule answers
              (prometheus_rule format_int owner rules)
              stored
              (get_rule answers stored))
  unfolding with_thresholds with_rules
  with_thresholds-some answers owner stored [] t ts rules has h = absurd (nil≢cons t ts has)
  with_thresholds-some answers owner stored (x ∷ xs) t ts rules has h =
      ap (with_rules format_int answers owner stored) h

  -- Where the cluster has the resource definition of rules and takes every call, one reconcile of a budget
  -- with thresholds of the two severities brings the rule to what the budget wants, whatever stood there
  -- before or nothing: one group with one alert for each threshold, in their order, that is named for its
  -- severity, asks whether the utilization of the budget's scope and name has reached its percentage, and
  -- waits one minute where it is critical and five otherwise; and the three labels, of which one names the
  -- budget.
  pub reconcile_prometheus_rule-IsDesired :
      (answers : Answers) (owner : RuleOwner) (t : AlertThreshold) (ts : List AlertThreshold)
      (stored : Option PrometheusRule)
      → owner.alert_thresholds ≡ t ∷ ts
      → All HasSeverity owner.alert_thresholds
      → IsWilling answers
      → (out : RuleReconciled) × (p : PrometheusRule) × (reconcile_prometheus_rule format_int
            answers owner stored
          ≡ some out)
        × (out.stored ≡ some p)
        × IsDesired owner p
  unfolding reconcile_prometheus_rule
  reconcile_prometheus_rule-IsDesired answers owner t ts stored has severities willing =
      let (p, stands, desired) = apply_rule-IsDesired answers owner stored severities willing in
      let xs = owner.alert_thresholds in
      let ends =
        with_thresholds-some answers owner stored xs t ts (wanted_rules owner xs) has
          (alert_rules-wanted owner xs severities) in
      (_, p, ends, stands, desired)

  -- A budget that has lost its thresholds leaves the old rule standing.
  reconcile_prometheus_rule_lost :
      (answers : Answers) (owner : RuleOwner) (old : Option PrometheusRule)
      → reconcile_prometheus_rule format_int answers (record owner { alert_thresholds = [] }) old
        ≡ some (record { stored = old; outcome = no_thresholds })
  unfolding reconcile_prometheus_rule with_thresholds
  reconcile_prometheus_rule_lost answers owner old = refl
