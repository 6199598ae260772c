-- ===== src/Metrics/Alert.antt =====
-- internal/controller/tokenbudget_controller.go: the alert of a threshold reads the series that the
-- reconcile sets.
use Prim.Native.String.{◌++◌ as cat}
use text.Mathlib.TextLemmas.{append_assoc}
use infercost.Base.{
  ℕ, ◌≡◌, refl, sym, ap, ◌∙◌, Bool, false, Option, none, some, String, List, [], ◌∷◌, str_eq_refl,
  arith,
}
use infercost.Float.{Float64}
use infercost.Budget.Evaluate.{AlertThreshold, is_triggered}
use infercost.Budget.Entry.{TokenBudget}
use infercost.Budget.Rules.{RuleOwner, alert_rule}
use infercost.Utilization.Store.Operations.{on_success}
use infercost.Metrics.{
  GaugeVec, full_name, Registry, IsRegistry, budget_limit_usd_gauge, budget_current_spend_usd_gauge,
  budget_utilization_percent_gauge,
}
use infercost.Metrics.Emit.{emit, budget_calls}

-- the labels of a query, as PromQL writes them
abbrev label_matchers : List String → List String → String
label_matchers [] values = ""
label_matchers (l ∷ ls) [] = ""
label_matchers (l ∷ []) (v ∷ vs) = cat l (cat "=\"" (cat v "\""))
label_matchers (l ∷ m ∷ ls) (v ∷ vs) =
    cat l (cat "=\"" (cat v (cat "\"," (label_matchers (m ∷ ls) vs))))

-- the query for a series that is at least a number
abbrev pub query_text : (ℕ → String) → GaugeVec → List String → ℕ → String
query_text format_int g values n =
    cat (full_name g) (cat "{" (cat (label_matchers g.labels values) (cat "} >= " (format_int n))))

-- whether the query finds the series
abbrev pub fires : {F : Type 0} ⦃f : Float64 F⦄ → Option F → ℕ → Bool
fires none n = false
fires ⦃f⦄ (some v) n = f.le (f.of_nat n) v

abbrev pub owner_of : {F : Type 0} → TokenBudget F → RuleOwner
owner_of b = record {
  name = b.name;
  namespace = b.namespace;
  scope_namespace = b.scope_namespace;
  alert_thresholds = b.alert_thresholds;
}

push_back :
    (l e v c m w q z : String)
    → cat (cat l (cat e (cat v (cat c (cat m (cat e (cat w q))))))) z
      ≡ cat l (cat e (cat v (cat c (cat m (cat e (cat w (cat q z)))))))
push_back l e v c m w q z = simp append_assoc

module _ (format_int : ℕ → String) {F : Type 0} where
  alert_rule-query :
      (b : TokenBudget F) (t : AlertThreshold) (severity_title : List ℕ)
      → let rule = alert_rule format_int (owner_of b) t severity_title in
        rule.expr
        ≡ query_text format_int budget_utilization_percent_gauge
            (b.scope_namespace ∷ b.name ∷ [])
            t.percent
  alert_rule-query b t severity_title =
      let metric : String = "infercost_budget_utilization_percent" in
      let tail = cat "\"} >= " (format_int t.percent) in
      let after = cat "\",budget_name=\"" (cat b.name tail) in
      let values = cat b.scope_namespace after in
      append_assoc metric "{namespace=\"" values
      ∙ ap (cat metric) (
          append_assoc "{" "namespace=\"" values
          ∙ ap (cat "{") (
              append_assoc "namespace" "=\"" values
              ∙ ap (λ x. cat "namespace" (cat "=\"" (cat b.scope_namespace x)))
                  (append_assoc "\"," "budget_name=\"" (cat b.name tail)
                    ∙ ap (cat "\",") (
                        append_assoc "budget_name" "=\"" (cat b.name tail)
                        ∙ ap (λ x. cat "budget_name" (cat "=\"" (cat b.name x)))
                            (append_assoc "\"" "} >= " (format_int t.percent))))
              ∙ sym (
                  push_back "namespace" "=\"" b.scope_namespace "\"," "budget_name" b.name "\""
                    (cat "} >= " (format_int t.percent)))))

some_inj : {A : Type 0} (x y : A) → Path (Option A) (some x) (some y) → x ≡ y
some_inj x y h = cc

some_of_on_success :
    {A B : Type 0} (o : Option A) (g : A → Option B) (b : B)
    → on_success o g ≡ some b
    → (a : A) × (o ≡ some a) × (g a ≡ some b)
some_of_on_success none g b h = ground (arith, h)
some_of_on_success (some a) g b h = (a, refl, h)

module _ {G F : Type 0} ⦃r : Registry G F⦄ ⦃f : Float64 F⦄ (laws : IsRegistry G F) where
  utilization-set :
      (b : TokenBudget F) (spend utilization : F) (d e : G)
      → emit (budget_calls b spend utilization) d ≡ some e
      → r.gauge_value e budget_utilization_percent_gauge (b.scope_namespace ∷ b.name ∷ [])
        ≡ some utilization
  unfolding emit budget_calls
  utilization-set b spend utilization d e h =
      let values = b.scope_namespace ∷ b.name ∷ [] in
      let (d1, set1, h1) =
        some_of_on_success (r.set_gauge d budget_limit_usd_gauge values b.monthly_limit_usd) _ e
          h in
      let (d2, set2, h2) =
        some_of_on_success (r.set_gauge d1 budget_current_spend_usd_gauge values spend) _ e h1 in
      let (d3, set3, h3) =
        some_of_on_success (r.set_gauge d2 budget_utilization_percent_gauge values utilization) _ e
          h2 in
      let done = some_inj d3 e h3 in
      ap (λ x. r.gauge_value x budget_utilization_percent_gauge values) (sym done)
      ∙ laws.gauge_value-set_gauge d2 d3 budget_utilization_percent_gauge
          budget_utilization_percent_gauge values values utilization set3
      ∙ rw (str_eq_refl b.scope_namespace, str_eq_refl b.name) refl

  -- After a reconcile set the gauges of a budget, the query of each of its alerts asks for the series
  -- of the utilization under the budget's labels, and finds that it reaches the threshold just where
  -- the evaluation of the conditions takes the threshold as triggered. The client behaves as documented.
  pub alert_rule-fires :
      (format_int : ℕ → String) (b : TokenBudget F) (t : AlertThreshold) (severity_title : List ℕ)
      (spend utilization : F) (d e : G)
      → emit (budget_calls b spend utilization) d ≡ some e
      → let values = b.scope_namespace ∷ b.name ∷ [] in
        ((alert_rule format_int (owner_of b) t severity_title).expr
          ≡ query_text format_int budget_utilization_percent_gauge values t.percent)
        × (fires (r.gauge_value e budget_utilization_percent_gauge values) t.percent
            ≡ is_triggered utilization t)
  alert_rule-fires format_int b t severity_title spend utilization d e h = (
    alert_rule-query format_int b t severity_title,
    rw (utilization-set b spend utilization d e h) refl,
  )
