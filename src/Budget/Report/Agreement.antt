-- ===== src/Budget/Report/Agreement.antt =====
-- The command line reports the status that the controller computed.
use infercost.Base.{
  ◌≡◌, refl, Bool, true, false, not, ◌&&◌, ◌||◌, String, List, [], ◌∷◌, map, str_eq, if◌then◌else◌,
  any, ap, ◌∙◌, sym,
}
use mathlib.Core.Path.{ap₂}
use infercost.Float.{Float64}
use infercost.Budget.Condition.{
  Condition, condition_true, SetCondition, IsSetCondition, HasUniqueTypes, any-eq-holds,
}
use infercost.Budget.Evaluate.{
  AlertThreshold, is_triggered, is_triggered_critical, evaluate_conditions, status_of,
}
use infercost.Budget.Report.{present, budget_status_from, budget_status}
use infercost.Budget.Evaluate.Status.{evaluate_conditions-status, evaluate_conditions-Shows}

shown : Bool → Bool → String
shown true warning = "Exceeded"
shown false true = "Warning"
shown false false = "OK"

entry_step :
    (s x y w over warn : Bool)
    → (if not s
        then shown over (w || warn)
        else if x
        then "Exceeded"
        else if y
        then shown over true
        else shown over (w || warn))
      ≡ shown ((x && s) || over) (w || ((y && s) || warn))
unfolding shown
entry_step false true true w over warn = refl
entry_step false true false w over warn = refl
entry_step false false true w over warn = refl
entry_step false false false w over warn = refl
entry_step true true y w over warn = refl
entry_step true false true true over warn = refl
entry_step true false true false over warn = refl
entry_step true false false w over warn = refl

budget_status_from-any :
    (warning : Bool) (cs : List Condition)
    → budget_status_from warning (map present cs)
      ≡ shown
          (any (λ c. str_eq c.type "BudgetExceeded" && str_eq c.status condition_true) cs)
          (warning || any (λ c. str_eq c.type "BudgetWarning" && str_eq c.status condition_true) cs)
unfolding budget_status_from shown
budget_status_from-any true [] = refl
budget_status_from-any false [] = refl
budget_status_from-any w (c ∷ cs) =
    let over = any (λ c. str_eq c.type "BudgetExceeded" && str_eq c.status condition_true) cs in
    let warn = any (λ c. str_eq c.type "BudgetWarning" && str_eq c.status condition_true) cs in
    rw (budget_status_from-any w cs, budget_status_from-any true cs)
      (entry_step (str_eq c.status condition_true) (str_eq c.type "BudgetExceeded")
        (str_eq c.type "BudgetWarning") w over warn)

-- the wording of the command line for a status of the controller
abbrev pub display : String → String
display status =
    if str_eq status "exceeded"
    then "Exceeded"
    else if str_eq status "warning"
    then "Warning"
    else "OK"

display-status_of : (c w : Bool) → shown c (c || w) ≡ display (status_of c w)
unfolding shown
display-status_of true w = refl
display-status_of false true = refl
display-status_of false false = refl

module _ {F : Type 0} ⦃f : Float64 F⦄ where
  -- What the command line reads from the conditions is the status that the controller computed when
  -- it wrote them, for every earlier list of conditions with unique types.
  pub budget_status-evaluate_conditions :
      (set : SetCondition) (laws : IsSetCondition set) (cs : List Condition)
      (ts : List AlertThreshold) (u : F)
      → HasUniqueTypes cs
      → let r = evaluate_conditions set cs ts u in
        budget_status (map present r.conditions) ≡ display r.status
  unfolding budget_status
  budget_status-evaluate_conditions set laws cs ts u h =
      let r = evaluate_conditions set cs ts u in
      let (over, warn, _, unique) = evaluate_conditions-Shows set laws cs ts u h in
      budget_status_from-any false r.conditions
      ∙ ap₂ shown (any-eq-holds "BudgetExceeded" r.conditions unique ∙ over)
          (any-eq-holds "BudgetWarning" r.conditions unique ∙ warn)
      ∙ display-status_of (any (is_triggered_critical u) ts) (any (is_triggered u) ts)
      ∙ ap display (sym (evaluate_conditions-status set cs ts u))
