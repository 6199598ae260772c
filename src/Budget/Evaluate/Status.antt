-- ===== src/Budget/Evaluate/Status.antt =====
-- The severity loop, the status and the conditions against the set of crossed thresholds.
use infercost.Base.{
  ◌≡◌, refl, Bool, true, false, not, ◌&&◌, ◌||◌, String, some, List, [], ◌∷◌, str_eq, if◌then◌else◌,
  any, or_false, ◌∙◌, ap,
}
use infercost.Float.{Float64}
use infercost.Budget.Condition.{
  Condition, SetCondition, IsSetCondition, HasUniqueTypes, holds, is_true_option, find_condition,
}
use infercost.Budget.Evaluate.{
  AlertThreshold, severity_critical, severity_warning, is_triggered, is_triggered_critical,
  highest_severity, evaluate_conditions, status_of, conclude, set_critical, set_warning, set_ok,
}

abbrev severity_of : Bool → Bool → String
severity_of true crossed = severity_critical
severity_of false true = severity_warning
severity_of false false = ""

severity_step :
    (triggered critical c w : Bool)
    → (if triggered
        then (if critical
            then severity_critical
            else if not (str_eq (severity_of c w) severity_critical)
            then severity_warning
            else severity_of c w)
        else severity_of c w)
      ≡ severity_of (c || (triggered && critical)) (w || triggered)
severity_step true true true w = refl
severity_step true true false w = refl
severity_step true false true w = refl
severity_step true false false true = refl
severity_step true false false false = refl
severity_step false critical true w = refl
severity_step false critical false true = refl
severity_step false critical false false = refl

or_assoc : (a b c : Bool) → ((a || b) || c) ≡ (a || (b || c))
or_assoc true b c = refl
or_assoc false b c = refl

module _ {F : Type 0} ⦃f : Float64 F⦄ where
  highest_severity-eq :
      (u : F) (critical warning : Bool) (ts : List AlertThreshold)
      → highest_severity u (severity_of critical warning) ts
        ≡ severity_of
            (critical || any (is_triggered_critical u) ts)
            (warning || any (is_triggered u) ts)
  unfolding highest_severity
  highest_severity-eq u c w [] = rw (or_false c, or_false w)
  highest_severity-eq u c w (t ∷ ts) =
      let crit = str_eq t.severity severity_critical in
      let trig = is_triggered u t in
      rw (
        severity_step trig crit c w,
        highest_severity-eq u (c || (trig && crit)) (w || trig) ts,
        or_assoc c (trig && crit) (any (is_triggered_critical u) ts),
        or_assoc w trig (any (is_triggered u) ts),
      )

  conclude-status :
      (set : SetCondition) (cs : List Condition) (u : F) (c w : Bool)
      → (conclude set cs u (severity_of c w)).status ≡ status_of c w
  unfolding conclude
  conclude-status set cs u true w = refl
  conclude-status set cs u false true = refl
  conclude-status set cs u false false = refl

  -- The status is "exceeded" exactly when a crossed threshold is critical, "warning" exactly when
  -- none is and some threshold is crossed, and "ok" when none is crossed, in whatever order the
  -- thresholds are listed.
  pub evaluate_conditions-status :
      (set : SetCondition) (cs : List Condition) (ts : List AlertThreshold) (u : F)
      → (evaluate_conditions set cs ts u).status
        ≡ status_of (any (is_triggered_critical u) ts) (any (is_triggered u) ts)
  unfolding evaluate_conditions
  evaluate_conditions-status set cs ts u =
      rw (highest_severity-eq u false false ts)
        (conclude-status set cs u (any (is_triggered_critical u) ts) (any (is_triggered u) ts))

-- What three writes to different types leave behind.
module _ (set : SetCondition) (laws : IsSetCondition set) where
  open laws use {find_same, find_other, keeps_unique}

  abbrev set_three : List Condition → Condition → Condition → Condition → List Condition
  set_three cs a b c = set (set (set cs a) b) c

  find_first :
      (cs : List Condition) (a b c : Condition)
      → str_eq b.type a.type ≡ false
      → str_eq c.type a.type ≡ false
      → find_condition a.type (set_three cs a b c) ≡ some a
  find_first cs a b c h k =
      find_other (set (set cs a) b) c a.type k ∙ find_other (set cs a) b a.type h ∙ find_same cs a

  find_second :
      (cs : List Condition) (a b c : Condition)
      → str_eq c.type b.type ≡ false
      → find_condition b.type (set_three cs a b c) ≡ some b
  find_second cs a b c h = find_other (set (set cs a) b) c b.type h ∙ find_same (set cs a) b

  set_three_unique :
      (cs : List Condition) (a b c : Condition)
      → HasUniqueTypes cs
      → HasUniqueTypes (set_three cs a b c)
  set_three_unique cs a b c u = keeps_unique _ c (keeps_unique _ b (keeps_unique cs a u))

  -- which of the three conditions hold
  abbrev Shows : Bool → Bool → List Condition → Type 0
  Shows c w cs =
      (holds "BudgetExceeded" cs ≡ c)
      × (holds "BudgetWarning" cs ≡ (c || w))
      × (holds "BudgetOK" cs ≡ not (c || w))
      × HasUniqueTypes cs

  module _ {F : Type 0} ⦃f : Float64 F⦄ where
    conclude-Shows :
        (cs : List Condition) (u : F) (c w : Bool)
        → HasUniqueTypes cs
        → Shows c w (conclude set cs u (severity_of c w)).conditions
    unfolding conclude set_critical set_warning set_ok
    conclude-Shows cs u true w h = (
      ap is_true_option (find_same _ _),
      ap is_true_option (find_second cs _ _ _ refl),
      ap is_true_option (find_first cs _ _ _ refl refl),
      set_three_unique cs _ _ _ h,
    )
    conclude-Shows cs u false true h = (
      ap is_true_option (find_same _ _),
      ap is_true_option (find_second cs _ _ _ refl),
      ap is_true_option (find_first cs _ _ _ refl refl),
      set_three_unique cs _ _ _ h,
    )
    conclude-Shows cs u false false h = (
      ap is_true_option (find_same _ _),
      ap is_true_option (find_second cs _ _ _ refl),
      ap is_true_option (find_first cs _ _ _ refl refl),
      set_three_unique cs _ _ _ h,
    )

    -- Where the conditions had unique types they still do, and the three conditions say what was
    -- crossed: "BudgetExceeded" holds exactly when a critical threshold is, "BudgetWarning" exactly
    -- when any is, and "BudgetOK" exactly when none is.
    pub evaluate_conditions-Shows :
        (cs : List Condition) (ts : List AlertThreshold) (u : F)
        → HasUniqueTypes cs
        → let r = evaluate_conditions set cs ts u in
          let critical = any (is_triggered_critical u) ts in
          let crossed = critical || any (is_triggered u) ts in
          (holds "BudgetExceeded" r.conditions ≡ critical)
          × (holds "BudgetWarning" r.conditions ≡ crossed)
          × (holds "BudgetOK" r.conditions ≡ not crossed)
          × HasUniqueTypes r.conditions
    unfolding evaluate_conditions
    evaluate_conditions-Shows cs ts u h =
        rw (highest_severity-eq u false false ts)
          (conclude-Shows cs u (any (is_triggered_critical u) ts) (any (is_triggered u) ts) h)
