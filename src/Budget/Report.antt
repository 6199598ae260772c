-- ===== src/Budget/Report.antt =====
-- pkg/cli/budget.go: `budgetStatus`, which reads what `evaluateConditions` wrote. The conditions come
-- back as untyped maps: an entry is no map, or holds a `type` and a `status`, each the empty text
-- where it is missing or no text.
pub mod Agreement
use infercost.Base.{◌≡◌, Bool, true, false, not, String, List, [], ◌∷◌, map, str_eq, if◌then◌else◌}
use infercost.Budget.Condition.{Condition, condition_true}

pub data Entry : Type 0 where
  no_map : Entry
  fields : String → String → Entry

-- how the API presents a condition
abbrev pub present : Condition → Entry
present c = fields c.type c.status

-- the loop of `budgetStatus`
unfoldable pub budget_status_from : Bool → List Entry → String
budget_status_from warning [] = if warning then "Warning" else "OK"
budget_status_from warning (no_map ∷ es) = budget_status_from warning es
budget_status_from warning (fields t s ∷ es) =
    let skip = budget_status_from warning es in
    let warn = budget_status_from true es in
    if not (str_eq s condition_true)
    then skip
    else if str_eq t "BudgetExceeded"
    then "Exceeded"
    else if str_eq t "BudgetWarning"
    then warn
    else skip

-- An absent or empty list of conditions is "OK" too.
unfoldable pub budget_status : List Entry → String
unfolding budget_status_from
budget_status es = budget_status_from false es
