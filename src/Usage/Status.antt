-- ===== src/Usage/Status.antt =====
-- internal/controller/usagereport_controller.go: `applyStatusIfChanged` and the comparisons that it
-- makes. The decimal text of an `int64` and the status message are arguments. `sort.Strings` sorts by
-- insertion: texts that neither order tells apart are equal. Instants count nanoseconds.
pub mod Skipped
pub mod Bags
use infercost.Base.{
  str_lt, ℕ, ◌==◌, Bool, true, false, not, ◌&&◌, ◌||◌, Option, none, some, String, List, [], ◌∷◌,
  map, length, str_eq, cat, if◌then◌else◌,
}
use infercost.Budget.Condition.{Condition, condition_true, SetCondition, find_condition}
use infercost.Focus.Row.{ModelCostBreakdown, CloudComparisonEntry}
use infercost.Focus.Export.{sort_slice}
use infercost.Usage.Breakdown.{NamespaceCostBreakdown}
use infercost.Usage.BreakEven.{BreakEvenEntry}

pub record ComputedStatus (F : Type 0) : Type 0 where
  pub period : String
  pub period_start : ℕ
  pub period_end : ℕ
  pub input_tokens : ℕ
  pub output_tokens : ℕ
  pub total_cost : F
  pub cost_per_million_tokens : F
  pub marginal_cost_per_million_tokens : F
  pub active_hours_cost_per_million_tokens : F
  pub active_energy_kwh : F
  pub break_even_analysis : List (BreakEvenEntry F)
  pub by_model : List (ModelCostBreakdown F)
  pub by_namespace : List (NamespaceCostBreakdown F)
  pub utilization_percent : F
  pub gpu_efficiency_ratio : F
  pub active_hours_in_period : F
  pub total_hours_in_period : F

-- what the status holds: the computed view, which is copied field by field, the fields that the
-- controller leaves alone, and the conditions
pub record ReportStatus (F : Type 0) : Type 0 where
  pub view : ComputedStatus F
  pub cloud_comparison : List (CloudComparisonEntry F)
  pub last_updated : ℕ
  pub conditions : List Condition

-- `none` is an index out of range, a panic
unfoldable pub same_texts : List String → List String → Option Bool
same_texts [] bs = some true
same_texts (a ∷ xs) [] = none
same_texts (a ∷ xs) (b ∷ bs) =
    let rest = same_texts xs bs in if str_eq a b then rest else some false

abbrev pub sort_strings : List String → List String
sort_strings = sort_slice str_lt

-- `return false` on a difference, and the next comparison otherwise
abbrev pub and_then : Option Bool → Option Bool → Option Bool
and_then none rest = none
and_then (some false) rest = some false
and_then (some true) rest = rest

abbrev pub transitioned : Option Condition → Option Condition → Bool
transitioned none none = false
transitioned none (some b) = true
transitioned (some a) none = true
transitioned (some a) (some b) = not (str_eq a.status b.status) || not (str_eq a.reason b.reason)

unfoldable pub condition_transitioned : List Condition → List Condition → String → Bool
condition_transitioned previous current t =
    transitioned (find_condition t previous) (find_condition t current)

abbrev pub ready_condition : String → Condition
ready_condition message = record {
  type = "Ready";
  status = condition_true;
  reason = "ReportComputed";
  message = message;
}

pub data Applied (F : Type 0) : Type 0 where
  skipped : Applied F
  written update_failed : ReportStatus F → Applied F

abbrev pub write_unless :
    {F : Type 0} → Bool → Option Bool → Bool → ReportStatus F → Option (Applied F)
write_unless true equal update_ok s = some (if update_ok then written s else update_failed s)
write_unless false none update_ok s = none
write_unless false (some true) update_ok s = some skipped
write_unless false (some false) update_ok s =
    some (if update_ok then written s else update_failed s)

module _ (format_int : ℕ → String) {F : Type 0} where
  abbrev pub model_text : ModelCostBreakdown F → String
  model_text m = cat m.namespace (
      cat "/" (
        cat m.model
          (cat ":" (cat (format_int m.input_tokens) (cat "+" (format_int m.output_tokens))))))

  abbrev pub namespace_text : NamespaceCostBreakdown F → String
  namespace_text n = cat n.namespace (cat ":" (format_int n.token_count))

  unfoldable pub model_breakdowns_equal :
      List (ModelCostBreakdown F) → List (ModelCostBreakdown F) → Option Bool
  unfolding same_texts
  model_breakdowns_equal a b =
      same_texts (sort_strings (map model_text a)) (sort_strings (map model_text b))

  unfoldable pub namespace_breakdowns_equal :
      List (NamespaceCostBreakdown F) → List (NamespaceCostBreakdown F) → Option Bool
  unfolding same_texts
  namespace_breakdowns_equal a b =
      same_texts (sort_strings (map namespace_text a)) (sort_strings (map namespace_text b))

  unfoldable pub usage_report_status_content_equal :
      ComputedStatus F → ComputedStatus F → Option Bool
  unfolding model_breakdowns_equal namespace_breakdowns_equal
  usage_report_status_content_equal a b =
      let lists =
        and_then (model_breakdowns_equal a.by_model b.by_model)
          (namespace_breakdowns_equal a.by_namespace b.by_namespace) in
      if not (str_eq a.period b.period)
      then some false
      else if not (a.input_tokens == b.input_tokens) || not (a.output_tokens == b.output_tokens)
      then some false
      else if not (length a.by_model == length b.by_model)
          || not (length a.by_namespace == length b.by_namespace)
      then some false
      else lists

  module _ (set : SetCondition) (status_message : ReportStatus F → String) where
    -- the new status, at an instant
    abbrev pub new_status : ℕ → ReportStatus F → ComputedStatus F → ReportStatus F
    new_status now previous c =
        let s = record previous { view = c; last_updated = now } in
        record s { conditions = set previous.conditions (ready_condition (status_message s)) }

    -- `update_ok`: whether the API server takes the update
    unfoldable pub apply_status_if_changed :
        Bool → ℕ → ReportStatus F → ComputedStatus F → Option (Applied F)
    unfolding condition_transitioned usage_report_status_content_equal
    apply_status_if_changed update_ok now previous c =
        let s = new_status now previous c in
        write_unless (condition_transitioned previous.conditions s.conditions "Ready")
          (usage_report_status_content_equal previous.view s.view) update_ok s
