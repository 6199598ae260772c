-- ===== src/Tests/Status.antt =====
-- Tests and examples of `applyStatusIfChanged`.
use infercost.Base.{ℕ, zero, suc, ap, ◌≡◌, ◌↔◌, refl, true, some, String, List, [], ◌∷◌}
use infercost.Float.Whole.{Whole, pos}
use infercost.Focus.Row.{ModelCostBreakdown}
use infercost.Focus.Export.{sort_slice}
use infercost.Budget.Condition.{set_in_place, set_in_place-IsSetCondition}
use infercost.Usage.Status.{
  ComputedStatus, ReportStatus, Applied, skipped, usage_report_status_content_equal, new_status,
  apply_status_if_changed,
}
use infercost.Usage.Status.Skipped.{
  IsSameWork, apply_status_if_changed_returns, apply_status_if_changed-skipped,
  apply_status_if_changed-again,
}
use infercost.Usage.Status.Bags.{
  IsDecimal, IsSameContent, usage_report_status_content_equal-iff_IsSameContent,
}
use infercost.Base.Cut.{lacks}
use infercost.Tests.Data.{decimal}

abbrev row_of : String → ℕ → ModelCostBreakdown Whole
row_of name cost = record {
  model = name;
  namespace = "team-a";
  input_tokens = 120;
  output_tokens = 40;
  estimated_cost_usd = pos cost;
  cost_per_million_tokens = pos cost;
}

abbrev view_of : ℕ → List (ModelCostBreakdown Whole) → ComputedStatus Whole
view_of cost rows = record {
  period = "2026-05";
  period_start = 0;
  period_end = cost;
  input_tokens = 240;
  output_tokens = 80;
  total_cost = pos cost;
  cost_per_million_tokens = pos cost;
  marginal_cost_per_million_tokens = pos 0;
  active_hours_cost_per_million_tokens = pos 0;
  active_energy_kwh = pos 0;
  break_even_analysis = [];
  by_model = rows;
  by_namespace = [];
  utilization_percent = pos 0;
  gpu_efficiency_ratio = pos 0;
  active_hours_in_period = pos 0;
  total_hours_in_period = pos 0;
}

-- the same rows in two orders, at two costs
abbrev view_one : ComputedStatus Whole
view_one = view_of 1 (row_of "y" 1 ∷ row_of "x" 1 ∷ [])

abbrev view_two : ComputedStatus Whole
view_two = view_of 2 (row_of "x" 2 ∷ row_of "y" 2 ∷ [])

abbrev empty_status : ReportStatus Whole
empty_status = record {
  view = view_of 0 [];
  cloud_comparison = [];
  last_updated = 0;
  conditions = [];
}

abbrev message : ReportStatus Whole → String
message s = "m"

abbrev stored : ReportStatus Whole
stored = new_status decimal set_in_place message 5 empty_status view_one

one_two-IsSameWork : IsSameWork decimal view_one view_two
unfolding sort_slice
one_two-IsSameWork = (refl, refl, refl, refl, refl)

second_skipped :
    apply_status_if_changed decimal set_in_place message true 6 stored view_two ≡ some skipped
unfolding apply_status_if_changed sort_slice
second_skipped = refl

apply_status_if_changed_returns_example :
    (a : Applied Whole) × (apply_status_if_changed decimal set_in_place message true 5 empty_status
        view_one
      ≡ some a)
apply_status_if_changed_returns_example =
    apply_status_if_changed_returns decimal set_in_place message true 5 empty_status view_one

skipped_work : IsSameWork decimal stored.view view_two
skipped_work =
    apply_status_if_changed-skipped decimal set_in_place message true 6 stored view_two
      second_skipped

applied_again :
    apply_status_if_changed decimal set_in_place message true 6
      (new_status decimal set_in_place message 5 empty_status view_one)
      view_two
    ≡ some skipped
applied_again =
    apply_status_if_changed-again decimal set_in_place message set_in_place-IsSetCondition true 5 6
      empty_status view_one view_two one_two-IsSameWork

-- a number as so many strokes
unary : ℕ → String
unary zero = ""
unary (suc n) = String.◌∷◌ "1" (unary n)

strokes : String → ℕ
strokes String.[] = 0
strokes (String.◌∷◌ c s) = suc (strokes s)

strokes-unary : (n : ℕ) → strokes (unary n) ≡ n
unfolding strokes unary
strokes-unary zero = refl
strokes-unary (suc n) = ap suc (strokes-unary n)

unary-lacks : (n : ℕ) → lacks "+" (unary n) ≡ true
unfolding unary
unary-lacks zero = refl
unary-lacks (suc n) = unary-lacks n

unary-IsDecimal : IsDecimal unary
unary-IsDecimal = record {
  read_int = strokes;
  read-format = strokes-unary;
  lacks-plus = unary-lacks;
}

usage_report_status_content_equal-iff_IsSameContent_example :
    (usage_report_status_content_equal unary view_one view_two ≡ some true)
    ↔ IsSameContent view_one view_two
usage_report_status_content_equal-iff_IsSameContent_example =
    usage_report_status_content_equal-iff_IsSameContent unary unary-IsDecimal view_one view_two
      ((((refl, refl), (refl, refl)), (((refl, refl), (refl, refl)), tt)), tt)
      ((((refl, refl), (refl, refl)), (((refl, refl), (refl, refl)), tt)), tt)
