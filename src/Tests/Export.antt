-- ===== src/Tests/Export.antt =====
-- Tests and examples of internal/focus and internal/report.
use mathlib.Core.List.{Pairwise, Pairwise-singleton, forall_mem-cons, not-mem-nil}
use mathlib.Core.List.Perm
use mathlib.Core.Bool.{Bool-set}
use infercost.Base.{
  ℕ, ◌+◌, ◌/◌, keep, suc, ◌≡◌, refl, none, some, String, List, [], ◌∷◌, All, length, add_int64, ok,
}
use infercost.Float.Whole.{Whole, pos, whole_float, Whole-IsOrdered}
use infercost.Focus.Row.{
  Calendar, ModelCostBreakdown, CloudComparisonEntry, UsageReport, CostProfile, row_from_model,
  iso_time,
}
use infercost.Focus.Best.{IsBest, best_cloud_comparison, best_cloud_comparison-IsBest}
use infercost.Focus.Export.{ExportInput, write, rows_for_report}
use infercost.Cli.Export.{Cluster}
use infercost.Cli.Export.Order.{AreApart, export_of, export-perm}
use infercost.Focus.Export.Order.{HasOtherModel, rows_for_report-perm}
use infercost.Focus.Export.Shape.{
  IsFull, Holds, rows_of_all, write-shape, row_from_model-columns, row_from_model-comparison,
}
use infercost.Scraper.Port.{codes}
use infercost.Message.{with_commas}
use infercost.Message.Commas.{is_no_comma, with_commas-keep, length-with_commas}
use infercost.Tests.Data.{decimal}

abbrev calendar : Calendar
calendar = record {
  rfc3339 = λ t. "2026-05-01T00:00:00Z";
  month_start = λ t. t;
  next_month_start = λ t. t;
  format_int = decimal;
}

abbrev saving : String → ℕ → CloudComparisonEntry Whole
saving provider s = record {
  provider = provider;
  model = "m";
  estimated_cloud_cost_usd = pos 9;
  savings_usd = pos s;
  savings_percent = pos 1;
}

abbrev three_savings : List (CloudComparisonEntry Whole)
three_savings = saving "a" 3 ∷ saving "b" 7 ∷ saving "c" 7 ∷ []

abbrev breakdown : String → ModelCostBreakdown Whole
breakdown name = record {
  model = name;
  namespace = "team-a";
  input_tokens = 120;
  output_tokens = 40;
  estimated_cost_usd = pos 2;
  cost_per_million_tokens = pos 5;
}

abbrev report : String → List (ModelCostBreakdown Whole) → UsageReport Whole
report name models = record {
  name = name;
  namespace = "ops";
  cost_profile_ref = "gpu";
  schedule = "monthly";
  period = "2026-05";
  period_start = some 8080;
  period_end = none;
  input_tokens = 240;
  output_tokens = 80;
  estimated_cost_usd = pos 4;
  by_model = models;
  cloud_comparison = three_savings;
}

abbrev profile : CostProfile Whole
profile = record {
  gpu_model = "A100";
  gpu_count = 2;
  amortization_years = 3;
  rate_per_kwh = pos 1;
  pue_factor = pos 1;
}

abbrev two_reports : ExportInput Whole
two_reports = record {
  reports = report "b" (breakdown "y" ∷ breakdown "x" ∷ []) ∷ report "a" [] ∷ [];
  profiles = λ name. some profile;
  region = "eu";
}

-- the same reports the other way round
abbrev listed_reports : List (UsageReport Whole)
listed_reports = report "b" (breakdown "y" ∷ breakdown "x" ∷ []) ∷ report "a" [] ∷ []

listed_reports-AreApart : Pairwise AreApart listed_reports
listed_reports-AreApart =
    Pairwise.cons
      ((forall_mem-cons (λ x. hlevel)).1 ((refl, λ e. refl), λ x m. absurd (not-mem-nil m)))
      (Pairwise-singleton _ _)

abbrev one_profile : Cluster Whole
one_profile = record {
  list_reports = λ namespace. ok listed_reports;
  get_profile = λ namespace name. some profile;
}

export-perm_example :
    export_of calendar one_profile "eu" listed_reports
    ≡ export_of calendar one_profile "eu"
        (report "a" [] ∷ report "b" (breakdown "y" ∷ breakdown "x" ∷ []) ∷ [])
export-perm_example =
    export-perm calendar one_profile "eu" (Perm.swap _ _ []) listed_reports-AreApart

two_models : Pairwise HasOtherModel (breakdown "y" ∷ breakdown "x" ∷ [])
two_models =
    Pairwise.cons ((forall_mem-cons (λ x. Bool-set _ _)).1 (refl, λ x m. absurd (not-mem-nil m)))
      (Pairwise-singleton _ _)

models_order :
    let r = report "b" (breakdown "y" ∷ breakdown "x" ∷ []) in
    rows_for_report calendar r two_reports
    ≡ rows_for_report calendar
        (record r { by_model = breakdown "x" ∷ breakdown "y" ∷ [] })
        two_reports
models_order =
    rows_for_report-perm calendar two_reports (report "b" (breakdown "y" ∷ breakdown "x" ∷ []))
      (Perm.swap _ _ []) two_models

best_cloud_comparison-IsBest_example : IsBest three_savings (best_cloud_comparison three_savings)
best_cloud_comparison-IsBest_example =
    best_cloud_comparison-IsBest Whole-IsOrdered three_savings (refl, (refl, (refl, tt)))

write-shape_example :
    All IsFull (write calendar two_reports)
    × (length (write calendar two_reports) ≡ suc (rows_of_all calendar two_reports.reports))
write-shape_example = write-shape calendar two_reports

row_columns :
    let row = row_from_model calendar (report "a" []) (breakdown "x") profile "eu" none in
    Holds row "BilledCost" (whole_float.fixed 4 (pos 2))
    × Holds row "ChargePeriodStart" (iso_time calendar 8080)
    × Holds row "ChargePeriodEnd" (iso_time calendar 0)
    × Holds row "UsageQuantity" (decimal (add_int64 120 40))
    × Holds row "SkuId" "x"
    × Holds row "SubAccountId" "team-a"
    × Holds row "Region" "eu"
    × Holds row "x-InferCostProfile" "gpu"
    × Holds row "x-InferTokensInput" (decimal 120)
    × Holds row "x-InferTokensOutput" (decimal 40)
row_columns = row_from_model-columns calendar (report "a" []) (breakdown "x") profile "eu" none

row_comparison :
    let row =
      row_from_model calendar (report "a" []) (breakdown "x") profile "eu" (some (saving "b" 7)) in
    Holds row "x-InferCloudEquivalentProvider" "b"
    × Holds row "x-InferCloudEquivalentModel" "m"
    × Holds row "x-InferCloudEquivalentCostUSD" (whole_float.fixed 4 (pos 9))
    × Holds row "x-InferSavingsUSD" (whole_float.fixed 4 (whole_float.sub (pos 9) (pos 2)))
    × Holds row "x-InferSavingsPercent" (whole_float.fixed 2 (pos 1))
row_comparison =
    row_from_model-comparison calendar (report "a" []) (breakdown "x") profile "eu"
      (some (saving "b" 7))

with_commas_examples :
    (with_commas (codes "3993") ≡ codes "3,993")
    × (with_commas (codes "-100000") ≡ codes "-100,000")
    × (with_commas (codes "950") ≡ codes "950")
unfolding with_commas
with_commas_examples = (refl, refl, refl)

-- 3993
commas_kept : keep is_no_comma (with_commas (51 ∷ 57 ∷ 57 ∷ 51 ∷ [])) ≡ 51 ∷ 57 ∷ 57 ∷ 51 ∷ []
commas_kept = with_commas-keep 51 (57 ∷ 57 ∷ 51 ∷ []) (refl, (refl, (refl, (refl, tt))))

commas_length : length (with_commas (51 ∷ 57 ∷ 57 ∷ 51 ∷ [])) ≡ suc (3 + 3 / 3)
commas_length = length-with_commas 51 (57 ∷ 57 ∷ 51 ∷ []) refl
