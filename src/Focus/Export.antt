-- ===== src/Focus/Export.antt =====
-- internal/focus/focus.go: `rowsForReport` and `Write`. The CSV writer of the standard library is left
-- out: the result is the list of the records that are written. `sort.Slice` sorts by insertion;
-- among reports or models that neither key tells apart its order is not specified.
pub mod Shape
pub mod Sorted
pub mod Order
use infercost.Base.{
  Bool, Option, none, some, String, List, [], ◌∷◌, ◌++◌, map, str_eq, str_lt, not, if◌then◌else◌,
}
use infercost.Float.{Float64}
use infercost.Focus.Row.{
  Calendar, columns, UsageReport, ModelCostBreakdown, CostProfile, row_from_model, row_from_totals,
}
use infercost.Focus.Best.{best_cloud_comparison}

module _ {A : Type 0} (less : A → A → Bool) where
  unfoldable pub insert_sorted : A → List A → List A
  insert_sorted x [] = x ∷ []
  insert_sorted x (y ∷ ys) =
      let rest = insert_sorted x ys in if less y x then y ∷ rest else x ∷ y ∷ ys

  unfoldable pub sort_slice : List A → List A
  unfolding insert_sorted
  sort_slice [] = []
  sort_slice (x ∷ xs) = insert_sorted x (sort_slice xs)

module _ {F : Type 0} where
  abbrev pub report_less : UsageReport F → UsageReport F → Bool
  report_less a b =
      if not (str_eq a.namespace b.namespace)
      then str_lt a.namespace b.namespace
      else str_lt a.name b.name

  abbrev pub model_less : ModelCostBreakdown F → ModelCostBreakdown F → Bool
  model_less a b =
      if not (str_eq a.namespace b.namespace)
      then str_lt a.namespace b.namespace
      else str_lt a.model b.model

-- the profiles by name; a missing one is the zero value
pub record ExportInput (F : Type 0) : Type 0 where
  pub reports : List (UsageReport F)
  pub profiles : String → Option (CostProfile F)
  pub region : String

module _ (calendar : Calendar) {F : Type 0} ⦃f : Float64 F⦄ where
  abbrev zero_profile : CostProfile F
  zero_profile = record {
    gpu_model = "";
    gpu_count = 0;
    amortization_years = 0;
    rate_per_kwh = f.of_nat 0;
    pue_factor = f.of_nat 0;
  }

  abbrev pub profile_or_zero : Option (CostProfile F) → CostProfile F
  profile_or_zero none = zero_profile
  profile_or_zero (some p) = p

  unfoldable pub rows_for_models :
      UsageReport F → CostProfile F → String → List (ModelCostBreakdown F) → List (List String)
  unfolding sort_slice best_cloud_comparison
  rows_for_models r profile region [] =
      row_from_totals calendar r profile region (best_cloud_comparison r.cloud_comparison) ∷ []
  rows_for_models r profile region (m ∷ ms) =
      map
        (λ n. row_from_model calendar r n profile region (best_cloud_comparison r.cloud_comparison))
        (sort_slice model_less (m ∷ ms))

  unfoldable pub rows_for_report : UsageReport F → ExportInput F → List (List String)
  unfolding rows_for_models
  rows_for_report r input =
      rows_for_models r (profile_or_zero (input.profiles r.cost_profile_ref)) input.region
        r.by_model

  unfoldable pub write_reports : ExportInput F → List (UsageReport F) → List (List String)
  unfolding rows_for_report
  write_reports input [] = []
  write_reports input (r ∷ rs) = rows_for_report r input ++ write_reports input rs

  unfoldable pub write : ExportInput F → List (List String)
  unfolding write_reports sort_slice
  write input = columns ∷ write_reports input (sort_slice report_less input.reports)
