-- ===== src/Focus/Export/Shape.antt =====
-- The shape of the export: how many records it has, how wide they are, and what stands in a column.
use infercost.Base.{
  ℕ, suc, ◌+◌, ◌≡◌, refl, ap, ◌∙◌, Bool, Option, none, some, String, List, [], ◌∷◌, ◌++◌, map,
  str_eq, if◌then◌else◌, length, length-append, length-map, All, arith, Bool-cases, inl, inr,
  add_int64,
}
use infercost.Float.{Float64}
use infercost.Focus.Row.{
  Calendar, columns, UsageReport, ModelCostBreakdown, CostProfile, CloudComparisonEntry, RowTexts,
  build_row, row_from_model, row_from_totals, iso_time, instant_or_zero,
}
use infercost.Focus.Best.{best_cloud_comparison}
use infercost.Focus.Export.{
  ExportInput, insert_sorted, sort_slice, model_less, report_less, rows_for_models, rows_for_report,
  write_reports, write, profile_or_zero,
}

-- as wide as the header
abbrev pub IsFull : List String → Type 0
IsFull row = length row ≡ length columns

-- the cell under a column's name
abbrev pub cell_under : List String → String → List String → Option String
cell_under [] name row = none
cell_under (c ∷ cs) name [] = none
cell_under (c ∷ cs) name (x ∷ row) = if str_eq c name then some x else cell_under cs name row

-- what stands under a column's name
abbrev pub Holds : List String → String → String → Type 0
Holds row column value = cell_under columns column row ≡ some value

module _ {ℓ κ} {A : Type ℓ} (P : A → Type κ) where
  All-append : (xs ys : List A) → All P xs → All P ys → All P (xs ++ ys)
  All-append [] ys h k = k
  All-append (x ∷ xs) ys (h, hs) k = (h, All-append xs ys hs k)

All-map {ℓ κ} :
    {A B : Type ℓ} (P : B → Type κ) (g : A → B)
    → ((a : A) → P (g a))
    → (xs : List A) → All P (map g xs)
All-map P g h [] = tt
All-map P g h (x ∷ xs) = (h x, All-map P g h xs)

module _ {A : Type 0} (less : A → A → Bool) where
  length-insert_sorted : (x : A) (xs : List A) → length (insert_sorted less x xs) ≡ suc (length xs)
  unfolding insert_sorted
  length-insert_sorted x [] = refl
  length-insert_sorted x (y ∷ ys) = elim (Bool-cases (less y x)) [
    | inl e ↦ rw e (ap suc (length-insert_sorted x ys))
    | inr e ↦ rw e refl
  ]

  pub length-sort_slice : (xs : List A) → length (sort_slice less xs) ≡ length xs
  unfolding sort_slice
  length-sort_slice [] = refl
  length-sort_slice (x ∷ xs) =
      length-insert_sorted x (sort_slice less xs) ∙ ap suc (length-sort_slice xs)

module _ (calendar : Calendar) {F : Type 0} ⦃f : Float64 F⦄ where
  build_row-IsFull :
      (cost : F) (start end total_tokens : ℕ) (texts : RowTexts) (profile : CostProfile F)
      (profile_name region : String) (tokens_in tokens_out : ℕ)
      (best : Option (CloudComparisonEntry F)) (on_prem_cost : F)
      → IsFull (
          build_row calendar cost start end total_tokens texts profile profile_name region tokens_in
            tokens_out best on_prem_cost)
  unfolding build_row
  build_row-IsFull cost start end n texts profile name region i o none on_prem = refl
  build_row-IsFull cost start end n texts profile name region i o (some best) on_prem = refl

  row_from_model-IsFull :
      (r : UsageReport F) (m : ModelCostBreakdown F) (profile : CostProfile F) (region : String)
      (best : Option (CloudComparisonEntry F))
      → IsFull (row_from_model calendar r m profile region best)
  unfolding row_from_model
  row_from_model-IsFull r m profile region none = refl
  row_from_model-IsFull r m profile region (some b) = refl

  row_from_totals-IsFull :
      (r : UsageReport F) (profile : CostProfile F) (region : String)
      (best : Option (CloudComparisonEntry F))
      → IsFull (row_from_totals calendar r profile region best)
  unfolding row_from_totals
  row_from_totals-IsFull r profile region none = refl
  row_from_totals-IsFull r profile region (some b) = refl

  -- one row for each model, or one for a report without any
  abbrev pub rows_of : List (ModelCostBreakdown F) → ℕ
  rows_of [] = 1
  rows_of (m ∷ ms) = length (m ∷ ms)

  abbrev pub rows_of_all : List (UsageReport F) → ℕ
  rows_of_all [] = 0
  rows_of_all (r ∷ rs) = rows_of r.by_model + rows_of_all rs

  rows_for_models-shape :
      (r : UsageReport F) (profile : CostProfile F) (region : String)
      (ms : List (ModelCostBreakdown F))
      → All IsFull (rows_for_models calendar r profile region ms)
        × (length (rows_for_models calendar r profile region ms) ≡ rows_of ms)
  unfolding rows_for_models
  rows_for_models-shape r profile region [] = (
    (row_from_totals-IsFull r profile region (best_cloud_comparison r.cloud_comparison), tt),
    refl,
  )
  rows_for_models-shape r profile region (m ∷ ms) =
      let best = best_cloud_comparison r.cloud_comparison in
      let sorted = sort_slice model_less (m ∷ ms) in
      (
        All-map IsFull (λ n. row_from_model calendar r n profile region best)
            (λ n. row_from_model-IsFull r n profile region best) sorted,
        length-map (λ n. row_from_model calendar r n profile region best) sorted
            ∙ length-sort_slice model_less (m ∷ ms),
      )

  write_reports-shape :
      (input : ExportInput F) (rs : List (UsageReport F))
      → All IsFull (write_reports calendar input rs)
        × (length (write_reports calendar input rs) ≡ rows_of_all rs)
  unfolding write_reports rows_for_report
  write_reports-shape input [] = (tt, refl)
  write_reports-shape input (r ∷ rs) =
      let profile = profile_or_zero calendar (input.profiles r.cost_profile_ref) in
      let (full, many) = rows_for_models-shape r profile input.region r.by_model in
      let (fulls, manys) = write_reports-shape input rs in
      let here = rows_for_report calendar r input in
      (
        All-append IsFull here (write_reports calendar input rs) full fulls,
        length-append here (write_reports calendar input rs) ∙ omega (arith, many, manys),
      )

  rows_of_all-insert :
      (r : UsageReport F) (rs : List (UsageReport F))
      → rows_of_all (insert_sorted report_less r rs) ≡ rows_of r.by_model + rows_of_all rs
  unfolding insert_sorted
  rows_of_all-insert r [] = refl
  rows_of_all-insert r (s ∷ rs) = elim (Bool-cases (report_less s r)) [
    | inl e ↦ rw e (omega (arith, rows_of_all-insert r rs))
    | inr e ↦ rw e refl
  ]

  rows_of_all-sort :
      (rs : List (UsageReport F)) → rows_of_all (sort_slice report_less rs) ≡ rows_of_all rs
  unfolding sort_slice
  rows_of_all-sort [] = refl
  rows_of_all-sort (r ∷ rs) =
      rows_of_all-insert r (sort_slice report_less rs)
      ∙ ap (λ n. rows_of r.by_model + n) (rows_of_all-sort rs)

  -- Every record of the export is as wide as the header, and beside the header there is one record
  -- for each model of each report, and one for a report that has no models.
  pub write-shape :
      (input : ExportInput F)
      → All IsFull (write calendar input)
        × (length (write calendar input) ≡ suc (rows_of_all input.reports))
  unfolding write
  write-shape input =
      let sorted = sort_slice report_less input.reports in
      let (full, many) = write_reports-shape input sorted in
      ((refl, full), ap suc (many ∙ rows_of_all-sort input.reports))

  -- In the row of a model the named columns hold what their names say: the cost, the period, the
  -- model's tokens and their sum, the namespace, the model, the cost profile and the region.
  pub row_from_model-columns :
      (r : UsageReport F) (m : ModelCostBreakdown F) (profile : CostProfile F) (region : String)
      (best : Option (CloudComparisonEntry F))
      → let row = row_from_model calendar r m profile region best in
        let text = calendar.format_int in
        Holds row "BilledCost" (f.fixed 4 m.estimated_cost_usd)
        × Holds row "ChargePeriodStart" (iso_time calendar (instant_or_zero r.period_start))
        × Holds row "ChargePeriodEnd" (iso_time calendar (instant_or_zero r.period_end))
        × Holds row "UsageQuantity" (text (add_int64 m.input_tokens m.output_tokens))
        × Holds row "SkuId" m.model
        × Holds row "SubAccountId" m.namespace
        × Holds row "Region" region
        × Holds row "x-InferCostProfile" r.cost_profile_ref
        × Holds row "x-InferTokensInput" (text m.input_tokens)
        × Holds row "x-InferTokensOutput" (text m.output_tokens)
  unfolding row_from_model
  row_from_model-columns r m profile region none =
      (refl, refl, refl, refl, refl, refl, refl, refl, refl, refl)
  row_from_model-columns r m profile region (some best) =
      (refl, refl, refl, refl, refl, refl, refl, refl, refl, refl)

  abbrev pub comparison_column :
      (CloudComparisonEntry F → String) → Option (CloudComparisonEntry F) → String
  comparison_column text none = ""
  comparison_column text (some best) = text best

  -- In the row of a model the last columns hold the comparison that the export chose, with the
  -- savings against the model's own cost, and are empty where there is none.
  pub row_from_model-comparison :
      (r : UsageReport F) (m : ModelCostBreakdown F) (profile : CostProfile F) (region : String)
      (best : Option (CloudComparisonEntry F))
      → let row = row_from_model calendar r m profile region best in
        Holds row "x-InferCloudEquivalentProvider" (comparison_column (λ b. b.provider) best)
        × Holds row "x-InferCloudEquivalentModel" (comparison_column (λ b. b.model) best)
        × Holds row "x-InferCloudEquivalentCostUSD"
            (comparison_column (λ b. f.fixed 4 b.estimated_cloud_cost_usd) best)
        × Holds row "x-InferSavingsUSD" (
            comparison_column
              (λ b. f.fixed 4 (f.sub b.estimated_cloud_cost_usd m.estimated_cost_usd))
              best)
        × Holds row "x-InferSavingsPercent"
            (comparison_column (λ b. f.fixed 2 b.savings_percent) best)
  unfolding row_from_model
  row_from_model-comparison r m profile region none = (refl, refl, refl, refl, refl)
  row_from_model-comparison r m profile region (some best) = (refl, refl, refl, refl, refl)
