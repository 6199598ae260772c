-- ===== src/Calculator/Cloud.antt =====
-- internal/calculator/calculator.go and internal/api/store.go: comparisons with cloud models.
pub mod Pairing
use infercost.Base.{
  ℕ, suc, ◌≡◌, Option, none, some, String, List, [], ◌∷◌, if◌then◌else◌, get_elem?, pos_int64,
  add_int64,
}
use infercost.Float.{Float64, of_int64}
use infercost.Api.Store.{ComparisonData}

pub record CloudPricing (F : Type 0) : Type 0 where
  pub provider : String
  pub model : String
  pub input_per_million : F
  pub output_per_million : F

pub record CloudComparison (F : Type 0) : Type 0 where
  pub provider : String
  pub model : String
  pub cloud_cost_usd : F
  pub on_prem_cost_usd : F
  pub savings_usd : F
  pub savings_percent : F

module _ {F : Type 0} ⦃f : Float64 F⦄ where
  -- one round of the loop of `CompareToCloud`
  unfoldable pub compare_one : ℕ → ℕ → F → CloudPricing F → CloudComparison F
  compare_one input_tokens output_tokens on_prem_cost p =
      let million = f.of_nat 1000000 in
      let cloud_cost =
        f.add (f.mul (f.div (of_int64 input_tokens) million) p.input_per_million)
          (f.mul (f.div (of_int64 output_tokens) million) p.output_per_million) in
      let savings = f.sub cloud_cost on_prem_cost in
      record {
        provider = p.provider;
        model = p.model;
        cloud_cost_usd = cloud_cost;
        on_prem_cost_usd = on_prem_cost;
        savings_usd = savings;
        savings_percent =
            if f.lt (f.of_nat 0) cloud_cost
            then f.mul (f.div savings cloud_cost) (f.of_nat 100)
            else f.of_nat 0;
      }

  unfoldable pub compare_to_cloud : ℕ → ℕ → F → List (CloudPricing F) → List (CloudComparison F)
  unfolding compare_one
  compare_to_cloud i o cost [] = []
  compare_to_cloud i o cost (p ∷ ps) = compare_one i o cost p ∷ compare_to_cloud i o cost ps

  unfoldable pub cloud_cost_per_token : CloudPricing F → ℕ → ℕ → F
  cloud_cost_per_token p input_tokens output_tokens =
      let total = add_int64 input_tokens output_tokens in
      let some_tokens = pos_int64 total in
      let in_frac =
        if some_tokens then f.div (of_int64 input_tokens) (of_int64 total) else f.dec 5 1 in
      let out_frac =
        if some_tokens then f.div (of_int64 output_tokens) (of_int64 total) else f.dec 5 1 in
      f.div (f.add (f.mul in_frac p.input_per_million) (f.mul out_frac p.output_per_million))
        (f.of_nat 1000000)

  -- the element that `BuildComparisons` appends; `none` is an index out of range, a panic
  comparison_row : CloudComparison F → Option (CloudPricing F) → Option (ComparisonData F)
  comparison_row c none = none
  comparison_row c (some p) = some (record {
    provider = c.provider;
    model = c.model;
    cloud_cost_usd = c.cloud_cost_usd;
    on_prem_cost_usd = c.on_prem_cost_usd;
    savings_usd = c.savings_usd;
    savings_percent = c.savings_percent;
    input_per_m_tok = p.input_per_million;
    output_per_m_tok = p.output_per_million;
  })

  abbrev cons_row :
      Option (ComparisonData F)
      → Option (List (ComparisonData F))
      → Option (List (ComparisonData F))
  cons_row none rows = none
  cons_row (some r) none = none
  cons_row (some r) (some rs) = some (r ∷ rs)

  -- `for i, c := range comparisons`, from index `i`
  comparison_rows :
      List (CloudPricing F) → ℕ → List (CloudComparison F) → Option (List (ComparisonData F))
  unfolding comparison_row
  comparison_rows pricing i [] = some []
  comparison_rows pricing i (c ∷ cs) =
      cons_row (comparison_row c (get_elem? pricing i)) (comparison_rows pricing (suc i) cs)

  -- `pricing` is what `DefaultCloudPricing` returns
  unfoldable pub build_comparisons :
      List (CloudPricing F) → ℕ → ℕ → F → Option (List (ComparisonData F))
  unfolding comparison_rows compare_to_cloud
  build_comparisons pricing input_tokens output_tokens on_prem_cost =
      comparison_rows pricing 0 (compare_to_cloud input_tokens output_tokens on_prem_cost pricing)
