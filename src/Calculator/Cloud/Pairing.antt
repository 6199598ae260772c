-- ===== src/Calculator/Cloud/Pairing.antt =====
-- `BuildComparisons` indexes the pricing by the place of a comparison.
use infercost.Base.{
  ℕ, suc, ◌≡◌, refl, some, List, [], ◌∷◌, ◌++◌, map, length, length-append, get_elem?, arith,
}
use mathlib.Core.List.{append_assoc}
use infercost.Float.{Float64}
use infercost.Api.Store.{ComparisonData}
use infercost.Calculator.Cloud.{
  CloudPricing, compare_one, compare_to_cloud, comparison_row, comparison_rows, build_comparisons,
}

module _ {ℓ} {A : Type ℓ} where
  get_elem?-append :
      (xs : List A) (y : A) (ys : List A) → get_elem? (xs ++ (y ∷ ys)) (length xs) ≡ some y
  get_elem?-append [] y ys = refl
  get_elem?-append (x ∷ xs) y ys = get_elem?-append xs y ys

module _ {F : Type 0} ⦃f : Float64 F⦄ where
  -- the comparison with one model beside the prices of that model
  abbrev pub priced : ℕ → ℕ → F → CloudPricing F → ComparisonData F
  priced i o cost p =
      let c = compare_one i o cost p in
      record {
        provider = p.provider;
        model = p.model;
        cloud_cost_usd = c.cloud_cost_usd;
        on_prem_cost_usd = cost;
        savings_usd = c.savings_usd;
        savings_percent = c.savings_percent;
        input_per_m_tok = p.input_per_million;
        output_per_m_tok = p.output_per_million;
      }

  comparison_rows-priced :
      (i o : ℕ) (cost : F) (done rest : List (CloudPricing F))
      → comparison_rows (done ++ rest) (length done) (compare_to_cloud i o cost rest)
        ≡ some (map (priced i o cost) rest)
  unfolding comparison_rows comparison_row compare_to_cloud compare_one
  comparison_rows-priced i o cost done [] = refl
  comparison_rows-priced i o cost done (p ∷ ps) =
      let ih = comparison_rows-priced i o cost (done ++ (p ∷ [])) ps in
      let len : length (done ++ (p ∷ [])) ≡ suc (length done) =
        omega (arith, length-append done (p ∷ [])) in
      let tail = rw (append_assoc done (p ∷ []) ps, len) at ih in
      rw (get_elem?-append done p ps, tail) refl

  -- No index is out of range: every priced model gets one comparison, in the order of the pricing,
  -- and beside it the prices of that same model.
  pub build_comparisons-priced :
      (pricing : List (CloudPricing F)) (i o : ℕ) (cost : F)
      → build_comparisons pricing i o cost ≡ some (map (priced i o cost) pricing)
  unfolding build_comparisons compare_one
  build_comparisons-priced pricing i o cost = comparison_rows-priced i o cost [] pricing
