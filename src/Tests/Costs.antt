-- ===== src/Tests/Costs.antt =====
-- Tests and examples of internal/calculator.
use infercost.Base.{ℕ, ◌≡◌, refl, some, String, List, [], ◌∷◌, map, ok, err}
use infercost.Float.{◌≼◌}
use infercost.Float.Whole.{Whole, pos, whole_float, Whole-IsOrdered}
use infercost.Calculator.Cost.{
  TokenSnapshot, compute_token_rate, active_hours_cost_per_million_tokens,
}
use infercost.Calculator.Cost.Rates.{compute_token_rate_nonneg, active_hours_capped}
use infercost.Calculator.Cloud.{build_comparisons}
use infercost.Calculator.Cloud.Pairing.{priced, build_comparisons-priced}
use infercost.Calculator.Catalog.{ModelPricing, PricingCatalog, duplicate_entry, flatten, validate}
use infercost.Calculator.Catalog.Validated.{AreFresh, validate-AreFresh}
use infercost.Tests.Data.{two_prices}

abbrev snapshot : ℕ → ℕ → ℕ → TokenSnapshot Whole
snapshot t i o = record { timestamp = t; input_tokens = pos i; output_tokens = pos o }

-- the input counter was reset
rate_after_restart :
    (pos 0 ≼ (compute_token_rate (snapshot 0 900 10) (snapshot 3600000000000 50 30)).input_per_hour)
    × (pos 0
        ≼ (compute_token_rate (snapshot 0 900 10) (snapshot 3600000000000 50 30)).output_per_hour)
    × (pos 0
        ≼ (compute_token_rate (snapshot 0 900 10) (snapshot 3600000000000 50 30)).total_per_hour)
rate_after_restart =
    compute_token_rate_nonneg Whole-IsOrdered (snapshot 0 900 10) (snapshot 3600000000000 50 30)
      (refl, refl) (refl, refl) (refl, refl) (refl, refl)

capped_hours :
    active_hours_cost_per_million_tokens (pos 2) (pos 30) (pos 24) 1000000
    ≡ active_hours_cost_per_million_tokens (pos 2) (pos 24) (pos 24) 1000000
capped_hours = active_hours_capped Whole-IsOrdered (pos 2) (pos 30) (pos 24) 1000000 refl refl

priced_comparisons :
    build_comparisons two_prices 1000000 500000 (pos 4)
    ≡ some (map (priced 1000000 500000 (pos 4)) two_prices)
priced_comparisons = build_comparisons-priced two_prices 1000000 500000 (pos 4)

abbrev pub model_price : String → ModelPricing Whole
model_price name = record {
  model = name;
  tier = "";
  input_per_million = pos 1;
  output_per_million = pos 4;
  notes = "";
}

abbrev pub catalog_of : List String → PricingCatalog Whole
catalog_of names = record {
  last_verified = "2026-03-21";
  sources = [];
  providers = record { provider = "OpenAI"; models = map model_price names } ∷ [];
}

pub catalog_of-valid : validate (λ s. s) (catalog_of ("a" ∷ "b" ∷ [])) ≡ ok tt
unfolding validate
catalog_of-valid = refl

validate_example :
    validate (λ s. s) (catalog_of ("a" ∷ "a" ∷ [])) ≡ err (duplicate_entry "OpenAI" "a")
unfolding validate
validate_example = refl

validate-AreFresh_example : AreFresh (λ s. s) [] (flatten (catalog_of ("a" ∷ "b" ∷ [])))
validate-AreFresh_example =
    validate-AreFresh (λ s. s) (catalog_of ("a" ∷ "b" ∷ [])) catalog_of-valid
