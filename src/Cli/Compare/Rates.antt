-- ===== src/Cli/Compare/Rates.antt =====
-- pkg/cli/compare.go: the prices beside a comparison are found by provider and model.
use infercost.Base.{ℕ, ◌≡◌, refl, false, ◌&&◌, List, [], ◌∷◌, map, All, str_eq, str_eq_refl, cat}
use infercost.Float.{Float64}
use infercost.Calculator.Cloud.{CloudPricing, compare_one, compare_to_cloud}
use infercost.Cli.Scan.{Line, cells}
use infercost.Cli.Compare.{rates_of, savings_text, comparison_line}

module _ {F : Type 0} where
  abbrev HasOtherPrice : CloudPricing F → CloudPricing F → Type 0
  HasOtherPrice p q = (str_eq p.provider q.provider && str_eq p.model q.model) ≡ false

  -- no model of a provider is priced twice
  abbrev pub AreDistinct : List (CloudPricing F) → Type 0
  AreDistinct [] = Unit
  AreDistinct (p ∷ ps) = All (HasOtherPrice p) ps × AreDistinct ps

module _ {F : Type 0} ⦃f : Float64 F⦄ where
  -- the line of a model beside the model's own prices
  abbrev pub own_line : ℕ → ℕ → F → CloudPricing F → Line
  own_line i o cost p =
      let c = compare_one i o cost p in
      cells (
        p.provider
        ∷ p.model
        ∷ cat "$" (f.fixed 2 p.input_per_million)
        ∷ cat "$" (f.fixed 2 p.output_per_million)
        ∷ cat "$" (f.fixed 2 c.cloud_cost_usd)
        ∷ savings_text 2 c
        ∷ [])

  module _ (i o : ℕ) (cost : F) where
    abbrev HasOwnRates : List (CloudPricing F) → CloudPricing F → Type 0
    HasOwnRates pricing p =
        rates_of pricing (compare_one i o cost p) ≡ (p.input_per_million, p.output_per_million)

    skip_other :
        (p : CloudPricing F) (ps qs : List (CloudPricing F))
        → All (HasOtherPrice p) qs
        → All (HasOwnRates ps) qs
        → All (HasOwnRates (p ∷ ps)) qs
    unfolding rates_of compare_one
    skip_other p ps [] h k = tt
    skip_other p ps (q ∷ qs) (h, hs) (k, ks) = (rw h k, skip_other p ps qs hs ks)

    own_rates :
        (pricing : List (CloudPricing F)) → AreDistinct pricing → All (HasOwnRates pricing) pricing
    unfolding rates_of compare_one
    own_rates [] h = tt
    own_rates (p ∷ ps) (h, hs) = (
      rw (str_eq_refl p.provider, str_eq_refl p.model) refl,
      skip_other p ps ps h (own_rates ps hs),
    )

    own_lines :
        (pricing qs : List (CloudPricing F))
        → All (HasOwnRates pricing) qs
        → map (comparison_line pricing) (compare_to_cloud i o cost qs) ≡ map (own_line i o cost) qs
    unfolding compare_to_cloud comparison_line compare_one
    own_lines pricing [] h = refl
    own_lines pricing (q ∷ qs) (h, hs) = rw (h, own_lines pricing qs hs) refl

    -- Where no model is priced twice, the table has one line for each priced model, in the order of the
    -- pricing, and each line shows that model's own prices beside its comparison.
    pub comparison_lines-own :
        (pricing : List (CloudPricing F))
        → AreDistinct pricing
        → map (comparison_line pricing) (compare_to_cloud i o cost pricing)
          ≡ map (own_line i o cost) pricing
    comparison_lines-own pricing h = own_lines pricing pricing (own_rates pricing h)
