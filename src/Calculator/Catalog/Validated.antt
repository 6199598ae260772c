-- ===== src/Calculator/Catalog/Validated.antt =====
-- What `Validate` of internal/calculator/pricing.go ensures of the flat list of prices.
use infercost.Base.{
  ◌≡◌, refl, Bool, true, false, ◌||◌, String, List, [], ◌∷◌, ◌++◌, str_eq, cat, any, if◌then◌else◌,
  Result, ok, err, ◌>>=◌, arith,
}
use mathlib.Core.Path.{subst}
use infercost.Float.{Float64}
use infercost.Calculator.Cloud.{CloudPricing}
use infercost.Calculator.Catalog.{
  ModelPricing, ProviderWithPrice, PricingCatalog, flatten_models, flatten_providers, flatten,
  validate_models, validate_providers, validate_list, validate,
}

pass_checks :
    {E A : Type 0} (a b c d : Bool) (e1 e2 e3 : E) (r : Result E A) (x : A)
    → (if a then err e1 else if b then err e2 else if c || d then err e3 else r) ≡ ok x
    → (a ≡ false) × (b ≡ false) × (c ≡ false) × (d ≡ false) × (r ≡ ok x)
pass_checks a b c d e1 e2 e3 r x h = ground arith

pass_check :
    {E A B : Type 0} (a : Bool) (e : E) (r : Result E A) (f : A → Result E B) (x : B)
    → (if a then err e else (r >>= f)) ≡ ok x
    → (y : A) × (r ≡ ok y) × (f y ≡ ok x)
pass_check true e r f x h = ground arith
pass_check false e (ok y) f x h = (y, refl, h)
pass_check false e (err e') f x h = ground arith

module _ (to_lower : String → String) {F : Type 0} ⦃f : Float64 F⦄ where
  abbrev pub price_key : CloudPricing F → String
  price_key p = to_lower (cat p.provider (cat "/" p.model))

  -- a price with a name and without a negative rate
  abbrev pub IsSound : CloudPricing F → Type 0
  IsSound p =
      (str_eq p.model "" ≡ false)
      × (f.lt p.input_per_million (f.of_nat 0) ≡ false)
      × (f.lt p.output_per_million (f.of_nat 0) ≡ false)

  -- sound prices, no two of which have the same key, nor one a key of `seen`
  abbrev pub AreFresh : List String → List (CloudPricing F) → Type 0
  AreFresh seen [] = Unit
  AreFresh seen (p ∷ ps) =
      IsSound p × (any (str_eq (price_key p)) seen ≡ false) × AreFresh (price_key p ∷ seen) ps

  validate_models-AreFresh :
      (provider : String) (ms : List (ModelPricing F)) (seen seen' : List String)
      (ps : List (CloudPricing F))
      → validate_models to_lower provider ms seen ≡ ok seen'
      → AreFresh seen' ps
      → AreFresh seen (flatten_models provider ms ++ ps)
  unfolding validate_models
  validate_models-AreFresh provider [] seen seen' ps h fresh = subst (λ s. AreFresh s ps) (cc) fresh
  validate_models-AreFresh provider (m ∷ ms) seen seen' ps h fresh =
      let (name, key, inp, out, rest) = pass_checks _ _ _ _ _ _ _ _ seen' h in
      ((name, inp, out), key, validate_models-AreFresh provider ms _ seen' ps rest fresh)

  validate_providers-AreFresh :
      (providers : List (ProviderWithPrice F)) (seen : List String)
      → validate_providers to_lower providers seen ≡ ok tt
      → AreFresh seen (flatten_providers providers)
  unfolding validate_providers flatten_providers
  validate_providers-AreFresh [] seen h = tt
  validate_providers-AreFresh (p ∷ ps) seen h =
      let (s, models, rest) =
        pass_check _ _ (validate_models to_lower p.provider p.models seen)
          (λ s. validate_providers to_lower ps s) tt h in
      validate_models-AreFresh p.provider p.models seen s _ models
        (validate_providers-AreFresh ps s rest)

  validate_list-AreFresh :
      (providers : List (ProviderWithPrice F))
      → validate_list to_lower providers ≡ ok tt
      → AreFresh [] (flatten_providers providers)
  unfolding validate_list
  validate_list-AreFresh [] h = ground arith
  validate_list-AreFresh (p ∷ ps) h = validate_providers-AreFresh (p ∷ ps) [] h

  -- A catalog that passes the validation flattens into prices that have names and no negative rates,
  -- and of which no two have the same key, the lower-cased text of provider and model.
  pub validate-AreFresh :
      (c : PricingCatalog F) → validate to_lower c ≡ ok tt → AreFresh [] (flatten c)
  unfolding validate flatten
  validate-AreFresh c h = validate_list-AreFresh c.providers h
