-- ===== src/Calculator/Catalog.antt =====
-- internal/calculator/pricing.go: the catalog of cloud prices, `Flatten`, `Validate`,
-- `LoadCloudPricingFile` and `DefaultCloudPricing`. Reading a file and parsing YAML are arguments,
-- and so is `strings.ToLower`. The override is a value that `SetOverrideCloudPricing` replaces.
pub mod Validated
use infercost.Base.{
  Bool, Option, none, some, String, List, [], ◌∷◌, ◌++◌, ◌||◌, str_eq, cat, any, if◌then◌else◌,
  Result, ok, err, ◌>>=◌, map_err,
}
use infercost.Float.{Float64}
use infercost.Calculator.Cloud.{CloudPricing}

pub record ModelPricing (F : Type 0) : Type 0 where
  pub model : String
  pub tier : String
  pub input_per_million : F
  pub output_per_million : F
  pub notes : String

pub record ProviderWithPrice (F : Type 0) : Type 0 where
  pub provider : String
  pub models : List (ModelPricing F)

pub record PricingCatalog (F : Type 0) : Type 0 where
  pub last_verified : String
  pub sources : List (String × String)
  pub providers : List (ProviderWithPrice F)

pub data CatalogError : Type 0 where
  no_providers empty_provider : CatalogError
  empty_model : (provider : String) → CatalogError
  duplicate_entry negative_pricing : (provider model : String) → CatalogError

pub data LoadError (E : Type 0) : Type 0 where
  reading_failed parsing_failed : E → LoadError E
  not_valid : CatalogError → LoadError E

module _ {F : Type 0} where
  abbrev pub priced_model : String → ModelPricing F → CloudPricing F
  priced_model provider m = record {
    provider = provider;
    model = m.model;
    input_per_million = m.input_per_million;
    output_per_million = m.output_per_million;
  }

  -- the inner loop of `Flatten`
  abbrev pub flatten_models : String → List (ModelPricing F) → List (CloudPricing F)
  flatten_models provider [] = []
  flatten_models provider (m ∷ ms) = priced_model provider m ∷ flatten_models provider ms

  unfoldable pub flatten_providers : List (ProviderWithPrice F) → List (CloudPricing F)
  flatten_providers [] = []
  flatten_providers (p ∷ ps) = flatten_models p.provider p.models ++ flatten_providers ps

  unfoldable pub flatten : PricingCatalog F → List (CloudPricing F)
  unfolding flatten_providers
  flatten c = flatten_providers c.providers

module _ (to_lower : String → String) {F : Type 0} ⦃f : Float64 F⦄ where
  -- the inner loop of `Validate`, which returns the keys seen
  unfoldable pub validate_models :
      String → List (ModelPricing F) → List String → Result CatalogError (List String)
  validate_models provider [] seen = ok seen
  validate_models provider (m ∷ ms) seen =
      let key = to_lower (cat provider (cat "/" m.model)) in
      let rest = validate_models provider ms (key ∷ seen) in
      if str_eq m.model ""
      then err (empty_model provider)
      else if any (str_eq key) seen
      then err (duplicate_entry provider m.model)
      else if f.lt m.input_per_million (f.of_nat 0) || f.lt m.output_per_million (f.of_nat 0)
      then err (negative_pricing provider m.model)
      else rest

  unfoldable pub validate_providers :
      List (ProviderWithPrice F) → List String → Result CatalogError (Unit {0})
  unfolding validate_models
  validate_providers [] seen = ok tt
  validate_providers (p ∷ ps) seen =
      if str_eq p.provider ""
      then err empty_provider
      else (validate_models p.provider p.models seen >>= λ s. validate_providers ps s)

  unfoldable pub validate_list : List (ProviderWithPrice F) → Result CatalogError (Unit {0})
  unfolding validate_providers
  validate_list [] = err no_providers
  validate_list (p ∷ ps) = validate_providers (p ∷ ps) []

  unfoldable pub validate : PricingCatalog F → Result CatalogError (Unit {0})
  unfolding validate_list
  validate c = validate_list c.providers

  -- `read_file` is `os.ReadFile` and `parse` is `yaml.Unmarshal`
  unfoldable pub load_cloud_pricing_file :
      {E : Type 0}
      → (read_file : String → Result E String) → (parse : String → Result E (PricingCatalog F))
      → String
      → Result (LoadError E) (PricingCatalog F)
  unfolding validate
  load_cloud_pricing_file read_file parse path =
      map_err reading_failed (read_file path) >>= λ data_read.
      map_err parsing_failed (parse data_read) >>= λ c. map_err not_valid (validate c) >>= λ u. ok c

module _ {F : Type 0} where
  -- `none` is the panic on an embedded catalog that does not parse
  unfoldable pub default_cloud_pricing :
      {E : Type 0}
      → (override : Option (PricingCatalog F)) → (embedded : Result E (PricingCatalog F))
      → Option (List (CloudPricing F))
  unfolding flatten
  default_cloud_pricing (some c) embedded = some (flatten c)
  default_cloud_pricing none (ok c) = some (flatten c)
  default_cloud_pricing none (err e) = none
