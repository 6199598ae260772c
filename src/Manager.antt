-- ===== src/Manager.antt =====
-- cmd/main.go: `newPowerSampler`, and the order in which `main` starts the parts. The files, the
-- database and controller-runtime are arguments; the flags of the servers, their certificates and the
-- logs are left out. A duration is an `int64`.
pub mod Pricing
pub mod Restart
use infercost.Base.{
  ℕ, Bool, not, Option, none, some, String, List, [], ◌∷◌, str_eq, cat, if◌then◌else◌, pos_int64,
  Result, ok, err, ◌>>=◌, map_err,
}
use infercost.Float.{Float64}
use infercost.Calculator.Catalog.{PricingCatalog, LoadError, load_cloud_pricing_file}
use infercost.Utilization.Store.Codec.{DecodeError}
use infercost.Utilization.Store.Bolt.{Bolt}
use infercost.Utilization.Durable.{Sampler, new_sampler_with_store}

-- 48 hours
abbrev pub default_retention : ℕ
default_retention = 172800000000000

-- 45 days
abbrev pub default_store_retention : ℕ
default_store_retention = 3888000000000000

pub record ManagerFlags : Type 0 where
  pub api_addr : String
  pub pricing_file : String
  pub data_dir : String
  pub sample_retention : ℕ

-- with the retention; without a store the windows start empty
pub data PowerSampler (D F : Type 0) : Type 0 where
  in_memory : ℕ → PowerSampler D F
  durable : ℕ → Sampler D F → PowerSampler D F

-- `filepath.Abs`, `filepath.Join`, `OpenStore`, and the text of an error of the samples
pub record StoreFiles (D : Type 0) : Type 0 where
  pub abs : String → Result String String
  pub join : String → String → String
  pub open_store : String → Result String D
  pub error_text : DecodeError → String

abbrev pub effective_retention : ℕ → ℕ
effective_retention retention = if pos_int64 retention then retention else default_store_retention

module _ {F : Type 0} ⦃f : Float64 F⦄ {D : Type 0} ⦃b : Bolt D⦄ (files : StoreFiles D) where
  -- A store that cannot be read is closed again.
  unfoldable pub new_power_sampler :
      (now : ℕ) → (data_dir : String) → (retention : ℕ) → Result String (PowerSampler D F)
  new_power_sampler now data_dir retention =
      if str_eq data_dir "" then ok (in_memory default_retention) else (do
        store_dir ← map_err (cat "resolving data dir: ") (files.abs data_dir)
        store ← files.open_store (files.join store_dir "samples.db")
        sampler ←
            map_err (λ e. cat "hydrating sample store: " (files.error_text e))
              (new_sampler_with_store (effective_retention retention) now store)
        ok (durable (effective_retention retention) sampler))

-- what `main` logs before it exits with status 1
pub data StartError (E : Type 0) : Type 0 where
  pricing_failed : LoadError E → StartError E
  failed : String → String → StartError E

-- what the calls on the manager return, in the order of `main`; the last two are the health checks
pub record ManagerCalls : Type 0 where
  pub new_manager : Result String Unit
  pub setup_cost_profile : Result String Unit
  pub setup_usage_report : Result String Unit
  pub setup_token_budget : Result String Unit
  pub add_healthz_check : Result String Unit
  pub add_readyz_check : Result String Unit

-- the parts when the manager starts; no override is the embedded catalog
pub record Started (D F : Type 0) : Type 0 where
  pub override : Option (PricingCatalog F)
  pub power_sampler : PowerSampler D F
  pub serves_api : Bool

-- one call after the other, each with the message of its failure
run_calls : {E : Type 0} → List (String × Result String Unit) → Result (StartError E) Unit
run_calls [] = ok tt
run_calls ((message, ok u) ∷ calls) = run_calls calls
run_calls ((message, err e) ∷ calls) = err (failed message e)

manager_calls : ManagerCalls → List (String × Result String Unit)
manager_calls calls =
    ("Failed to create controller CostProfile", calls.setup_cost_profile)
    ∷ ("Failed to create controller UsageReport", calls.setup_usage_report)
    ∷ ("Failed to create controller TokenBudget", calls.setup_token_budget)
    ∷ ("Failed to set up health check", calls.add_healthz_check)
    ∷ ("Failed to set up ready check", calls.add_readyz_check)
    ∷ []

module _ {F : Type 0} ⦃f : Float64 F⦄ {E : Type 0} (to_lower : String → String)
    (read_file : String → Result E String) (parse : String → Result E (PricingCatalog F)) where
  load_override : String → Result (StartError E) (Option (PricingCatalog F))
  load_override pricing_file =
      if not (str_eq pricing_file "")
      then (do
        catalog ←
            map_err pricing_failed (load_cloud_pricing_file to_lower read_file parse pricing_file)
        ok (some catalog))
      else ok none

module _ {F : Type 0} ⦃f : Float64 F⦄ {D : Type 0} ⦃b : Bolt D⦄ (files : StoreFiles D) {E : Type 0}
    (to_lower : String → String) (read_file : String → Result E String)
    (parse : String → Result E (PricingCatalog F)) where
  -- to the call that starts the manager
  unfoldable pub start_manager :
      ManagerFlags → ManagerCalls → ℕ → Result (StartError E) (Started D F)
  unfolding load_override run_calls manager_calls new_power_sampler
  start_manager flags calls now = do
    override ← load_override to_lower read_file parse flags.pricing_file
    manager ← map_err (failed "Failed to start manager") calls.new_manager
    sampler ←
        map_err (failed "Failed to configure power sample store")
          (new_power_sampler files now flags.data_dir flags.sample_retention)
    done ← run_calls (manager_calls calls)
    ok (record {
      override = override;
      power_sampler = sampler;
      serves_api = not (str_eq flags.api_addr "");
    })
