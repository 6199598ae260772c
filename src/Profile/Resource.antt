-- ===== src/Profile/Resource.antt =====
-- api/v1alpha1/costprofile_types.go: the cost profile, as its controller reads and writes it. An `int32`
-- count is a number; instants count nanoseconds.
use infercost.Base.{ℕ, Option, String, List}
use infercost.Scraper.Backend.{Labels}
use infercost.Budget.Condition.{Condition}
use infercost.Usage.BreakEven.{CloudTarget, ProfileCosts}

pub record HardwareSpec (F : Type 0) : Type 0 where
  pub gpu_model : String
  pub gpu_count : ℕ
  pub purchase_price_usd : F
  pub amortization_years : ℕ
  pub maintenance_percent_per_year : F
  pub tdp_watts : Option ℕ

pub record ElectricitySpec (F : Type 0) : Type 0 where
  pub rate_per_kwh : F
  pub pue_factor : F
  pub idle_watts_threshold : Option F

pub record CostProfileStatus (F : Type 0) : Type 0 where
  pub hourly_cost_usd : F
  pub amortization_rate_per_hour : F
  pub electricity_cost_per_hour : F
  pub current_power_draw_watts : F
  pub last_updated : Option ℕ
  pub conditions : List Condition

-- the object with its metadata and the parts of its spec that the controllers read; no cloud targets where
-- `cloudComparison` is missing
pub record ProfileResource (F : Type 0) : Type 0 where
  pub name : String
  pub namespace : String
  pub creation_timestamp : ℕ
  pub hardware : HardwareSpec F
  pub electricity : ElectricitySpec F
  pub cloud_targets : List CloudTarget
  pub node_selector : Labels
  pub status : CostProfileStatus F

abbrev pub hostname_label : String
hostname_label = "kubernetes.io/hostname"

abbrev pub costs_of : {F : Type 0} → ProfileResource F → ProfileCosts F
costs_of profile = record {
  targets = profile.cloud_targets;
  amortization_rate_per_hour = profile.status.amortization_rate_per_hour;
  idle_watts_threshold = profile.electricity.idle_watts_threshold;
  tdp_watts = profile.hardware.tdp_watts;
  gpu_count = profile.hardware.gpu_count;
  rate_per_kwh = profile.electricity.rate_per_kwh;
  pue_factor = profile.electricity.pue_factor;
}
