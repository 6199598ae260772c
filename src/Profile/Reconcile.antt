-- ===== src/Profile/Reconcile.antt =====
-- internal/controller/costprofile_controller.go: `Reconcile`. The manager always sets the sampler and the
-- API store; the sampler is the durable one. A run has the instants that `time.Now` returns, the
-- cluster's list of the pods, and whether it takes the status update. The gauges are in
-- Metrics/Emit; log lines are left out. A duration that is not positive is 0.
pub mod Consistent
pub mod Served
use infercost.Base.{
  ℕ, ◌-◌, ◌*◌, Bool, true, false, Option, none, some, String, List, [], ◌∷◌, ◌++◌, cat,
  if◌then◌else◌, Result,
}
use infercost.Float.{Float64}
use infercost.Utilization.Sample.{hours}
use infercost.Utilization.Record.{Reading}
use infercost.Utilization.Store.Bolt.{Bolt}
use infercost.Utilization.Durable.{Sampler, value_or, record_durable}
use infercost.Scraper.Dispatch.{Fetch}
use infercost.Budget.Condition.{Condition, SetCondition, condition_true}
use infercost.Api.Store.{Store, CostData, set_cost_data}
use infercost.Calculator.Cost.{HardwareCosts, HourlyCost, compute_hourly_cost}
use infercost.Calculator.Cloud.{CloudPricing}
use infercost.Usage.BreakEven.{resolve_idle_threshold}
use infercost.Profile.Resource.{ProfileResource, CostProfileStatus, costs_of}
use infercost.Profile.Power.{PowerReport, PowerSources, read_power}
use infercost.Profile.Pods.{Visit, Snapshots, PublishedRate, Scraped, scrape_inference_pods}

-- what the reconciler is built with
pub record CostProfileReconciler (F : Type 0) : Type 0 where
  pub sources : PowerSources
  pub fetch : Fetch F
  pub set : SetCondition
  pub format_int : ℕ → String
  pub pricing : List (CloudPricing F)
  pub retention : ℕ

-- the state that it shares and keeps
pub record ProfileState (D F : Type 0) : Type 0 where
  pub sampler : Sampler D F
  pub snapshots : Snapshots F
  pub store : Store F

pub record Run : Type 0 where
  pub sampled_at : ℕ
  pub compared_at : ℕ
  pub updated_at : ℕ
  pub uptime_at : ℕ
  pub stored_at : ℕ
  pub pods : Result String (List Visit)
  pub update_ok : Bool

-- what the cluster returns for the name of the profile
pub data Fetched (F : Type 0) : Type 0 where
  found : ProfileResource F → Fetched F
  not_found get_failed : Fetched F

pub data ProfileOutcome : Type 0 where
  gone get_error update_error requeue_after_interval : ProfileOutcome

-- the status that the cluster holds afterwards, if the profile was read, the gauges of the token rates,
-- and the state
pub record ProfileReconciled (D F : Type 0) : Type 0 where
  pub status : Option (CostProfileStatus F)
  pub published : List (PublishedRate F)
  pub state : ProfileState D F
  pub outcome : ProfileOutcome

abbrev pub sample_key_for : {F : Type 0} → ProfileResource F → String
sample_key_for profile = cat profile.namespace (cat "/" profile.name)

module _ {F : Type 0} ⦃f : Float64 F⦄ where
  abbrev pub hardware_costs : ProfileResource F → HardwareCosts F
  hardware_costs profile = record {
    purchase_price_usd = profile.hardware.purchase_price_usd;
    amortization_years = profile.hardware.amortization_years;
    maintenance_percent_per_year = profile.hardware.maintenance_percent_per_year;
    rate_per_kwh = profile.electricity.rate_per_kwh;
    pue_factor = profile.electricity.pue_factor;
  }

  abbrev pub power_reading : ProfileResource F → F → ℕ → Reading F
  power_reading profile power now = record {
    key = sample_key_for profile;
    power_w = power;
    active_threshold_w = resolve_idle_threshold (costs_of profile);
    now = now;
    persisted = true;
  }

  abbrev pub cost_ready : HourlyCost F → Condition
  cost_ready cost = record {
    type = "Ready";
    status = condition_true;
    reason = "CostComputed";
    message = cat "Hourly cost: $" (
        cat (f.fixed 4 cost.total) (
          cat " (amort: $" (
            cat (f.fixed 4 cost.amortization)
              (cat ", elec: $" (cat (f.fixed 4 cost.electricity) ")")))));
  }

  abbrev pub computed_status :
      SetCondition → ProfileResource F → PowerReport F → HourlyCost F → ℕ → CostProfileStatus F
  computed_status set profile power cost now = record {
    hourly_cost_usd = cost.total;
    amortization_rate_per_hour = cost.amortization;
    electricity_cost_per_hour = cost.electricity;
    current_power_draw_watts = power.power_w;
    last_updated = some now;
    conditions = set (set profile.status.conditions (cost_ready cost)) power.condition;
  }

  abbrev pub cost_data : ProfileResource F → PowerReport F → HourlyCost F → ℕ → ℕ → CostData F
  cost_data profile power cost since now = record {
    profile_name = profile.name;
    gpu_model = profile.hardware.gpu_model;
    gpu_count = profile.hardware.gpu_count;
    hourly_cost_usd = cost.total;
    amortization_per_hr = cost.amortization;
    electricity_per_hr = cost.electricity;
    power_draw_watts = power.power_w;
    monthly_projected = f.mul (f.mul cost.total (f.of_nat 24)) (f.of_nat 30);
    yearly_projected = f.mul cost.total (f.of_nat 8760);
    purchase_price_usd = profile.hardware.purchase_price_usd;
    amortization_years = profile.hardware.amortization_years;
    rate_per_kwh = profile.electricity.rate_per_kwh;
    pue_factor = profile.electricity.pue_factor;
    uptime_hours = hours (since - profile.creation_timestamp);
    last_updated = now;
  }

  module _ {D : Type 0} ⦃b : Bolt D⦄ (r : CostProfileReconciler F) (run : Run) where
    -- a failure to record is logged
    abbrev pub record_power : ProfileResource F → F → Sampler D F → Sampler D F
    record_power profile power s =
        value_or s (record_durable r.retention (power_reading profile power run.sampled_at) s)

    -- steps 6 and 7, after the pods were scraped; `none` is a panic
    update_profile :
        ProfileResource F
        → PowerReport F
        → HourlyCost F
        → Sampler D F
        → Option (Scraped F)
        → Option (ProfileReconciled D F)
    unfolding set_cost_data
    update_profile profile power cost sampler none = none
    update_profile profile power cost sampler (some s) =
        if run.update_ok
        then some (record {
          status = some (computed_status r.set profile power cost run.updated_at);
          published = s.published;
          state = record {
            sampler = sampler;
            snapshots = s.snapshots;
            store =
                set_cost_data s.store (cost_data profile power cost run.uptime_at run.stored_at);
          };
          outcome = requeue_after_interval;
        })
        else some (record {
          status = some profile.status;
          published = s.published;
          state = record { sampler = sampler; snapshots = s.snapshots; store = s.store };
          outcome = update_error;
        })

    reconcile_found : ProfileResource F → ProfileState D F → Option (ProfileReconciled D F)
    unfolding update_profile read_power compute_hourly_cost scrape_inference_pods record_durable
    reconcile_found profile s =
        let power = read_power r.sources profile r.fetch in
        let sampler = record_power profile power.power_w s.sampler in
        let cost = compute_hourly_cost (hardware_costs profile) power.power_w in
        update_profile profile power cost sampler (
          scrape_inference_pods r.format_int r.fetch r.pricing profile cost.total run.compared_at
            run.pods s.snapshots s.store)

    unfoldable pub reconcile_profile : Fetched F → ProfileState D F → Option (ProfileReconciled D F)
    unfolding reconcile_found
    reconcile_profile not_found s =
        some (record { status = none; published = []; state = s; outcome = gone })
    reconcile_profile get_failed s =
        some (record { status = none; published = []; state = s; outcome = get_error })
    reconcile_profile (found profile) s = reconcile_found profile s
