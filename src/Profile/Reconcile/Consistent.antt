-- ===== src/Profile/Reconcile/Consistent.antt =====
-- The status of a profile and the API store agree.
use infercost.Base.{
  ℕ, ◌≡◌, refl, ap, ◌∙◌, Bool, true, false, Bool-cases, inl, inr, some, String, List, str_eq,
  if◌then◌else◌, Result, ok, err,
}
use infercost.Float.{Float64}
use infercost.Utilization.Store.Bolt.{Bolt}
use infercost.Utilization.Durable.{Sampler}
use infercost.Budget.Condition.{SetCondition, IsSetCondition, find_condition}
use infercost.Api.Store.{Store, CostData, set_cost_data}
use infercost.Calculator.Cost.{HourlyCost, compute_hourly_cost}
use infercost.Profile.Resource.{ProfileResource, CostProfileStatus}
use infercost.Profile.Power.{
  PowerReport, condition_dcgm_reachable, condition_metal_reachable, read_power,
}
use infercost.Profile.Power.Explained.{reads_metal, read_power-IsExplained}
use infercost.Profile.Pods.{Visit, Snapshots, Scraped, scrape_inference_pods}
use infercost.Profile.Pods.Listed.{scrape_inference_pods-store}
use infercost.Profile.Reconcile.{
  CostProfileReconciler, ProfileState, Run, found, update_error, requeue_after_interval,
  ProfileReconciled, hardware_costs, cost_ready, computed_status, record_power, update_profile,
  reconcile_found, reconcile_profile,
}

power_type-not_ready :
    (metal : Bool)
    → str_eq (if metal then condition_metal_reachable else condition_dcgm_reachable) "Ready" ≡ false
power_type-not_ready true = refl
power_type-not_ready false = refl

module _ {F : Type 0} ⦃f : Float64 F⦄ where
  find_computed :
      (set : SetCondition) (laws : IsSetCondition set) (profile : ProfileResource F)
      (power : PowerReport F) (cost : HourlyCost F) (now : ℕ)
      → str_eq power.condition.type "Ready" ≡ false
      → let cs = (computed_status set profile power cost now).conditions in
        (find_condition "Ready" cs ≡ some (cost_ready cost))
        × (find_condition power.condition.type cs ≡ some power.condition)
  find_computed set laws profile power cost now h =
      let cs = set profile.status.conditions (cost_ready cost) in
      (
        laws.find_other cs power.condition "Ready" h
            ∙ laws.find_same profile.status.conditions (cost_ready cost),
        laws.find_same cs power.condition,
      )

  read_power-not_ready :
      (r : CostProfileReconciler F) (profile : ProfileResource F)
      → str_eq (read_power r.sources profile r.fetch).condition.type "Ready" ≡ false
  read_power-not_ready r profile =
      let (t, _) = read_power-IsExplained r.sources profile r.fetch in
      ap (λ x. str_eq x "Ready") t ∙ power_type-not_ready (reads_metal r.sources profile r.fetch)

  -- scraping leaves the cost alone
  scrape_inference_pods-cost :
      (r : CostProfileReconciler F) (profile : ProfileResource F) (hourly_cost : F) (now : ℕ)
      (pods : Result String (List Visit)) (snapshots : Snapshots F) (store : Store F)
      → (out : Scraped F) × (scrape_inference_pods r.format_int r.fetch r.pricing profile
            hourly_cost now pods snapshots store
          ≡ some out)
        × (out.store.cost ≡ store.cost)
  unfolding scrape_inference_pods
  scrape_inference_pods-cost r profile hourly_cost now (err e) snapshots store = (_, refl, refl)
  scrape_inference_pods-cost r profile hourly_cost now (ok visits) snapshots store =
      let (out, ends, left) =
        scrape_inference_pods-store hourly_cost r.format_int r.fetch profile r.pricing now store
          visits snapshots in
      (out, ends, ap (λ s. s.cost) left)

  -- the cost data shows what the status shows
  abbrev pub Mirrors : CostProfileStatus F → CostData F → Type 0
  Mirrors status c =
      (c.hourly_cost_usd ≡ status.hourly_cost_usd)
      × (c.amortization_per_hr ≡ status.amortization_rate_per_hour)
      × (c.electricity_per_hr ≡ status.electricity_cost_per_hour)
      × (c.power_draw_watts ≡ status.current_power_draw_watts)

  module _ {D : Type 0} ⦃b : Bolt D⦄ (r : CostProfileReconciler F) (run : Run)
      (profile : ProfileResource F) where
    abbrev pub Updated : PowerReport F → HourlyCost F → ProfileReconciled D F → Type 0
    Updated power cost out =
        (status : CostProfileStatus F) × (c : CostData F) × (out.status ≡ some status)
        × (out.state.store.cost ≡ some c)
        × Mirrors status c
        × (status.hourly_cost_usd ≡ cost.total)
        × (find_condition "Ready" status.conditions ≡ some (cost_ready cost))
        × (find_condition power.condition.type status.conditions ≡ some power.condition)
        × (out.outcome ≡ requeue_after_interval)

    abbrev pub Refused : ProfileState D F → ProfileReconciled D F → Type 0
    Refused s out =
        (out.status ≡ some profile.status)
        × (out.state.store.cost ≡ s.store.cost)
        × (out.outcome ≡ update_error)

    abbrev pub IsSettled :
        ProfileState D F → PowerReport F → HourlyCost F → ProfileReconciled D F → Type 0
    IsSettled s power cost out = if run.update_ok then Updated power cost out else Refused s out

    module _ (laws : IsSetCondition r.set) (s : ProfileState D F) where
      update_profile-IsSettled :
          (power : PowerReport F) (cost : HourlyCost F) (sampler : Sampler D F)
          (scraped : Scraped F)
          → str_eq power.condition.type "Ready" ≡ false
          → scraped.store.cost ≡ s.store.cost
          → (out : ProfileReconciled D F) × (update_profile r run profile power cost sampler
                (some scraped)
              ≡ some out)
            × (out.state.sampler ≡ sampler)
            × IsSettled s power cost out
      unfolding update_profile set_cost_data
      update_profile-IsSettled power cost sampler scraped h k = elim (Bool-cases run.update_ok) [
        | inl e ↦
            let (ready, explained) = find_computed r.set laws profile power cost run.updated_at h in
            rw e (
              _,
              refl,
              refl,
              (_, _, refl, refl, (refl, refl, refl, refl), refl, ready, explained, refl),
            )
        | inr e ↦ rw e (_, refl, refl, (refl, k, refl))
      ]

      -- Where setting a condition behaves as documented, reconciling a profile that the cluster holds
      -- always comes to an end without a panic, whatever the pods answer. The power draw that `readPower`
      -- chose goes to the sampler under the profile's key, whether or not the cluster takes the
      -- status update. If it takes the update, the status has the hourly cost of that power draw, a
      -- true condition `Ready` and the power source's condition, and the cost, its two parts and the
      -- power in the API store are those of the status; if it refuses the update, the status and
      -- the store's cost stay as they were and an error is returned.
      pub reconcile_profile-consistent :
          let power = read_power r.sources profile r.fetch in
          let cost = compute_hourly_cost (hardware_costs profile) power.power_w in
          (out : ProfileReconciled D F) × (reconcile_profile r run (found profile) s ≡ some out)
          × (out.state.sampler ≡ record_power r run profile power.power_w s.sampler)
          × IsSettled s power cost out
      unfolding reconcile_profile reconcile_found
      reconcile_profile-consistent =
          let power = read_power r.sources profile r.fetch in
          let cost = compute_hourly_cost (hardware_costs profile) power.power_w in
          let (scraped, ends, left) =
            scrape_inference_pods-cost r profile cost.total run.compared_at run.pods s.snapshots
              s.store in
          rw ends (
            update_profile-IsSettled power cost (record_power r run profile power.power_w s.sampler)
              scraped (read_power-not_ready r profile) left)
