-- ===== src/Profile/Reconcile/Served.antt =====
-- What the REST API serves after a cost profile was reconciled.
use infercost.Base.{◌≡◌, ap, true, some, String, if◌then◌else◌}
use mathlib.Core.Path.{subst}
use infercost.Float.{Float64}
use infercost.Utilization.Store.Bolt.{Bolt}
use infercost.Budget.Condition.{IsSetCondition}
use infercost.Api.Store.{CostData}
use infercost.Api.Server.{answer, current_cost, cost_or_unavailable, serve}
use infercost.Calculator.Cost.{compute_hourly_cost}
use infercost.Profile.Resource.{ProfileResource, CostProfileStatus}
use infercost.Profile.Power.{read_power}
use infercost.Profile.Reconcile.{
  CostProfileReconciler, ProfileState, Run, found, ProfileReconciled, hardware_costs,
  reconcile_profile,
}
use infercost.Profile.Reconcile.Consistent.{Mirrors, Updated, Refused, reconcile_profile-consistent}

module _ {F : Type 0} ⦃f : Float64 F⦄ {D : Type 0} ⦃b : Bolt D⦄ where
  -- Where setting a condition behaves as documented: after a reconcile whose status update the cluster takes, a request for the current costs is
  -- answered with 200 and the very hourly cost, its parts and the power that the status of the profile shows,
  -- whatever the store held before.
  pub reconcile_profile-serve :
      (r : CostProfileReconciler F) (run : Run) (profile : ProfileResource F)
      (laws : IsSetCondition r.set) (s : ProfileState D F) (ns : String)
      → run.update_ok ≡ true
      → (out : ProfileReconciled D F) × (status : CostProfileStatus F) × (c : CostData F)
        × (reconcile_profile r run (found profile) s ≡ some out)
        × (out.status ≡ some status)
        × (serve "/api/v1/costs/current" ns out.state.store ≡ some (answer (current_cost c)))
        × Mirrors status c
  unfolding serve infercost.Api.Server.handle_costs_current infercost.Api.Store.get_cost_data
  reconcile_profile-serve r run profile laws s ns took =
      let (out, ends, _, settled) = reconcile_profile-consistent r run profile laws s in
      let power = read_power r.sources profile r.fetch in
      let cost = compute_hourly_cost (hardware_costs profile) power.power_w in
      let (status, c, shows, held, mirrors, _, _, _, _) =
        subst (λ t. if t then Updated r run profile power cost out else Refused r run profile s out)
          took settled in
      (out, status, c, ends, shows, ap (λ x. some (cost_or_unavailable x)) held, mirrors)
