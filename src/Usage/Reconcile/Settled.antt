-- ===== src/Usage/Reconcile/Settled.antt =====
-- What a reconcile of a report leaves in the API store.
use infercost.Base.{◌≡◌, refl, ap, ◌∙◌, ◌⊎◌, inl, inr, some, String, List, ok}
use infercost.Message.Status.{status_message}
use infercost.Float.{Float64}
use infercost.Utilization.Sample.{Sample}
use infercost.Api.Store.{Store}
use infercost.Usage.Pods.{Pod, scrape_tokens}
use infercost.Usage.BreakEven.{break_even_to_api}
use infercost.Usage.Status.{ReportStatus, Applied, skipped, written, update_failed}
use infercost.Usage.Status.Skipped.{apply_status_if_changed_returns}
use infercost.Profile.Resource.{ProfileResource}
use infercost.Usage.Compute.{UsageReportReconciler, ReportResource, Computed, compute_report}
use infercost.Usage.Reconcile.{
  ReportRun, visited, found, update_error, requeue_after_interval, ReportReconciled, finish_report,
  reconcile_with_profile, reconcile_found_report, reconcile_report,
}

module _ {F : Type 0} ⦃f : Float64 F⦄ (r : UsageReportReconciler F) (store : Store F) where
  abbrev pub shown : Computed F → Store F
  shown c = record store {
    namespace_costs = c.breakdowns.ns_cost_data;
    break_even = break_even_to_api c.analysis.entries;
  }

  -- an update that failed leaves the store alone; otherwise the store shows what was computed
  abbrev pub IsSettled : Computed F → ReportReconciled F → Type 0
  IsSettled c out =
      ((out.outcome ≡ update_error)
        × (out.store ≡ store)
        × (s : ReportStatus F) × (out.applied ≡ some (update_failed s)))
      ⊎ ((out.outcome ≡ requeue_after_interval) × (out.store ≡ shown c))

  finish_report-IsSettled :
      (c : Computed F) (a : Applied F)
      → (out : ReportReconciled F) × (finish_report r c store (some a) ≡ some out) × IsSettled c out
  unfolding finish_report infercost.Api.Store.set_namespace_costs infercost.Api.Store.set_break_even
  finish_report-IsSettled c skipped = (_, refl, inr (refl, refl))
  finish_report-IsSettled c (written s) = (_, refl, inr (refl, refl))
  finish_report-IsSettled c (update_failed s) = (_, refl, inl (refl, refl, s, refl))

  -- Where the cluster has the report, its cost profile and the list of the pods, the reconcile always ends
  -- without a panic. Unless the update of the status failed, the store then has the costs by namespace and the
  -- break-even analysis that were computed, and everything else as before, also where the status
  -- was not written because nothing had changed; if the update failed, the store is unchanged and
  -- an error is returned.
  pub reconcile_report-IsSettled :
      (run : ReportRun) (report : ReportResource F) (profile : ProfileResource F)
      (windows : String → List (Sample F)) (pods : List Pod)
      → run.pods ≡ ok pods
      → let tokens =
          visited run (scrape_tokens r.clock.format_int r.fetch report.namespaces pods) in
        let c = compute_report r report profile windows run.computed_at tokens in
        (out : ReportReconciled F) × (reconcile_report r run
            (found report)
            (ok profile)
            windows
            store
          ≡ some out)
        × IsSettled c out
  unfolding reconcile_report reconcile_found_report reconcile_with_profile
  reconcile_report-IsSettled run report profile windows pods h =
      let tokens = visited run (scrape_tokens r.clock.format_int r.fetch report.namespaces pods) in
      let c = compute_report r report profile windows run.computed_at tokens in
      let (a, applies) =
        apply_status_if_changed_returns r.clock.format_int r.set (status_message r.clock.format_int)
          run.update_ok run.updated_at report.status c.status in
      let (out, ends, settled) = finish_report-IsSettled c a in
      rw h (out, ap (finish_report r c store) applies ∙ ends, settled)
