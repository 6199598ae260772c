-- ===== src/Usage/Reconcile/Served.antt =====
-- What the REST API serves after a usage report was reconciled.
use infercost.Base.{
  ◌≡◌, refl, ap, ◌∙◌, sym, Option, inl, inr, some, String, List, [], ◌∷◌, length, keep, str_eq,
  if◌then◌else◌, ok,
}
use infercost.Float.{Float64}
use infercost.Utilization.Sample.{Sample}
use infercost.Api.Store.{Store, NamespaceCostData}
use infercost.Api.Server.{Body, answer, namespace_costs, filter_costs, serve}
use infercost.Usage.Pods.{Pod, scrape_tokens}
use infercost.Profile.Resource.{ProfileResource}
use infercost.Usage.Compute.{UsageReportReconciler, ReportResource, compute_report}
use infercost.Usage.Reconcile.{
  ReportRun, visited, found, update_error, requeue_after_interval, ReportReconciled,
  reconcile_report,
}
use infercost.Usage.Reconcile.Settled.{reconcile_report-IsSettled}

some_inj : {A : Type 0} (a b : A) → Path (Option A) (some a) (some b) → a ≡ b
some_inj a b h = cc

error_is_no_requeue : update_error ≡ requeue_after_interval → ⊥
error_is_no_requeue h = cc

module _ {F : Type 0} where
  filter_costs-keep :
      (ns : String) (costs : List (NamespaceCostData F))
      → filter_costs ns costs ≡ keep (λ c. str_eq c.namespace ns) costs
  unfolding filter_costs
  filter_costs-keep ns [] = refl
  filter_costs-keep ns (c ∷ cs) = rw (filter_costs-keep ns cs) refl

  -- the entries of a namespace, and all where none is asked for
  abbrev pub asked_for : String → List (NamespaceCostData F) → List (NamespaceCostData F)
  asked_for ns costs = if str_eq ns "" then costs else keep (λ c. str_eq c.namespace ns) costs

module _ {F : Type 0} ⦃f : Float64 F⦄ where
  serve-costs :
      (ns : String) (store : Store F)
      → let costs = asked_for ns store.namespace_costs in
        serve "/api/v1/costs/by-namespace" ns store
        ≡ some (answer (namespace_costs costs (length costs)))
  unfolding serve infercost.Api.Server.handle_costs_by_namespace
      infercost.Api.Store.get_namespace_costs
  serve-costs ns store = rw (filter_costs-keep ns store.namespace_costs) refl

  -- After a reconcile that found the report, its cost profile and the list of the pods, and returned no
  -- error, a request for the costs by namespace is answered with
  -- 200 and the costs that were computed from the scraped tokens: those of the namespace that the request
  -- names, or all where it names none, with their number, also where the status was not written
  -- because nothing had changed.
  pub reconcile_report-serve :
      (r : UsageReportReconciler F) (store : Store F) (run : ReportRun) (report : ReportResource F)
      (profile : ProfileResource F) (windows : String → List (Sample F)) (pods : List Pod)
      (out : ReportReconciled F) (ns : String)
      → run.pods ≡ ok pods
      → reconcile_report r run (found report) (ok profile) windows store ≡ some out
      → out.outcome ≡ requeue_after_interval
      → let tokens =
          visited run (scrape_tokens r.clock.format_int r.fetch report.namespaces pods) in
        let computed = compute_report r report profile windows run.computed_at tokens in
        let costs = asked_for ns computed.breakdowns.ns_cost_data in
        serve "/api/v1/costs/by-namespace" ns out.store
        ≡ some (answer (namespace_costs costs (length costs)))
  reconcile_report-serve r store run report profile windows pods out ns hp h requeued =
      let (out', ends, settled) =
        reconcile_report-IsSettled r store run report profile windows pods hp in
      let same = some_inj out' out (sym ends ∙ h) in
      elim settled [
        | inl (failed, _, _, _) ↦
            absurd (error_is_no_requeue (sym failed ∙ ap (λ o. o.outcome) same ∙ requeued))
        | inr (_, left) ↦
            let now_shown = sym (ap (λ o. o.store) same) ∙ left in
            let at_costs = λ (cs : List (NamespaceCostData F)).
              some (answer (namespace_costs (asked_for ns cs) (length (asked_for ns cs)))) in
            serve-costs ns out.store ∙ ap at_costs (ap (λ t. t.namespace_costs) now_shown)
      ]
