-- ===== src/Usage/Reconcile/Again.antt =====
-- A report that is reconciled again without new work is not written again.
use infercost.Base.{
  add_int64, cat, ℕ, ◌≡◌, refl, sym, ap, ◌∙◌, Bool, true, false, Option, none, some, String, List,
  [], ◌∷◌, map, ok,
}
use mathlib.Core.Path.{subst}
use mathlib.Core.List.{Perm}
use mathlib.Core.List.Perm
use infercost.Focus.Export.Sorted.{sorted_texts_iff}
use infercost.Message.Status.{status_message}
use infercost.Float.{Float64}
use infercost.Utilization.Sample.{Sample}
use infercost.Budget.Condition.{IsSetCondition}
use infercost.Api.Store.{Store}
use infercost.Usage.Pods.Totals.{total, total-perm, input_side, output_side}
use infercost.Usage.Pods.{Pod, ModelKey, TokenCounts, Tokens, scrape_tokens}
use infercost.Usage.Breakdown.{model_rows, namespace_rows, build_breakdowns}
use infercost.Usage.Period.{compute_period_start, period_bounds, format_period}
use infercost.Usage.Status.{
  ComputedStatus, ReportStatus, Applied, skipped, written, update_failed, model_text,
  namespace_text, sort_strings, new_status, write_unless, apply_status_if_changed,
}
use infercost.Usage.Status.Skipped.{IsSameWork, apply_status_if_changed-again}
use infercost.Profile.Resource.{ProfileResource}
use infercost.Usage.Compute.{
  UsageReportReconciler, ReportResource, Computed, report_status, compute_report,
}
use infercost.Usage.Reconcile.{
  ReportRun, visited, found, requeue_after_interval, ReportReconciled, missing_status,
  missing_condition, handle_missing_cost_profile, finish_report, reconcile_with_profile,
  reconcile_found_report, reconcile_report,
}

module _ {F : Type 0} (r : UsageReportReconciler F) (laws : IsSetCondition r.set) where
  -- Once a report says that its cost profile was not found, it is not written again for that, whatever
  -- the later error is.
  pub handle_missing_cost_profile-again :
      (update_ok : Bool) (report : ReportResource F) (text later : String)
      → handle_missing_cost_profile r update_ok
          (record report { status = missing_status r report text })
          later
        ≡ skipped
  unfolding handle_missing_cost_profile
  handle_missing_cost_profile-again update_ok report text later =
      rw
        (laws.find_same report.status.conditions (missing_condition r report.cost_profile_ref text))
        refl

-- each entry of a map is visited once, in some order
abbrev pub IsVisit : ReportRun → Type 0
IsVisit run =
    ((m : List (ModelKey × TokenCounts)) → Perm (run.model_order m) m)
    × ((m : List (String × TokenCounts)) → Perm (run.namespace_order m) m)

-- the text of an entry that is compared, which does not depend on the costs
abbrev model_entry_text : (ℕ → String) → ModelKey × TokenCounts → String
model_entry_text format_int (k, t) =
    cat k.namespace
      (cat "/" (cat k.model (cat ":" (cat (format_int t.input) (cat "+" (format_int t.output))))))

abbrev namespace_entry_text : (ℕ → String) → String × TokenCounts → String
namespace_entry_text format_int (ns, t) = cat ns (cat ":" (format_int (add_int64 t.input t.output)))

module _ (format_int : ℕ → String) {F : Type 0} ⦃f : Float64 F⦄ where
  model_rows-texts :
      (cost : F) (tokens : ℕ) (m : List (ModelKey × TokenCounts))
      → map (model_text format_int) (model_rows cost tokens m) ≡ map (model_entry_text format_int) m
  unfolding model_rows
  model_rows-texts cost tokens [] = refl
  model_rows-texts cost tokens ((k, t) ∷ m) = rw (model_rows-texts cost tokens m) refl

  namespace_rows-texts :
      (cost : F) (tokens : ℕ) (m : List (String × TokenCounts))
      → map (namespace_text format_int) (namespace_rows cost tokens m)
        ≡ map (namespace_entry_text format_int) m
  unfolding namespace_rows
  namespace_rows-texts cost tokens [] = refl
  namespace_rows-texts cost tokens ((k, t) ∷ m) = rw (namespace_rows-texts cost tokens m) refl

  -- and sorting forgets the order
  model_rows-sorted :
      (cost cost' : F) (tokens tokens' : ℕ) {m n : List (ModelKey × TokenCounts)}
      → Perm m n
      → sort_strings (map (model_text format_int) (model_rows cost tokens m))
        ≡ sort_strings (map (model_text format_int) (model_rows cost' tokens' n))
  model_rows-sorted cost cost' tokens tokens' {m} {n} p =
      ap sort_strings (model_rows-texts cost tokens m)
      ∙ (sorted_texts_iff _ _).1 (Perm.map (model_entry_text format_int) p)
      ∙ ap sort_strings (sym (model_rows-texts cost' tokens' n))

  namespace_rows-sorted :
      (cost cost' : F) (tokens tokens' : ℕ) {m n : List (String × TokenCounts)}
      → Perm m n
      → sort_strings (map (namespace_text format_int) (namespace_rows cost tokens m))
        ≡ sort_strings (map (namespace_text format_int) (namespace_rows cost' tokens' n))
  namespace_rows-sorted cost cost' tokens tokens' {m} {n} p =
      ap sort_strings (namespace_rows-texts cost tokens m)
      ∙ (sorted_texts_iff _ _).1 (Perm.map (namespace_entry_text format_int) p)
      ∙ ap sort_strings (sym (namespace_rows-texts cost' tokens' n))

-- what was written is the new status
written_is :
    {F : Type 0} (changed : Bool) (equal : Option Bool) (update_ok : Bool) (s t : ReportStatus F)
    → write_unless changed equal update_ok s ≡ some (written t)
    → s ≡ t
written_is true equal true s t h = cc
written_is true equal false s t h = cc
written_is false none update_ok s t h = cc
written_is false (some true) update_ok s t h = cc
written_is false (some false) true s t h = cc
written_is false (some false) false s t h = cc

module _ {F : Type 0} ⦃f : Float64 F⦄ (r : UsageReportReconciler F) where
  finish_report-applied :
      (c : Computed F) (store : Store F) (a : Option (Applied F)) (out : ReportReconciled F)
      (s : ReportStatus F)
      → finish_report r c store a ≡ some out
      → out.applied ≡ some (written s)
      → a ≡ some (written s)
  unfolding finish_report
  finish_report-applied c store none out s h k = cc
  finish_report-applied c store (some skipped) out s h k = cc
  finish_report-applied c store (some (written t)) out s h k = cc
  finish_report-applied c store (some (update_failed t)) out s h k = cc

  apply_status_if_changed-written :
      (update_ok : Bool) (now : ℕ) (previous : ReportStatus F) (c : ComputedStatus F)
      (s : ReportStatus F)
      → apply_status_if_changed r.clock.format_int r.set
          (status_message r.clock.format_int)
          update_ok
          now
          previous
          c
        ≡ some (written s)
      → new_status r.clock.format_int r.set (status_message r.clock.format_int) now previous c ≡ s
  unfolding apply_status_if_changed
  apply_status_if_changed-written update_ok now previous c s h = written_is _ _ update_ok _ s h

  compute_report-IsSameWork :
      (report : ReportResource F) (profile profile' : ProfileResource F)
      (windows windows' : String → List (Sample F)) (now later : ℕ) (tokens tokens' : Tokens)
      → Perm tokens.by_model tokens'.by_model
      → Perm tokens.by_namespace tokens'.by_namespace
      → format_period r.clock report.schedule (compute_period_start r.clock report.schedule now)
        ≡ format_period r.clock report.schedule (compute_period_start r.clock report.schedule later)
      → IsSameWork r.clock.format_int
          (compute_report r report profile windows now tokens).status
          (compute_report r report profile' windows' later tokens').status
  unfolding compute_report report_status period_bounds build_breakdowns
  compute_report-IsSameWork report profile profile' windows windows' now later tokens tokens' p q
        h =
      let n =
        add_int64 (total input_side 0 tokens.by_model) (total output_side 0 tokens.by_model) in
      let n' =
        add_int64 (total input_side 0 tokens'.by_model) (total output_side 0 tokens'.by_model) in
      let cost =
        f.mul profile.status.hourly_cost_usd
          (period_bounds r.clock report.schedule now).hours_in_period in
      let cost' =
        f.mul profile'.status.hourly_cost_usd
          (period_bounds r.clock report.schedule later).hours_in_period in
      (
        h,
        total-perm input_side 0 p,
        total-perm output_side 0 p,
        model_rows-sorted r.clock.format_int cost cost' n n' p,
        namespace_rows-sorted r.clock.format_int cost cost' n n' q,
      )

  -- the text of the period at an instant
  abbrev pub period_at : String → ℕ → String
  period_at schedule now =
      format_period r.clock schedule (compute_period_start r.clock schedule now)

  module _ (laws : IsSetCondition r.set) (pods : List Pod) where
    -- Where setting a condition behaves as documented, a report that was written is not written again by a later reconcile that finds the same pods with
    -- the same token counts in the same period, also where the profile's cost, the power samples or the store
    -- have changed, and whatever orders the two
    -- reconciles visit the maps of the counts in: the later one ends without a panic or an error and skips the status.
    pub reconcile_report-again :
        (run later : ReportRun) (report : ReportResource F) (profile profile' : ProfileResource F)
        (windows windows' : String → List (Sample F)) (store store' : Store F)
        (out : ReportReconciled F) (s : ReportStatus F)
        → IsVisit run
        → IsVisit later
        → run.pods ≡ ok pods
        → later.pods ≡ ok pods
        → period_at report.schedule run.computed_at ≡ period_at report.schedule later.computed_at
        → reconcile_report r run (found report) (ok profile) windows store ≡ some out
        → out.applied ≡ some (written s)
        → (next : ReportReconciled F) × (reconcile_report r later
              (found (record report { status = s }))
              (ok profile')
              windows'
              store'
            ≡ some next)
          × (next.applied ≡ some skipped)
          × (next.outcome ≡ requeue_after_interval)
    unfolding reconcile_report reconcile_found_report reconcile_with_profile finish_report
    reconcile_report-again run later report profile profile' windows windows' store store' out s
          (models, spaces) (models', spaces') hp hl same h k =
        let scraped = scrape_tokens r.clock.format_int r.fetch report.namespaces pods in
        let tokens = visited run scraped in
        let tokens' = visited later scraped in
        let c = compute_report r report profile windows run.computed_at tokens in
        let d = compute_report r report profile' windows' later.computed_at tokens' in
        let first = rw hp at h in
        let wrote = finish_report-applied c store _ out s first k in
        let is_new =
          apply_status_if_changed-written run.update_ok run.updated_at report.status c.status s
            wrote in
        let work =
          compute_report-IsSameWork report profile profile' windows windows' run.computed_at
            later.computed_at tokens tokens'
            (Perm.trans (models scraped.by_model) (Perm.symm (models' scraped.by_model)))
            (Perm.trans (spaces scraped.by_namespace) (Perm.symm (spaces' scraped.by_namespace)))
            same in
        let skips_new =
          apply_status_if_changed-again r.clock.format_int r.set (status_message r.clock.format_int)
            laws later.update_ok run.updated_at later.updated_at report.status c.status d.status
            work in
        let skips =
          subst
            (λ t.
              apply_status_if_changed r.clock.format_int r.set (status_message r.clock.format_int)
                later.update_ok later.updated_at t d.status
              ≡ some skipped)
            is_new skips_new in
        rw hl (_, ap (finish_report r d store') skips, refl, refl)
