-- ===== src/Cli/Export/Profiles.antt =====
-- pkg/cli/export.go: which profile stands behind a report's rows.
use infercost.Base.{
  ◌≡◌, refl, ap, ◌∙◌, false, Option, none, some, String, List, [], ◌∷◌, keep, str_eq, str_eq_iff,
  str_eq_refl, str_ne_symm, if◌then◌else◌, Bool-cases, inl, inr,
}
use infercost.Focus.Row.{UsageReport, CostProfile}
use infercost.Cli.Export.{Cluster, is_some, put_profile, fetch_profiles}

module _ {F : Type 0} where
  abbrev pub or_else : Option (CostProfile F) → Option (CostProfile F) → Option (CostProfile F)
  or_else none o = o
  or_else (some p) o = some p

  -- the profile of the first report that has one, each looked up in the report's own namespace
  abbrev pub first_profile : Cluster F → String → List (UsageReport F) → Option (CostProfile F)
  first_profile cluster ref [] = none
  first_profile cluster ref (r ∷ rs) =
      or_else (cluster.get_profile r.namespace ref) (first_profile cluster ref rs)

  or_else-none : (o : Option (CostProfile F)) → o ≡ or_else o none
  or_else-none none = refl
  or_else-none (some p) = refl

  or_else_assoc :
      (a b c : Option (CostProfile F)) → or_else (or_else a b) c ≡ or_else a (or_else b c)
  or_else_assoc none b c = refl
  or_else_assoc (some p) b c = refl

  abbrev next_profiles :
      (String → Option (CostProfile F))
      → String
      → Option (CostProfile F)
      → String
      → Option (CostProfile F)
  next_profiles profiles k found =
      if is_some (profiles k) then profiles else put_profile k found profiles

  next_same :
      (profiles : String → Option (CostProfile F)) (ref : String) (found o : Option (CostProfile F))
      → profiles ref ≡ o
      → next_profiles profiles ref found ref ≡ or_else o found
  next_same profiles ref found (some p) h = rw (h) (rw h refl)
  next_same profiles ref none none h = rw h (rw h refl)
  next_same profiles ref (some p) none h = rw (h, str_eq_refl ref) refl

  next_other :
      (profiles : String → Option (CostProfile F)) (k ref : String)
      (found o : Option (CostProfile F))
      → str_eq ref k ≡ false
      → profiles k ≡ o
      → next_profiles profiles k found ref ≡ profiles ref
  next_other profiles k ref found (some p) n h = rw h refl
  next_other profiles k ref none none n h = rw h refl
  next_other profiles k ref (some p) none n h = rw (h, n) refl

  fetch_profiles-found :
      (cluster : Cluster F) (ref : String) (profiles : String → Option (CostProfile F))
      (reports : List (UsageReport F))
      → fetch_profiles cluster profiles reports ref
        ≡ or_else
            (profiles ref)
            (first_profile cluster ref (keep (λ r. str_eq r.cost_profile_ref ref) reports))
  unfolding fetch_profiles
  fetch_profiles-found cluster ref profiles [] = or_else-none (profiles ref)
  fetch_profiles-found cluster ref profiles (r ∷ rs) =
      let found = cluster.get_profile r.namespace r.cost_profile_ref in
      let next = next_profiles profiles r.cost_profile_ref found in
      let rest = fetch_profiles-found cluster ref next rs in
      let later = first_profile cluster ref (keep (λ r. str_eq r.cost_profile_ref ref) rs) in
      elim (Bool-cases (str_eq r.cost_profile_ref ref)) [
        | inl e ↦
            let same = (str_eq_iff r.cost_profile_ref ref).0 e in
            let here =
              ap (λ (k : String). next_profiles profiles k (cluster.get_profile r.namespace k) ref)
                same
              ∙ next_same profiles ref (cluster.get_profile r.namespace ref) _ refl in
            rw e (
              rest
              ∙ ap (λ o. or_else o later) here
              ∙ or_else_assoc (profiles ref) (cluster.get_profile r.namespace ref) later)
        | inr e ↦
            let here =
              next_other profiles r.cost_profile_ref ref found _
                (str_ne_symm r.cost_profile_ref ref e) refl in
            rw e (rest ∙ ap (λ o. or_else o later) here)
      ]

  -- The profile that the export takes for a reference is the one found for the first report with this
  -- reference, in the order of the list, whose own namespace has it: a report of another namespace
  -- with the same reference is exported with that profile too.
  pub fetch_profiles-first :
      (cluster : Cluster F) (ref : String) (reports : List (UsageReport F))
      → fetch_profiles cluster (λ k. none) reports ref
        ≡ first_profile cluster ref (keep (λ r. str_eq r.cost_profile_ref ref) reports)
  fetch_profiles-first cluster ref reports = fetch_profiles-found cluster ref (λ k. none) reports
