-- ===== src/Cli/Export/Order.antt =====
-- pkg/cli/export.go: what the order in which the cluster lists the reports means for the export.
use mathlib.Core.Path.{ap₂, fun_ext}
use mathlib.Core.List.{Perm, Permᴰ, Pairwise, mem-cons_self}
use mathlib.Core.List.Permᴰ
use mathlib.Core.List.Pairwise
use mathlib.Core.Logic.{∥∥₁_elim}
use infercost.Base.{
  ◌≡◌, refl, sym, ap, ◌∙◌, true, Option, none, String, List, [], ◌∷◌, keep, str_eq, str_eq_iff,
  if◌then◌else◌, Bool-cases, inl, inr,
}
use infercost.Float.{Float64}
use infercost.Focus.Row.{Calendar, UsageReport, CostProfile}
use infercost.Focus.Export.{write}
use infercost.Focus.Export.Sorted.{IsScalar-set}
use infercost.Focus.Export.Order.{HasOtherName, HasOtherName-symm, write-perm}
use infercost.Cli.Export.{Cluster, fetch_profiles}
use infercost.Cli.Export.Profiles.{first_profile, fetch_profiles-first, or_else}

module _ {F : Type 0} where
  -- reports of one reference are in one namespace
  abbrev pub IsOneProfile : UsageReport F → UsageReport F → Type 0
  IsOneProfile a b =
      str_eq a.cost_profile_ref b.cost_profile_ref ≡ true → str_eq a.namespace b.namespace ≡ true

  abbrev pub AreApart : UsageReport F → UsageReport F → Type 0
  AreApart a b = HasOtherName a b × IsOneProfile a b

  IsOneProfile-symm : (a b : UsageReport F) → IsOneProfile a b → IsOneProfile b a
  IsOneProfile-symm a b h e =
      let there = h ((str_eq_iff _ _).1 (sym ((str_eq_iff _ _).0 e))) in
      (str_eq_iff _ _).1 (sym ((str_eq_iff _ _).0 there))

  AreApart-symm : (a b : UsageReport F) → AreApart a b → AreApart b a
  AreApart-symm a b (h, k) = (HasOtherName-symm a b h, IsOneProfile-symm a b k)

  module _ (cluster : Cluster F) (ref : String) where
    -- a report of the reference asks its own namespace first
    abbrev ask : UsageReport F → Option (CostProfile F) → Option (CostProfile F)
    ask r o =
        if str_eq r.cost_profile_ref ref then or_else (cluster.get_profile r.namespace ref) o else o

    abbrev profile_for : List (UsageReport F) → Option (CostProfile F)
    profile_for [] = none
    profile_for (r ∷ rs) = ask r (profile_for rs)

    first_profile-for :
        (rs : List (UsageReport F))
        → first_profile cluster ref (keep (λ r. str_eq r.cost_profile_ref ref) rs) ≡ profile_for rs
    first_profile-for [] = refl
    first_profile-for (r ∷ rs) = elim (Bool-cases (str_eq r.cost_profile_ref ref)) [
      | inl e ↦ rw e (ap (or_else (cluster.get_profile r.namespace ref)) (first_profile-for rs))
      | inr e ↦ rw e (first_profile-for rs)
    ]

    ask_comm :
        (a b : UsageReport F) (o : Option (CostProfile F))
        → IsOneProfile a b
        → ask a (ask b o) ≡ ask b (ask a o)
    ask_comm a b o h = elim (Bool-cases (str_eq a.cost_profile_ref ref)) [
      | inr e ↦ rw e refl
      | inl e ↦ elim (Bool-cases (str_eq b.cost_profile_ref ref)) [
        | inr g ↦ rw g refl
        | inl g ↦
            let one = (str_eq_iff _ _).0 e ∙ sym ((str_eq_iff _ _).0 g) in
            let same = (str_eq_iff _ _).0 (h ((str_eq_iff _ _).1 one)) in
            let at = λ (m n : String).
              or_else (cluster.get_profile m ref) (or_else (cluster.get_profile n ref) o) in
            rw (e, g) (ap (λ m. at m b.namespace) same ∙ ap (at b.namespace) (sym same))
      ]
    ]

    profile_for-permᴰ :
        {xs ys : List (UsageReport F)}
        → Permᴰ xs ys
        → Pairwise AreApart xs
        → profile_for xs ≡ profile_for ys
    profile_for-permᴰ Permᴰ.nil h = refl
    profile_for-permᴰ (Permᴰ.cons e p) (Pairwise.cons h hs) = ap₂ ask e (profile_for-permᴰ p hs)
    profile_for-permᴰ (Permᴰ.swap {a = a} {b = b} {l = l} e g) (Pairwise.cons h hs) =
        ask_comm a b (profile_for l) (h b mem-cons_self).1
        ∙ ap₂ (λ x y. ask x (ask y (profile_for l))) g e
    profile_for-permᴰ (Permᴰ.trans p q) h =
        profile_for-permᴰ p h
        ∙ profile_for-permᴰ q (Permᴰ.pairwise (λ a b. hlevel) AreApart-symm p h)

  fetch_profiles-permᴰ :
      (cluster : Cluster F) {xs ys : List (UsageReport F)}
      → Permᴰ xs ys
      → Pairwise AreApart xs
      → fetch_profiles cluster (λ k. none) xs ≡ fetch_profiles cluster (λ k. none) ys
  fetch_profiles-permᴰ cluster {xs} {ys} p h = fun_ext (λ ref.
      fetch_profiles-first cluster ref xs
      ∙ first_profile-for cluster ref xs
      ∙ profile_for-permᴰ cluster ref p h
      ∙ sym (fetch_profiles-first cluster ref ys ∙ first_profile-for cluster ref ys))

module _ (calendar : Calendar) {F : Type 0} ⦃f : Float64 F⦄ where
  -- the file of the reports, with the profiles that the cluster has for them
  abbrev pub export_of : Cluster F → String → List (UsageReport F) → List (List String)
  export_of cluster region reports = write calendar (record {
    reports = reports;
    profiles = fetch_profiles cluster (λ k. none) reports;
    region = region;
  })

  -- The whole file, the profiles that are fetched for its reports included, does not depend on the order
  -- in which the cluster lists the reports, where no two of them have one namespace and one name, and reports of
  -- different namespaces do not refer to profiles of one name.
  pub export-perm :
      (cluster : Cluster F) (region : String) {xs ys : List (UsageReport F)}
      → Perm xs ys
      → Pairwise AreApart xs
      → export_of cluster region xs ≡ export_of cluster region ys
  export-perm cluster region {xs} {ys} p h = ∥∥₁_elim p (hlevel IsScalar-set) (λ q.
      write-perm calendar (fetch_profiles cluster (λ k. none) xs) region p
        (Pairwise.imp (λ a b k. k.0) h)
      ∙ ap
          (λ (profiles : String → Option (CostProfile F)).
            write calendar (record { reports = ys; profiles = profiles; region = region }))
          (fetch_profiles-permᴰ cluster q h))
