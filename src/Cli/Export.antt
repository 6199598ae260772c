-- ===== src/Cli/Export.antt =====
-- pkg/cli/export.go: `infercost export focus`. The cluster's answers, the output file, the CSV writer
-- and `%q` are parameters. The result is what is written, or the text of the error.
pub mod Profiles
pub mod Order
use infercost.Base.{
  ℕ, Bool, true, false, not, Option, none, some, String, List, [], ◌∷◌, length, keep, str_eq, cat,
  if◌then◌else◌, Result, ok, err, ◌>>=◌, map_err, any,
}
use infercost.Float.{Float64}
use infercost.Focus.Row.{Calendar, UsageReport, CostProfile}
use infercost.Focus.Export.{write}

pub record ExportFocusOptions : Type 0 where
  pub namespace : String
  pub output : String
  pub period : String
  pub region : String

-- `list_reports` with the empty namespace is the whole cluster; `get_profile` takes the namespace and
-- the name, and `none` is any error
pub record Cluster (F : Type 0) : Type 0 where
  pub list_reports : String → Result String (List (UsageReport F))
  pub get_profile : String → String → Option (CostProfile F)

pub record FetchedReports (F : Type 0) : Type 0 where
  pub reports : List (UsageReport F)
  pub profiles : String → Option (CostProfile F)

-- the records of the file, and the line on standard error
pub record Exported : Type 0 where
  pub rows : List (List String)
  pub note : Option String

abbrev pub is_some : {A : Type 0} → Option A → Bool
is_some none = false
is_some (some a) = true

module _ {F : Type 0} where
  -- `filtered`, and all reports without a period to filter by
  abbrev pub in_period : String → List (UsageReport F) → List (UsageReport F)
  in_period period reports =
      if not (str_eq period "") then keep (λ r. str_eq r.period period) reports else reports

  abbrev pub put_profile :
      String
      → Option (CostProfile F)
      → (String → Option (CostProfile F))
      → String
      → Option (CostProfile F)
  put_profile ref none profiles = profiles
  put_profile ref (some p) profiles = λ k. if str_eq k ref then some p else profiles k

  -- the loop that fills `profiles`
  unfoldable pub fetch_profiles :
      Cluster F
      → (String → Option (CostProfile F))
      → List (UsageReport F)
      → String
      → Option (CostProfile F)
  fetch_profiles cluster profiles [] = profiles
  fetch_profiles cluster profiles (r ∷ rs) =
      let found = cluster.get_profile r.namespace r.cost_profile_ref in
      let next =
        if is_some (profiles r.cost_profile_ref)
        then profiles
        else put_profile r.cost_profile_ref found profiles in
      fetch_profiles cluster next rs

  unfoldable pub fetch_reports_and_profiles :
      Cluster F → String → String → Result String (FetchedReports F)
  unfolding fetch_profiles
  fetch_reports_and_profiles cluster namespace period = do
    items ← map_err (cat "listing UsageReports: ") (cluster.list_reports namespace)
    ok (record {
      reports = in_period period items;
      profiles = fetch_profiles cluster (λ k. none) (in_period period items);
    })

abbrev open_output : (String → Result String Unit) → String → Result String Unit
open_output create_file output =
    if not (str_eq output "")
    then map_err (cat "creating output file: ") (create_file output)
    else ok tt

module _ (calendar : Calendar) {F : Type 0} ⦃f : Float64 F⦄
    (create_file : String → Result String Unit)
    (write_csv : List (List String) → Result String Unit) (quote : String → String)
    (format_int : ℕ → String) where
  abbrev export_note : ExportFocusOptions → List (UsageReport F) → Option String
  export_note opts reports =
      if not (str_eq opts.output "")
      then some (
          cat "Wrote "
            (cat (format_int (length reports)) (cat " UsageReports to " (cat opts.output "\n"))))
      else none

  export_reports : ExportFocusOptions → FetchedReports F → Result String Exported
  unfolding write
  export_reports opts fetched = elim fetched.reports [
    | [] ↦ err (
        cat "no UsageReports matched (namespace=" (
          cat (quote opts.namespace)
            (cat ", period=" (cat (quote opts.period) ") — nothing to export"))))
    | r ∷ rs ↦
        let rows = write calendar (record {
          reports = fetched.reports;
          profiles = fetched.profiles;
          region = opts.region;
        }) in
        (do
          opened ← open_output create_file opts.output
          written ← map_err (cat "writing FOCUS CSV: ") (write_csv rows)
          ok (record { rows = rows; note = export_note opts fetched.reports }))
  ]

  -- from the cluster, or from the error of `newK8sClient`
  unfoldable pub run_export_focus :
      ExportFocusOptions → Result String (Cluster F) → Result String Exported
  unfolding fetch_reports_and_profiles export_reports
  run_export_focus opts new_client = do
    cluster ← new_client
    fetched ← fetch_reports_and_profiles cluster opts.namespace opts.period
    export_reports opts fetched
