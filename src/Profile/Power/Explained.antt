-- ===== src/Profile/Power/Explained.antt =====
-- The condition that `readPower` returns says where its number comes from.
use infercost.Base.{
  ◌≡◌, refl, Bool, false, not, ◌&&◌, ◌||◌, Bool-cases, ◌⊎◌, inl, inr, Option, none, some, String,
  List, [], ◌∷◌, str_eq, keep, if◌then◌else◌, Result, ok, err,
}
use mathlib.Core.Path.{subst}
use infercost.Float.{Float64}
use infercost.Scraper.Backend.{label_or_empty}
use infercost.Scraper.Dispatch.{Fetch, ScrapeError}
use infercost.Scraper.Power.{
  GpuPowerReading, ApplePowerReading, scrape_dcgm, scrape_apple_power, total_power_watts, add_power,
}
use infercost.Budget.Condition.{condition_true}
use infercost.Profile.Resource.{ProfileResource, hostname_label}
use infercost.Profile.Power.{
  PowerReport, PowerSources, condition_dcgm_reachable, condition_metal_reachable, looks_apple,
  fallback_power_draw, power_on_node, dcgm_report, dcgm_scraped, read_dcgm_power, metal_scraped,
  read_metal_power, read_power,
}

module _ {F : Type 0} ⦃f : Float64 F⦄ where
  abbrev pub is_on_node : String → GpuPowerReading F → Bool
  is_on_node node r = str_eq node "" || str_eq r.node node

  power_on_node-keep :
      (node : String) (total : F) (rs : List (GpuPowerReading F))
      → power_on_node node total rs ≡ add_power total (keep (is_on_node node) rs)
  unfolding power_on_node add_power
  power_on_node-keep node total [] = refl
  power_on_node-keep node total (r ∷ rs) = elim (Bool-cases (is_on_node node r)) [
    | inl e ↦ rw e (power_on_node-keep node (f.add total r.power_w) rs)
    | inr e ↦ rw e (power_on_node-keep node total rs)
  ]

  module _ (sources : PowerSources) (profile : ProfileResource F) (fetch : Fetch F) where
    open sources use {dcgm_endpoint, metal_endpoint}

    -- what the chosen source measures, if it can be read
    abbrev pub measured_dcgm : Result ScrapeError (List (GpuPowerReading F)) → Option F
    measured_dcgm (err e) = none
    measured_dcgm (ok rs) = some (
        total_power_watts
          (keep (is_on_node (label_or_empty profile.node_selector hostname_label)) rs))

    abbrev pub measured_metal : Result ScrapeError (ApplePowerReading F) → Option F
    measured_metal (err e) = none
    measured_metal (ok r) = some r.combined_w

    abbrev pub reads_metal : Bool
    reads_metal = not (str_eq metal_endpoint "") && looks_apple sources profile.hardware.gpu_model

    abbrev pub measured : Option F
    measured =
        if reads_metal
        then measured_metal (scrape_apple_power fetch metal_endpoint)
        else measured_dcgm (scrape_dcgm fetch dcgm_endpoint)

    -- a measured draw other than 0 that the condition confirms, or the fallback that it admits
    abbrev pub IsExplained : Option F → PowerReport F → Type 0
    IsExplained m r =
        ((r.condition.status ≡ condition_true)
          × (m ≡ some r.power_w)
          × (f.eq r.power_w (f.of_nat 0) ≡ false))
        ⊎ ((str_eq r.condition.status condition_true ≡ false)
            × (r.power_w ≡ fallback_power_draw profile))

    abbrev IsReport : String → Option F → PowerReport F → Type 0
    IsReport t m r = (r.condition.type ≡ t) × IsExplained m r

    dcgm_report-IsReport :
        (total : F)
        → IsReport condition_dcgm_reachable (some total) (dcgm_report sources profile total)
    unfolding dcgm_report
    dcgm_report-IsReport total = elim (Bool-cases (f.eq total (f.of_nat 0))) [
      | inl e ↦ rw e (refl, inr (refl, refl))
      | inr e ↦ rw e (refl, inl (refl, refl, e))
    ]

    dcgm_scraped-IsReport :
        (r : Result ScrapeError (List (GpuPowerReading F)))
        → IsReport condition_dcgm_reachable (measured_dcgm r) (dcgm_scraped sources profile r)
    unfolding dcgm_scraped total_power_watts
    dcgm_scraped-IsReport (err e) = (refl, inr (refl, refl))
    dcgm_scraped-IsReport (ok rs) =
        subst
          (λ m. IsReport condition_dcgm_reachable (some m) (dcgm_scraped sources profile (ok rs)))
          (power_on_node-keep (label_or_empty profile.node_selector hostname_label) (f.of_nat 0) rs)
          (dcgm_report-IsReport
            (power_on_node (label_or_empty profile.node_selector hostname_label) (f.of_nat 0) rs))

    read_dcgm_power-IsReport :
        IsReport condition_dcgm_reachable
          (measured_dcgm (scrape_dcgm fetch dcgm_endpoint))
          (read_dcgm_power sources profile fetch)
    unfolding read_dcgm_power
    read_dcgm_power-IsReport = elim (Bool-cases (str_eq dcgm_endpoint "")) [
      | inl e ↦ rw e (refl, inr (refl, refl))
      | inr e ↦ rw e (dcgm_scraped-IsReport (scrape_dcgm fetch dcgm_endpoint))
    ]

    metal_scraped-IsReport :
        (r : Result ScrapeError (ApplePowerReading F))
        → IsReport condition_metal_reachable (measured_metal r) (metal_scraped sources profile r)
    unfolding metal_scraped
    metal_scraped-IsReport (err e) = (refl, inr (refl, refl))
    metal_scraped-IsReport (ok r) = elim (Bool-cases (f.eq r.combined_w (f.of_nat 0))) [
      | inl e ↦ rw e (refl, inr (refl, refl))
      | inr e ↦ rw e (refl, inl (refl, refl, e))
    ]

    read_metal_power-IsReport :
        IsReport condition_metal_reachable
          (measured_metal (scrape_apple_power fetch metal_endpoint))
          (read_metal_power sources profile fetch)
    unfolding read_metal_power
    read_metal_power-IsReport = elim (Bool-cases (str_eq metal_endpoint "")) [
      | inl e ↦ rw e (refl, inr (refl, refl))
      | inr e ↦ rw e (metal_scraped-IsReport (scrape_apple_power fetch metal_endpoint))
    ]

    -- The power of a profile comes with a condition of the source that was asked: the Metal agent where
    -- one is configured and the hardware is Apple's, and DCGM otherwise. Either the condition is true,
    -- and the power is what that source measures, for DCGM summed over the profile's node, and not 0;
    -- or the condition is not true, and the power is the fallback of the profile's TDP.
    pub read_power-IsExplained :
        ((read_power sources profile fetch).condition.type
          ≡ (if reads_metal then condition_metal_reachable else condition_dcgm_reachable))
        × IsExplained measured (read_power sources profile fetch)
    unfolding read_power
    read_power-IsExplained = elim (Bool-cases reads_metal) [
      | inl e ↦ rw e read_metal_power-IsReport
      | inr e ↦ rw e read_dcgm_power-IsReport
    ]
