-- ===== src/Profile/Power.antt =====
-- internal/controller/costprofile_controller.go: `readPower` and its two sources. The gauge is in
-- Metrics/Emit; a log line and `LastTransitionTime` are left out. `fmt`'s quoting, the text of an
-- error, `strings.TrimSpace` and `strings.ToLower` are arguments.
pub mod Explained
use Prim.Native.String.{String}
use infercost.Base.{
  ◌≡◌, Bool, true, false, not, ◌&&◌, ◌||◌, Option, none, some, List, [], ◌∷◌, str_eq, cat,
  if◌then◌else◌, Result, ok, err, ℕ,
}
use infercost.Float.{Float64}
use infercost.Scraper.Backend.{label_or_empty}
use infercost.Scraper.Dispatch.{Fetch, ScrapeError}
use infercost.Scraper.Power.{GpuPowerReading, ApplePowerReading, scrape_dcgm, scrape_apple_power}
use infercost.Budget.Condition.{Condition, condition_true, condition_false}
use infercost.Profile.Resource.{ProfileResource, hostname_label}

abbrev pub condition_unknown : String
condition_unknown = "Unknown"

abbrev pub condition_dcgm_reachable : String
condition_dcgm_reachable = "DCGMReachable"

abbrev pub condition_metal_reachable : String
condition_metal_reachable = "MetalReachable"

-- the reasons of the two conditions
abbrev pub dcgm_healthy : String
dcgm_healthy = "DCGMHealthy"

abbrev pub dcgm_not_configured : String
dcgm_not_configured = "DCGMNotConfigured"

abbrev pub dcgm_scrape_error : String
dcgm_scrape_error = "DCGMScrapeError"

abbrev pub dcgm_no_readings : String
dcgm_no_readings = "DCGMNoReadings"

abbrev pub metal_healthy : String
metal_healthy = "MetalHealthy"

abbrev pub metal_not_configured : String
metal_not_configured = "MetalNotConfigured"

abbrev pub metal_scrape_error : String
metal_scrape_error = "MetalScrapeError"

abbrev pub metal_sampler_off : String
metal_sampler_off = "MetalSamplerOff"

-- a power draw with the condition that explains it
pub record PowerReport (F : Type 0) : Type 0 where
  pub power_w : F
  pub condition : Condition

-- the flags and the texts that the reconciler works with
pub record PowerSources : Type 0 where
  pub dcgm_endpoint : String
  pub metal_endpoint : String
  pub quote : String → String
  pub error_text : ScrapeError → String
  pub trim_space : String → String
  pub to_lower : String → String

abbrev pub power_report : {F : Type 0} → F → String → String → String → String → PowerReport F
power_report power t s r m = record {
  power_w = power;
  condition = record { type = t; status = s; reason = r; message = m };
}

-- `strings.HasPrefix`
abbrev pub has_prefix : String → String → Bool
has_prefix s String.[] = true
has_prefix String.[] (String.◌∷◌ c p) = false
has_prefix (String.◌∷◌ d s) (String.◌∷◌ c p) =
    str_eq (String.◌∷◌ d String.[]) (String.◌∷◌ c String.[]) && has_prefix s p

unfoldable pub looks_apple : PowerSources → String → Bool
looks_apple sources gpu_model =
    has_prefix (sources.to_lower (sources.trim_space gpu_model)) "apple "

module _ {F : Type 0} ⦃f : Float64 F⦄ where
  abbrev pub tdp_power : Option ℕ → ℕ → F
  tdp_power none gpus = f.of_nat 0
  tdp_power (some tdp) gpus = f.mul (f.of_nat tdp) (f.of_nat gpus)

  unfoldable pub fallback_power_draw : ProfileResource F → F
  fallback_power_draw profile = tdp_power profile.hardware.tdp_watts profile.hardware.gpu_count

  -- the readings of the profile's node, or of every node where it selects none
  unfoldable pub power_on_node : String → F → List (GpuPowerReading F) → F
  power_on_node node total [] = total
  power_on_node node total (r ∷ rs) =
      power_on_node node
        (if str_eq node "" || str_eq r.node node then f.add total r.power_w else total) rs

  module _ (sources : PowerSources) (profile : ProfileResource F) where
    open sources use {dcgm_endpoint, metal_endpoint, quote, error_text}

    abbrev pub watts : F → String
    watts power = cat "(" (cat (f.fixed 0 power) "W")

    dcgm_report : F → PowerReport F
    unfolding fallback_power_draw
    dcgm_report total =
        let node = label_or_empty profile.node_selector hostname_label in
        let power = fallback_power_draw profile in
        let node_desc = if str_eq node "" then "(any node)" else node in
        if f.eq total (f.of_nat 0)
        then power_report power condition_dcgm_reachable condition_unknown dcgm_no_readings (
            cat "DCGM reachable at " (
              cat dcgm_endpoint (
                cat " but returned no readings for node " (
                  cat (quote node_desc) (
                    cat ". Check the nodeSelector matches a GPU host. Using TDP fallback "
                      (cat (watts power) ")."))))))
        else power_report total condition_dcgm_reachable condition_true dcgm_healthy (
            cat "DCGM healthy at "
              (cat dcgm_endpoint (cat " " (cat (watts total) " current draw)."))))

    dcgm_scraped : Result ScrapeError (List (GpuPowerReading F)) → PowerReport F
    unfolding dcgm_report power_on_node fallback_power_draw
    dcgm_scraped (err e) =
        let power = fallback_power_draw profile in
        power_report power condition_dcgm_reachable condition_false dcgm_scrape_error (
          cat "DCGM scrape failed at " (
            cat dcgm_endpoint (
              cat ": "
                (cat (error_text e) (cat ". Using TDP fallback " (cat (watts power) ")."))))))
    dcgm_scraped (ok readings) =
        dcgm_report (
          power_on_node (label_or_empty profile.node_selector hostname_label) (f.of_nat 0) readings)

    unfoldable pub read_dcgm_power : Fetch F → PowerReport F
    unfolding dcgm_scraped fallback_power_draw
    read_dcgm_power fetch =
        let power = fallback_power_draw profile in
        if str_eq dcgm_endpoint ""
        then power_report power condition_dcgm_reachable condition_false dcgm_not_configured (
            cat "DCGM endpoint not set; using TDP fallback " (
              cat (watts power)
                "). Install the DCGM exporter for real-time power — see https://infercost.ai/docs/dcgm."))
        else dcgm_scraped (scrape_dcgm fetch dcgm_endpoint)

    metal_scraped : Result ScrapeError (ApplePowerReading F) → PowerReport F
    unfolding fallback_power_draw
    metal_scraped (err e) =
        let power = fallback_power_draw profile in
        power_report power condition_metal_reachable condition_false metal_scrape_error (
          cat "Metal scrape failed at " (
            cat metal_endpoint (
              cat ": "
                (cat (error_text e) (cat ". Using TDP fallback " (cat (watts power) ")."))))))
    metal_scraped (ok reading) =
        let power = fallback_power_draw profile in
        let one = λ (x : F). f.fixed 1 x in
        if f.eq reading.combined_w (f.of_nat 0)
        then power_report power condition_metal_reachable condition_unknown metal_sampler_off (
            cat "Metal agent reachable at " (
              cat metal_endpoint (
                cat
                  " but apple_power_combined_watts is 0. Verify --apple-power-enabled is set and /etc/sudoers.d/llmkube-powermetrics is installed. Using TDP fallback "
                  (cat (watts power) ")."))))
        else power_report reading.combined_w condition_metal_reachable condition_true metal_healthy
            (cat "Metal agent healthy at " (
              cat metal_endpoint (
                cat " (" (
                  cat (one reading.combined_w) (
                    cat "W combined; gpu=" (
                      cat (one reading.gpu_w) (
                        cat " cpu=" (
                          cat (one reading.cpu_w)
                            (cat " ane=" (cat (one reading.ane_w) ")."))))))))))

    unfoldable pub read_metal_power : Fetch F → PowerReport F
    unfolding metal_scraped fallback_power_draw
    read_metal_power fetch =
        let power = fallback_power_draw profile in
        if str_eq metal_endpoint ""
        then power_report power condition_metal_reachable condition_false metal_not_configured (
            cat "Metal endpoint not set; using TDP fallback " (
              cat (watts power)
                "). Install the LLMKube Metal Agent with --apple-power-enabled and pass --metal-endpoint to InferCost."))
        else metal_scraped (scrape_apple_power fetch metal_endpoint)

    unfoldable pub read_power : Fetch F → PowerReport F
    read_power fetch =
        if not (str_eq metal_endpoint "") && looks_apple sources profile.hardware.gpu_model
        then read_metal_power fetch
        else read_dcgm_power fetch
