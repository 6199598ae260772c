-- ===== src/Scraper/Power.antt =====
-- internal/scraper/{dcgm,metal}.go: power readings of NVIDIA and Apple hosts.
use infercost.Base.{String, List, [], ◌∷◌, map, Result, ok, ◌>>=◌, map_err}
use infercost.Float.{Float64}
use infercost.Scraper.Backend.{label_or_empty}
use infercost.Scraper.Metrics.{MetricSample, filter_by_name}
use infercost.Scraper.Dispatch.{ScrapeError, scraping, Fetch}

abbrev pub dcgm_power_usage_metric : String
dcgm_power_usage_metric = "DCGM_FI_DEV_POWER_USAGE"

pub record GpuPowerReading (F : Type 0) : Type 0 where
  pub gpu_id : String
  pub uuid : String
  pub model_name : String
  pub node : String
  pub pod : String
  pub namespace : String
  pub power_w : F

abbrev pub apple_power_combined_metric : String
apple_power_combined_metric = "llmkube_metal_agent_apple_power_combined_watts"

abbrev pub apple_power_gpu_metric : String
apple_power_gpu_metric = "llmkube_metal_agent_apple_power_gpu_watts"

abbrev pub apple_power_cpu_metric : String
apple_power_cpu_metric = "llmkube_metal_agent_apple_power_cpu_watts"

abbrev pub apple_power_ane_metric : String
apple_power_ane_metric = "llmkube_metal_agent_apple_power_ane_watts"

pub record ApplePowerReading (F : Type 0) : Type 0 where
  pub combined_w : F
  pub gpu_w : F
  pub cpu_w : F
  pub ane_w : F

module _ {F : Type 0} where
  unfoldable pub reading_of : MetricSample F → GpuPowerReading F
  reading_of s = record {
    gpu_id = label_or_empty s.labels "gpu";
    uuid = label_or_empty s.labels "UUID";
    model_name = label_or_empty s.labels "modelName";
    node = label_or_empty s.labels "Hostname";
    pod = label_or_empty s.labels "pod";
    namespace = label_or_empty s.labels "namespace";
    power_w = s.value;
  }

  unfoldable pub scrape_dcgm : Fetch F → String → Result ScrapeError (List (GpuPowerReading F))
  unfolding reading_of
  scrape_dcgm fetch endpoint = do
    samples ← map_err (scraping "scraping DCGM: ") (fetch endpoint)
    ok (map reading_of (filter_by_name samples dcgm_power_usage_metric))

  -- `for … { r.Field = s.Value }`
  assign_last : F → List (MetricSample F) → F
  assign_last r [] = r
  assign_last r (s ∷ ss) = assign_last s.value ss

module _ {F : Type 0} ⦃f : Float64 F⦄ where
  unfoldable pub add_power : F → List (GpuPowerReading F) → F
  add_power total [] = total
  add_power total (r ∷ rs) = add_power (f.add total r.power_w) rs

  unfoldable pub total_power_watts : List (GpuPowerReading F) → F
  unfolding add_power
  total_power_watts readings = add_power (f.of_nat 0) readings

  unfoldable pub scrape_apple_power : Fetch F → String → Result ScrapeError (ApplePowerReading F)
  unfolding assign_last
  scrape_apple_power fetch endpoint = do
    samples ← map_err (scraping "scraping Metal agent: ") (fetch endpoint)
    let zero_w = f.of_nat 0
    ok (record {
      combined_w = assign_last zero_w (filter_by_name samples apple_power_combined_metric);
      gpu_w = assign_last zero_w (filter_by_name samples apple_power_gpu_metric);
      cpu_w = assign_last zero_w (filter_by_name samples apple_power_cpu_metric);
      ane_w = assign_last zero_w (filter_by_name samples apple_power_ane_metric);
    })
