-- ===== src/Tests/Startup.antt =====
-- Tests and examples of cmd/main.go.
use infercost.Base.{◌≡◌, refl, true, some, String, [], ◌∷◌, Result, ok, err}
use infercost.Float.Whole.{Whole, whole_float}
use infercost.Calculator.Catalog.{PricingCatalog, validate, load_cloud_pricing_file}
use infercost.Utilization.Store.Bolt.Memory.{Memory, memory_bolt}
use infercost.Manager.{
  StoreFiles, ManagerFlags, ManagerCalls, Started, in_memory, failed, start_manager,
}
use infercost.Manager.Pricing.{start_manager-override}
use infercost.Tests.Costs.{catalog_of}

abbrev no_disk : StoreFiles Memory
no_disk = record {
  abs = λ path. err "no disk";
  join = λ dir file. dir;
  open_store = λ path. err "no disk";
  error_text = λ e. "";
}

abbrev flags_with : String → ManagerFlags
flags_with data_dir = record {
  api_addr = ":8092";
  pricing_file = "/etc/infercost/pricing.yaml";
  data_dir = data_dir;
  sample_retention = 0;
}

abbrev all_calls : ManagerCalls
all_calls = record {
  new_manager = ok tt;
  setup_cost_profile = ok tt;
  setup_usage_report = ok tt;
  setup_token_budget = ok tt;
  add_healthz_check = ok tt;
  add_readyz_check = ok tt;
}

abbrev read_any : String → Result String String
read_any path = ok "text"

abbrev parse_any : String → Result String (PricingCatalog Whole)
parse_any text = ok (catalog_of ("a" ∷ "b" ∷ []))

abbrev same_text : String → String
same_text s = s

abbrev started : Started Memory Whole
started = record {
  override = some (catalog_of ("a" ∷ "b" ∷ []));
  power_sampler = in_memory 172800000000000;
  serves_api = true;
}

manager_starts :
    start_manager no_disk same_text read_any parse_any (flags_with "") all_calls 9 ≡ ok started
unfolding start_manager load_cloud_pricing_file validate
manager_starts = refl

-- a data directory that is not there ends the start
no_data_dir :
    start_manager {F = Whole} no_disk same_text read_any parse_any (flags_with "/data") all_calls 9
    ≡ err (failed "Failed to configure power sample store" "resolving data dir: no disk")
unfolding start_manager load_cloud_pricing_file validate
no_data_dir = refl

start_manager-override_example :
    (c : PricingCatalog Whole) × (started.override ≡ some c)
    × (load_cloud_pricing_file same_text read_any parse_any "/etc/infercost/pricing.yaml" ≡ ok c)
    × (validate same_text c ≡ ok tt)
start_manager-override_example =
    start_manager-override no_disk same_text read_any parse_any (flags_with "") all_calls 9 started
      refl manager_starts
