-- ===== src/Lib.antt =====
-- InferCost computes what on-premises inference costs: Kubernetes controllers scrape the token
-- counters of inference pods and the power draw of their hardware, turn hardware prices into hourly
-- costs, attribute them to models and namespaces, compare them with cloud prices, watch budgets and
-- fill an in-memory store that a REST API serves; a command line reads the same cluster, and an
-- export writes FOCUS records.
--
-- The parts and their files:
-- * Scraper models internal/scraper. Scraper/Backend is `ResolveBackend` (`resolve_backend`),
--   Scraper/Port `ResolveMetricsPort` (`resolve_metrics_port`) with what `fmt.Sscanf` reads of a
--   text, Scraper/Metrics the two parsers (`llama_metrics`, `vllm_metrics`), Scraper/Dispatch
--   `Scrape`, Scraper/Client the client's `Scrape` and `parseMetrics` (`client_scrape`), whose results
--   Scraper/Dispatch takes, Scraper/Power the readings of dcgm.go and metal.go.
-- * Utilization models internal/utilization/sampler.go: Utilization/Record is `Record`,
--   Utilization/Retention `gcLocked` (`gc_locked`) on the window of one key, Utilization/Search the
--   standard library's `sort.Search` that it calls, and Utilization/Summary `Summarize` and
--   `ActiveAndTotalHours`. Utilization/Store is internal/utilization/store.go: Store/Codec has the
--   bytes of keys and values, Store/Bolt the interface of the database with its laws and a database
--   in memory that meets them, Store/Operations `Append`, `LoadRange`, `Keys` and `Prune`.
--   Utilization/Durable is the sampler with a store: `Record`, `pruneStore`, `hydrate` and
--   `NewSamplerWithStore`; its client theorems take the database's laws as a parameter.
-- * Profile models internal/controller/costprofile_controller.go: Profile/Power is `readPower`,
--   Profile/Pods `scrapeInferencePods` (`scrape_inference_pods`) with its token snapshots, and
--   Profile/Reconcile `Reconcile` (`reconcile_profile`), which calls Scraper, Calculator, the durable
--   sampler and the store of Api. Profile/Resource has the records of api/v1alpha1.
-- * Api/Store models internal/api/store.go: the store is a record, each locked call one step.
--   Api/Server is internal/api/server.go: the handlers and the routes (`serve`).
-- * Calculator models internal/calculator: Calculator/Cost and Calculator/Cloud are calculator.go
--   (and `BuildComparisons` of internal/api/store.go), Calculator/Catalog is pricing.go.
-- * Usage models internal/controller/usagereport_controller.go: Usage/Pods is `scrapeTokens`,
--   Usage/Breakdown `buildBreakdowns`, Usage/BreakEven `computeBreakEven`, Usage/Status
--   `applyStatusIfChanged`, Usage/Period the reporting period, Usage/Compute the view of a
--   report, Usage/Reconcile `Reconcile` (`reconcile_report`). They call Scraper, Calculator and the records of Api.
-- * Budget models internal/controller/tokenbudget_controller.go (Budget/Evaluate is
--   `evaluateConditions`, Budget/Entry `updateAPIStore` and `Reconcile`, Budget/Rules
--   `reconcilePrometheusRule`) and pkg/cli/budget.go
--   (Budget/Report is `budgetStatus`, which reads the conditions that the controller wrote).
-- * Focus models internal/focus/focus.go: Focus/Row builds a record, Focus/Best chooses the cloud
--   comparison, Focus/Export sorts and writes.
-- * Message models internal/report/message.go: `withCommas` on bytes, and in Message/Status
--   `StatusMessage` (`status_message`), which Usage/Reconcile and Cli/Status call.
-- * Cli models pkg/cli: Cli/Discovery the models that the commands find in pods and services, Cli/Scan
--   what `infercost status` (Cli/Status) and `infercost compare` (Cli/Compare) share, Cli/Budget
--   `infercost budget`, and Cli/Export `infercost export focus`, which calls Focus. A command's
--   output is the list of its lines.
-- * Metrics models internal/metrics/metrics.go: the gauges, over an interface of the Prometheus client,
--   and in Metrics/Emit the calls that the controllers make on them.
-- * Manager models cmd/main.go: `newPowerSampler` (`new_power_sampler`) and the start of the parts.
-- * Base and Float are shared: lists, tests and results; Tests applies the theorems to values.
--
-- Numbers: an `int64` is its bit pattern below 2^64 with Go's wrap-around. `float64` is the record
-- Float64 of its operations, and a theorem that needs order takes the named laws of IsOrdered,
-- which are facts of IEEE 754 rounding; Float/Whole shows that they can hold together. An instant
-- counts nanoseconds. The one loop on fuel is `sort.Search`, with as much fuel as there are
-- elements: its range halves at each round.
--
-- Parameters stand for code outside the repository: the Kubernetes client, the database bbolt, the
-- HTTP client and the parser of metrics, `meta.SetStatusCondition`, YAML, `url.Parse`, the CSV
-- writer, `strings.ToLower`, number formatting and the calendar. A Go map is an association list in
-- some order of iteration, and the orders in which a reconcile of a report visits its maps are arguments.
--
-- Not modelled: opening and closing the bbolt file, the life of the HTTP server and its certificates,
-- logs, the construction of clients, the widths of printed columns, and the wiring of commands.
pub mod Base
pub mod Float
pub mod Scraper
pub mod Utilization
pub mod Api
pub mod Budget
pub mod Focus
pub mod Calculator
pub mod Cli
pub mod Usage
pub mod Profile
pub mod Message
pub mod Manager
pub mod Metrics
pub mod Tests
