-- ===== src/Cli/Discovery.antt =====
-- pkg/cli/discovery.go, with `podProxyURL` of client.go. The cluster's answers and `url.Parse` are
-- arguments: `metrics_text` is the text of a parsed URL whose path is `/metrics` and whose query and
-- fragment are empty. The set of known keys is a list. `fmt`'s decimal text of a number is the
-- argument `format_int`.
pub mod Overlap
pub mod Port
use infercost.Base.{
  ℕ, ◌==◌, Bool, true, false, not, ◌&&◌, ◌||◌, Option, none, some, String, List, [], ◌∷◌, str_eq,
  cat, any, if◌then◌else◌, Result, ok, err,
}
use infercost.Scraper.Backend.{label_or_empty}
use infercost.Usage.Pods.{Pod, model_label}

pub record DiscoveredModel : Type 0 where
  pub name : String
  pub namespace : String
  pub origin : String
  pub source_name : String
  pub metrics_url : String
  pub phase : String
  pub is_scrapable : Bool

-- the fields of an unstructured InferenceService, empty where missing
pub record InferenceService : Type 0 where
  pub name : String
  pub namespace : String
  pub model_ref : String
  pub phase : String
  pub endpoint : String

pub record EndpointPort : Type 0 where
  pub name : String
  pub port : ℕ

-- `addresses` are the IPs
pub record EndpointSubset : Type 0 where
  pub addresses : List String
  pub ports : List EndpointPort

-- what the tests of `apierrors` say of an error, and the code of a `StatusError`
pub record ListError : Type 0 where
  pub is_not_found : Bool
  pub is_forbidden : Bool
  pub is_service_unavailable : Bool
  pub status_code : Option ℕ

abbrev pub deduplication_key : String → String → String
deduplication_key namespace model_name = cat namespace (cat "/" model_name)

abbrev pub model_key : DiscoveredModel → String
model_key m = deduplication_key m.namespace m.name

-- the two results of `discoverModelsFromPods`
pub record PodModels : Type 0 where
  pub models : List DiscoveredModel
  pub known : List String

module _ (host : String) (format_int : ℕ → String) where
  abbrev pub pod_proxy_url : String → String → ℕ → String → String
  pod_proxy_url namespace name port path = cat host (
      cat "/api/v1/namespaces/" (
        cat namespace
          (cat "/pods/" (cat name (cat ":" (cat (format_int port) (cat "/proxy/" path)))))))

  unfoldable pub model_of_pod : Pod → DiscoveredModel
  model_of_pod pod =
      let ready = str_eq pod.phase "Running" && not (str_eq pod.pod_ip "") in
      record {
        name = label_or_empty pod.labels model_label;
        namespace = pod.namespace;
        origin = "pod";
        source_name = pod.name;
        metrics_url = if ready then pod_proxy_url pod.namespace pod.name 8080 "metrics" else "";
        phase = pod.phase;
        is_scrapable = ready;
      }

  unfoldable pub discover_models_from_pods : List Pod → PodModels
  unfolding model_of_pod
  discover_models_from_pods [] = record { models = []; known = [] }
  discover_models_from_pods (pod ∷ pods) =
      let rest = discover_models_from_pods pods in
      let model_name = label_or_empty pod.labels model_label in
      if str_eq model_name "" then rest else record {
        models = model_of_pod pod ∷ rest.models;
        known = deduplication_key pod.namespace model_name ∷ rest.known;
      }

-- from the port found so far: the port named http, in any case, ends the loop
module _ (equal_fold : String → String → Bool) where
  unfoldable pub endpoint_port : ℕ → List EndpointPort → ℕ
  endpoint_port port [] = port
  endpoint_port port (p ∷ ps) =
      let rest = endpoint_port p.port ps in
      if str_eq p.name "http" || equal_fold p.name "http" then p.port else rest

  module _ (format_int : ℕ → String) where
    -- `none` where no subset has an address
    unfoldable pub resolve_subsets : List EndpointSubset → Option String
    unfolding endpoint_port
    resolve_subsets [] = none
    resolve_subsets (s ∷ ss) = elim s.addresses [
      | [] ↦ resolve_subsets ss
      | ip ∷ ips ↦ some (
          cat "http://"
            (cat ip (cat ":" (cat (format_int (endpoint_port 8080 s.ports)) "/metrics"))))
    ]

    unfoldable pub resolve_endpoint_ip :
        {E : Type 0}
        → (String → String → Result E (List EndpointSubset))
        → String
        → String
        → Option String
    unfolding resolve_subsets
    resolve_endpoint_ip get_endpoints name namespace = elim (get_endpoints name namespace) [
      | ok subsets ↦ resolve_subsets subsets
      | err e ↦ none
    ]

abbrev pub model_of_url : InferenceService → Option String → Option DiscoveredModel
model_of_url obj none = none
model_of_url obj (some metrics_url) = some (record {
  name = obj.model_ref;
  namespace = obj.namespace;
  origin = "inferenceservice";
  source_name = cat "isvc/" obj.name;
  metrics_url = metrics_url;
  phase = obj.phase;
  is_scrapable = true;
})

abbrev pub with_endpoint : DiscoveredModel → Option String → DiscoveredModel
with_endpoint m none = m
with_endpoint m (some url) = if str_eq url "" then m else record m { metrics_url = url }

abbrev pub add_service :
    Option DiscoveredModel → Option String → List DiscoveredModel → List DiscoveredModel
add_service none resolved rest = rest
add_service (some m) resolved rest = with_endpoint m resolved ∷ rest

module _ {U : Type 0} (parse : String → Option U) (url_host metrics_text : U → String) where
  metrics_text_of : Option U → Option String
  metrics_text_of none = none
  metrics_text_of (some u) = if str_eq (url_host u) "" then none else some (metrics_text u)

  -- `none` is an error
  unfoldable pub metrics_url_from_endpoint : String → Option String
  unfolding metrics_text_of
  metrics_url_from_endpoint endpoint =
      if str_eq endpoint "" then none else metrics_text_of (parse endpoint)

  module _ (known_models : List String) where
    -- `none` is a service that is skipped
    unfoldable pub inference_service_to_model : InferenceService → Option DiscoveredModel
    unfolding metrics_url_from_endpoint
    inference_service_to_model obj =
        if str_eq obj.model_ref ""
        then none
        else if any (str_eq (deduplication_key obj.namespace obj.model_ref)) known_models
        then none
        else if not (str_eq obj.phase "Ready")
        then none
        else model_of_url obj (metrics_url_from_endpoint obj.endpoint)

    -- `resolve` is the resolved endpoint of a service, none without a client or on an error
    module _ (resolve : InferenceService → Option String) where
      unfoldable pub models_of_services : List InferenceService → List DiscoveredModel
      unfolding inference_service_to_model
      models_of_services [] = []
      models_of_services (obj ∷ objs) =
          add_service (inference_service_to_model obj) (resolve obj) (models_of_services objs)

abbrev pub is_missing_code : Option ℕ → Bool
is_missing_code none = false
is_missing_code (some code) = code == 404 || code == 403

abbrev pub is_swallowed : ListError → Bool
is_swallowed e =
    e.is_not_found || e.is_forbidden || e.is_service_unavailable || is_missing_code e.status_code

-- an error that says the CRD is missing or may not be read gives no models
unfoldable pub discover_models_from_inference_services :
    (List InferenceService → List DiscoveredModel)
    → Result ListError (List InferenceService)
    → Result ListError (List DiscoveredModel)
discover_models_from_inference_services models (ok objs) = ok (models objs)
discover_models_from_inference_services models (err e) = if is_swallowed e then ok [] else err e
