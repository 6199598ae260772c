-- ===== src/Cli/Discovery/Overlap.antt =====
-- The models that the commands of pkg/cli find, and that none is found twice.
use infercost.Base.{
  ◌≡◌, refl, true, false, not, Bool, Bool-cases, inl, inr, Option, none, some, String, List, [],
  ◌∷◌, str_eq, str_eq_refl, any, All, if◌then◌else◌, arith, ℕ, str_eq_iff,
}
use mathlib.Core.Path.{subst}
use infercost.Scraper.Backend.{label_or_empty}
use infercost.Usage.Pods.{Pod, model_label}
use infercost.Cli.Discovery.{
  DiscoveredModel, InferenceService, model_key, deduplication_key, discover_models_from_pods,
  model_of_pod, model_of_url, inference_service_to_model, models_of_services, with_endpoint,
  add_service,
}

-- its key is among the known ones
abbrev pub IsKnown : List String → DiscoveredModel → Type 0
IsKnown known m = any (str_eq (model_key m)) known ≡ true

-- a ready model to scrape, whose key is not among the known ones
abbrev pub IsFresh : List String → DiscoveredModel → Type 0
IsFresh known m =
    (any (str_eq (model_key m)) known ≡ false) × (m.is_scrapable ≡ true) × (m.phase ≡ "Ready")

All-IsKnown :
    (k : String) (known : List String) (ms : List DiscoveredModel)
    → All (IsKnown known) ms
    → All (IsKnown (k ∷ known)) ms
All-IsKnown k known [] h = tt
All-IsKnown k known (m ∷ ms) (h, hs) = (ground (arith, h), All-IsKnown k known ms hs)

module _ (host : String) (format_int : ℕ → String) where
  discover_models_from_pods-IsKnown :
      (pods : List Pod)
      → let found = discover_models_from_pods host format_int pods in
        All (IsKnown found.known) found.models
  unfolding discover_models_from_pods model_of_pod
  discover_models_from_pods-IsKnown [] = tt
  discover_models_from_pods-IsKnown (pod ∷ pods) =
      let rest = discover_models_from_pods host format_int pods in
      let key = deduplication_key pod.namespace (label_or_empty pod.labels model_label) in
      elim (Bool-cases (str_eq (label_or_empty pod.labels model_label) "")) [
        | inl e ↦ rw e (discover_models_from_pods-IsKnown pods)
        | inr e ↦ rw e (
          rw (str_eq_refl key) refl,
          All-IsKnown key rest.known rest.models (discover_models_from_pods-IsKnown pods),
        )
      ]

pass_guards :
    {A : Type 0} (a b c : Bool) (o : Option A) (m : A)
    → (if a then none else if b then none else if not c then none else o) ≡ some m
    → (b ≡ false) × (c ≡ true) × (o ≡ some m)
pass_guards a b c o m h = ground arith

some_inj : {A : Type 0} (q p : A) → Path (Option A) (some q) (some p) → q ≡ p
some_inj q p h = cc

model_of_url-IsFresh :
    (known : List String) (obj : InferenceService) (url : Option String) (m : DiscoveredModel)
    → any (str_eq (deduplication_key obj.namespace obj.model_ref)) known ≡ false
    → obj.phase ≡ "Ready"
    → model_of_url obj url ≡ some m
    → IsFresh known m
model_of_url-IsFresh known obj none m h ready e = ground arith
model_of_url-IsFresh known obj (some url) m h ready e =
    subst (IsFresh known) (some_inj _ m e) (h, refl, ready)

with_endpoint-IsFresh :
    (known : List String) (m : DiscoveredModel) (url : Option String)
    → IsFresh known m
    → IsFresh known (with_endpoint m url)
with_endpoint-IsFresh known m none h = h
with_endpoint-IsFresh known m (some url) h = elim (Bool-cases (str_eq url "")) [
  | inl e ↦ rw e h
  | inr e ↦ rw e h
]

add_service-IsFresh :
    (known : List String) (found : Option DiscoveredModel) (resolved : Option String)
    (ms : List DiscoveredModel)
    → ((m : DiscoveredModel) → found ≡ some m → IsFresh known m)
    → All (IsFresh known) ms
    → All (IsFresh known) (add_service found resolved ms)
add_service-IsFresh known none resolved ms h hs = hs
add_service-IsFresh known (some m) resolved ms h hs =
    (with_endpoint-IsFresh known m resolved (h m refl), hs)

module _ {U : Type 0} (parse : String → Option U) (url_host metrics_text : U → String)
    (known : List String) where
  inference_service_to_model-IsFresh :
      (obj : InferenceService) (m : DiscoveredModel)
      → inference_service_to_model parse url_host metrics_text known obj ≡ some m
      → IsFresh known m
  unfolding inference_service_to_model
  inference_service_to_model-IsFresh obj m h =
      let (fresh, ready, e) = pass_guards _ _ _ _ m h in
      model_of_url-IsFresh known obj _ m fresh ((str_eq_iff obj.phase "Ready").0 ready) e

  models_of_services-IsFresh :
      (resolve : InferenceService → Option String) (objs : List InferenceService)
      → All (IsFresh known) (models_of_services parse url_host metrics_text known resolve objs)
  unfolding models_of_services
  models_of_services-IsFresh resolve [] = tt
  models_of_services-IsFresh resolve (obj ∷ objs) =
      add_service-IsFresh known (inference_service_to_model parse url_host metrics_text known obj)
        (resolve obj) _ (inference_service_to_model-IsFresh obj)
        (models_of_services-IsFresh resolve objs)

-- The models found in the pods have keys that are known, and the models then found in the services
-- are ready, can be scraped, and have keys that are not: no model is found in both.
pub discover-no_overlap :
    (host : String) (format_int : ℕ → String) (pods : List Pod) {U : Type 0}
    (parse : String → Option U) (url_host metrics_text : U → String)
    (resolve : InferenceService → Option String) (objs : List InferenceService)
    → let found = discover_models_from_pods host format_int pods in
      All (IsKnown found.known) found.models
      × All
          (IsFresh found.known)
          (models_of_services parse url_host metrics_text found.known resolve objs)
discover-no_overlap host format_int pods parse url_host metrics_text resolve objs = (
  discover_models_from_pods-IsKnown host format_int pods,
  models_of_services-IsFresh parse url_host metrics_text
      (discover_models_from_pods host format_int pods).known resolve objs,
)
