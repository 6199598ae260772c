-- ===== src/Scraper/Backend.antt =====
-- internal/scraper/backend.go: the backend of a pod from its annotations and labels. A Go map from
-- texts to texts is a partial function; `Backend` is a text, as in the source.
use infercost.Base.{
  ℕ, ◌≡◌, refl, sym, ◌∙◌, ap, ◌≢◌, ◌⊎◌, ◌↔◌, inl, inr, not, Option, none, some, String, arith,
  str_eq, str_eq_iff, if◌then◌else◌, Bool-cases,
}

abbrev pub Labels : Type 0
Labels = String → Option String

-- `m[k]`, the empty text where the key is missing
abbrev pub label_or_empty : Labels → String → String
label_or_empty m k = elim (m k) [ none ↦ "" | some v ↦ v ]

abbrev pub Backend : Type 0
Backend = String

abbrev pub backend_llama_cpp : Backend
backend_llama_cpp = "llamacpp"

abbrev pub backend_vllm : Backend
backend_vllm = "vllm"

abbrev pub backend_annotation : String
backend_annotation = "infercost.ai/backend"

abbrev pub metrics_port_annotation : String
metrics_port_annotation = "infercost.ai/metrics-port"

abbrev pub llm_kube_runtime_label : String
llm_kube_runtime_label = "inference.llmkube.dev/runtime"

unfoldable pub default_port : Backend → ℕ
default_port b = if str_eq b backend_vllm then 8000 else 8080

pub data BackendSource : Type 0 where
  annotation label llm_kube_runtime default : BackendSource

unfoldable pub normalize_backend : String → Backend
normalize_backend v = if str_eq v backend_vllm then backend_vllm else backend_llama_cpp

-- the lookups of the explicit annotation, the explicit label and the runtime label, in their order
resolve_hints : Option String → Option String → Option String → Backend × BackendSource
resolve_hints (some v) l r = (normalize_backend v, BackendSource.annotation)
resolve_hints none (some v) r = (normalize_backend v, BackendSource.label)
resolve_hints none none (some v) =
    if not (str_eq v "")
    then (normalize_backend v, BackendSource.llm_kube_runtime)
    else (backend_llama_cpp, BackendSource.default)
resolve_hints none none none = (backend_llama_cpp, BackendSource.default)

unfoldable pub resolve_backend_with_source : Labels → Labels → Backend × BackendSource
unfolding resolve_hints
resolve_backend_with_source annotations labels =
    resolve_hints (annotations backend_annotation) (labels backend_annotation)
      (labels llm_kube_runtime_label)

unfoldable pub resolve_backend : Labels → Labels → Backend
unfolding resolve_backend_with_source
resolve_backend annotations labels = (resolve_backend_with_source annotations labels).0

-- The text that decides: the explicit annotation, else the explicit label, else the runtime label.
abbrev first_hint : Option String → Option String → Option String → Option String
first_hint (some v) l r = some v
first_hint none (some v) r = some v
first_hint none none r = r

abbrev pub deciding_hint : Labels → Labels → Option String
deciding_hint annotations labels =
    first_hint (annotations backend_annotation) (labels backend_annotation)
      (labels llm_kube_runtime_label)

normalize_backend-cases :
    (v : String) → (normalize_backend v ≡ backend_llama_cpp) ⊎ (normalize_backend v ≡ backend_vllm)
unfolding normalize_backend
normalize_backend-cases v = ground arith

resolve_hints-known :
    (a l r : Option String)
    → ((resolve_hints a l r).0 ≡ backend_llama_cpp) ⊎ ((resolve_hints a l r).0 ≡ backend_vllm)
unfolding resolve_hints
resolve_hints-known (some v) l r = normalize_backend-cases v
resolve_hints-known none (some v) r = normalize_backend-cases v
resolve_hints-known none none (some v) = elim (Bool-cases (str_eq v "")) [
  | inl e ↦ rw e (inl refl)
  | inr e ↦ rw e (normalize_backend-cases v)
]
resolve_hints-known none none none = inl refl

-- Whatever the annotations and labels hold, the resolved backend is one of the two that have a
-- parser.
pub resolve_backend-known :
    (annotations labels : Labels)
    → (resolve_backend annotations labels ≡ backend_llama_cpp)
      ⊎ (resolve_backend annotations labels ≡ backend_vllm)
unfolding resolve_backend
resolve_backend-known annotations labels =
    resolve_hints-known (annotations backend_annotation) (labels backend_annotation)
      (labels llm_kube_runtime_label)

llama_cpp≢vllm : backend_llama_cpp ≢ backend_vllm
llama_cpp≢vllm h = let e = (str_eq_iff backend_llama_cpp backend_vllm).1 h in cc

empty≢vllm : ◌≢◌ {A = String} "" "vllm"
empty≢vllm h = let e = (str_eq_iff "" "vllm").1 h in cc

some_string : (v w : String) → (Path (Option String) (some v) (some w)) ↔ (v ≡ w)
some_string v w = ((λ h. cc), λ h. cc)

normalize_backend_iff :
    (v : String) → (normalize_backend v ≡ backend_vllm) ↔ (some v ≡ some backend_vllm)
unfolding normalize_backend
normalize_backend_iff v = elim (Bool-cases (str_eq v backend_vllm)) [
  | inl e ↦ ((λ _. ap some ((str_eq_iff v backend_vllm).0 e)), λ _. rw e)
  | inr e ↦ (
    (λ h. absurd (llama_cpp≢vllm (rw e at h))),
    λ h. let k = (str_eq_iff v backend_vllm).1 ((some_string v backend_vllm).0 h) in cc,
  )
]

resolve_hints-vllm_iff :
    (a l r : Option String)
    → ((resolve_hints a l r).0 ≡ backend_vllm) ↔ (first_hint a l r ≡ some backend_vllm)
unfolding resolve_hints
resolve_hints-vllm_iff (some v) l r = normalize_backend_iff v
resolve_hints-vllm_iff none (some v) r = normalize_backend_iff v
resolve_hints-vllm_iff none none (some v) = elim (Bool-cases (str_eq v "")) [
  | inl e ↦
      let v_empty = (str_eq_iff v "").0 e in
      rw e (
        (λ h. absurd (llama_cpp≢vllm h)),
        λ h. absurd (empty≢vllm (sym v_empty ∙ (some_string v backend_vllm).0 h)),
      )
  | inr e ↦ rw e (normalize_backend_iff v)
]
resolve_hints-vllm_iff none none none = ((λ h. absurd (llama_cpp≢vllm h)), λ h. cc)

-- vLLM is chosen exactly when the deciding text is `vllm`: the explicit annotation, else the
-- explicit label, else the runtime label.
pub resolve_backend-vllm_iff :
    (annotations labels : Labels)
    → (resolve_backend annotations labels ≡ backend_vllm)
      ↔ (deciding_hint annotations labels ≡ some backend_vllm)
unfolding resolve_backend
resolve_backend-vllm_iff annotations labels =
    resolve_hints-vllm_iff (annotations backend_annotation) (labels backend_annotation)
      (labels llm_kube_runtime_label)
