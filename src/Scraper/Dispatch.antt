-- ===== src/Scraper/Dispatch.antt =====
-- internal/scraper: `Scrape`, `ScrapeLlamaCPP` and `ScrapeVLLM`. The client's `Scrape`, an HTTP request
-- and the parser of the Prometheus text format, is the parameter `fetch`.
use infercost.Base.{
  ◌≡◌, refl, inl, inr, String, List, str_eq, if◌then◌else◌, Result, ok, err, ◌>>=◌, map_err,
}
use infercost.Float.{Float64}
use infercost.Scraper.Backend.{
  Labels, Backend, backend_llama_cpp, backend_vllm, resolve_backend, resolve_backend-known,
}
use infercost.Scraper.Metrics.{MetricSample, InferenceMetrics, llama_metrics, vllm_metrics}

pub data ScrapeError : Type 0 where
  -- a request or a parse that failed, by the text of its error, behind the parser's own prefix
  scraping : String → String → ScrapeError
  unknown_backend : Backend → ScrapeError

-- what the client returns for an endpoint
abbrev pub Fetch : Type 0 → Type 0
Fetch F = String → Result String (List (MetricSample F))

module _ {F : Type 0} ⦃f : Float64 F⦄ where
  unfoldable pub scrape_llama_cpp : Fetch F → String → Result ScrapeError (InferenceMetrics F)
  scrape_llama_cpp fetch endpoint = do
    samples ← map_err (scraping "scraping llama.cpp: ") (fetch endpoint)
    ok (llama_metrics samples)

  unfoldable pub scrape_vllm : Fetch F → String → Result ScrapeError (InferenceMetrics F)
  scrape_vllm fetch endpoint = do
    samples ← map_err (scraping "scraping vllm: ") (fetch endpoint)
    ok (vllm_metrics samples)

  unfoldable pub scrape : Fetch F → Backend → String → Result ScrapeError (InferenceMetrics F)
  unfolding scrape_llama_cpp scrape_vllm
  scrape fetch backend endpoint =
      if str_eq backend backend_vllm
      then scrape_vllm fetch endpoint
      else if str_eq backend backend_llama_cpp
      then scrape_llama_cpp fetch endpoint
      else err (unknown_backend backend)

  -- A pod whose endpoint can be fetched is always parsed: the backend that its annotations and
  -- labels resolve to is never refused as unknown, and its metrics are those of the vLLM parser or
  -- of the llama.cpp parser, by the backend.
  pub scrape-resolve_backend :
      (fetch : Fetch F) (annotations labels : Labels) (endpoint : String)
      (samples : List (MetricSample F))
      → fetch endpoint ≡ ok samples
      → let backend = resolve_backend annotations labels in
        scrape fetch backend endpoint
        ≡ ok (if str_eq backend backend_vllm then vllm_metrics samples else llama_metrics samples)
  unfolding scrape
  scrape-resolve_backend fetch annotations labels endpoint samples h =
      elim (resolve_backend-known annotations labels) [
        | inl e ↦ rw (e, h) refl
        | inr e ↦ rw (e, h) refl
      ]
