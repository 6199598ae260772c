-- ===== src/Scraper/Metrics/Counters.antt =====
-- The loops of the two parsers against a description by metric name.
use infercost.Base.{
  ◌≡◌, refl, sym, ap, ◌∙◌, Bool, true, false, Option, none, some, String, List, [], ◌∷◌, str_eq,
  str_eq_iff, if◌then◌else◌, Bool-cases, inl, inr,
}
use mathlib.Core.Path.{subst}
use infercost.Float.{Float64}
use infercost.Scraper.Metrics.{
  MetricSample, InferenceMetrics, Counter, prompt_total, predicted_total, prompt_rate,
  predicted_rate, in_flight, get, assign, accumulate, no_metrics, filter_by_name, llama_counter,
  vllm_counter, llama_samples, vllm_samples, llama_metrics, vllm_metrics,
  llama_prompt_tokens_metric, llama_predicted_tokens_metric, llama_prompt_tokens_seconds_metric,
  llama_predicted_tokens_seconds_metric, llama_requests_processing_metric,
  vllm_prompt_tokens_metric, vllm_generation_tokens_metric, vllm_requests_running_metric,
  vllm_avg_prompt_throughput_metric, vllm_avg_generation_throughput_metric,
}

-- the metric that feeds a field
abbrev pub llama_name : Counter → String
llama_name prompt_total = llama_prompt_tokens_metric
llama_name predicted_total = llama_predicted_tokens_metric
llama_name prompt_rate = llama_prompt_tokens_seconds_metric
llama_name predicted_rate = llama_predicted_tokens_seconds_metric
llama_name in_flight = llama_requests_processing_metric

abbrev pub vllm_name : Counter → String
vllm_name prompt_total = vllm_prompt_tokens_metric
vllm_name predicted_total = vllm_generation_tokens_metric
vllm_name prompt_rate = vllm_avg_prompt_throughput_metric
vllm_name predicted_rate = vllm_avg_generation_throughput_metric
vllm_name in_flight = vllm_requests_running_metric

abbrev same : Counter → Counter → Bool
same prompt_total prompt_total = true
same predicted_total predicted_total = true
same prompt_rate prompt_rate = true
same predicted_rate predicted_rate = true
same in_flight in_flight = true
same _ _ = false

abbrev is_counter : Counter → Option Counter → Bool
is_counter c none = false
is_counter c (some d) = same c d

split_eq : (P : String → Type 0) (n a : String) → P a → (str_eq n a ≡ false → P n) → P n
split_eq P n a at other = elim (Bool-cases (str_eq n a)) [
  | inl e ↦ subst P (sym ((str_eq_iff n a).0 e)) at
  | inr e ↦ other e
]

-- A switch over five names, from its values at the names and where no name fits.
module _ (names : Counter → String) (switch : String → Option Counter)
    (at_name : (c d : Counter) → str_eq (names d) (names c) ≡ is_counter c (switch (names d)))
    (miss : (n : String)
      → str_eq n (names prompt_total) ≡ false
      → str_eq n (names predicted_total) ≡ false
      → str_eq n (names prompt_rate) ≡ false
      → str_eq n (names predicted_rate) ≡ false
      → str_eq n (names in_flight) ≡ false
      → switch n ≡ none) where
  all_miss :
      (c : Counter) (n : String)
      → str_eq n (names prompt_total) ≡ false
      → str_eq n (names predicted_total) ≡ false
      → str_eq n (names prompt_rate) ≡ false
      → str_eq n (names predicted_rate) ≡ false
      → str_eq n (names in_flight) ≡ false
      → str_eq n (names c) ≡ is_counter c (switch n)
  all_miss prompt_total n h i j k l = rw (miss n h i j k l) h
  all_miss predicted_total n h i j k l = rw (miss n h i j k l) i
  all_miss prompt_rate n h i j k l = rw (miss n h i j k l) j
  all_miss predicted_rate n h i j k l = rw (miss n h i j k l) k
  all_miss in_flight n h i j k l = rw (miss n h i j k l) l

  switch-name : (c : Counter) (n : String) → str_eq n (names c) ≡ is_counter c (switch n)
  switch-name c n =
      let P : String → Type 0 = λ m. str_eq m (names c) ≡ is_counter c (switch m) in
      split_eq P n (names prompt_total) (at_name c prompt_total) λ h.
        split_eq P n (names predicted_total) (at_name c predicted_total) λ i.
          split_eq P n (names prompt_rate) (at_name c prompt_rate) λ j.
            split_eq P n (names predicted_rate) (at_name c predicted_rate)
              λ k. split_eq P n (names in_flight) (at_name c in_flight) λ l. all_miss c n h i j k l

llama_at_name :
    (c d : Counter)
    → str_eq (llama_name d) (llama_name c) ≡ is_counter c (llama_counter (llama_name d))
unfolding llama_counter
llama_at_name prompt_total prompt_total = refl
llama_at_name prompt_total _ = refl
llama_at_name predicted_total prompt_total = refl
llama_at_name predicted_total _ = refl
llama_at_name prompt_rate prompt_total = refl
llama_at_name prompt_rate _ = refl
llama_at_name predicted_rate prompt_total = refl
llama_at_name predicted_rate _ = refl
llama_at_name in_flight prompt_total = refl
llama_at_name in_flight _ = refl

vllm_at_name :
    (c d : Counter) → str_eq (vllm_name d) (vllm_name c) ≡ is_counter c (vllm_counter (vllm_name d))
unfolding vllm_counter
vllm_at_name prompt_total prompt_total = refl
vllm_at_name prompt_total _ = refl
vllm_at_name predicted_total prompt_total = refl
vllm_at_name predicted_total _ = refl
vllm_at_name prompt_rate prompt_total = refl
vllm_at_name prompt_rate _ = refl
vllm_at_name predicted_rate prompt_total = refl
vllm_at_name predicted_rate _ = refl
vllm_at_name in_flight prompt_total = refl
vllm_at_name in_flight _ = refl

llama_counter-name :
    (c : Counter) (n : String) → str_eq n (llama_name c) ≡ is_counter c (llama_counter n)
unfolding llama_counter
llama_counter-name =
    switch-name llama_name llama_counter llama_at_name (λ n h i j k l. rw (h, i, j, k, l))

vllm_counter-name :
    (c : Counter) (n : String) → str_eq n (vllm_name c) ≡ is_counter c (vllm_counter n)
unfolding vllm_counter
vllm_counter-name =
    switch-name vllm_name vllm_counter vllm_at_name (λ n h i j k l. rw (h, i, l, j, k))

module _ {F : Type 0} where
  abbrev pub last_value : F → List (MetricSample F) → F
  last_value d [] = d
  last_value d (s ∷ ss) = last_value s.value ss

  get-assign :
      (c : Counter) (o : Option Counter) (v : F) (m : InferenceMetrics F)
      → get c (assign o v m) ≡ (if is_counter c o then v else get c m)
  get-assign c none v m = refl
  get-assign prompt_total (some prompt_total) v m = refl
  get-assign prompt_total (some _) v m = refl
  get-assign predicted_total (some prompt_total) v m = refl
  get-assign predicted_total (some _) v m = refl
  get-assign prompt_rate (some prompt_total) v m = refl
  get-assign prompt_rate (some _) v m = refl
  get-assign predicted_rate (some prompt_total) v m = refl
  get-assign predicted_rate (some _) v m = refl
  get-assign in_flight (some prompt_total) v m = refl
  get-assign in_flight (some _) v m = refl

  llama_samples-last :
      (c : Counter) (m : InferenceMetrics F) (ss : List (MetricSample F))
      → get c (llama_samples m ss) ≡ last_value (get c m) (filter_by_name ss (llama_name c))
  unfolding llama_samples filter_by_name
  llama_samples-last c m [] = refl
  llama_samples-last c m (s ∷ ss) =
      let rest = llama_samples-last c (assign (llama_counter s.name) s.value m) ss in
      let step = get-assign c (llama_counter s.name) s.value m in
      let name = llama_counter-name c s.name in
      let tail = filter_by_name ss (llama_name c) in
      elim (Bool-cases (str_eq s.name (llama_name c))) [
        | inl e ↦ rw e (rest ∙ ap (λ v. last_value v tail) (step ∙ rw (← name, e)))
        | inr e ↦ rw e (rest ∙ ap (λ v. last_value v tail) (step ∙ rw (← name, e)))
      ]

  -- metrics with the same fields are one
  pub metrics_path : (m k : InferenceMetrics F) → ((c : Counter) → get c m ≡ get c k) → m ≡ k
  metrics_path m k h = λ i. record {
    prompt_tokens_total = h prompt_total i;
    predicted_tokens_total = h predicted_total i;
    prompt_tokens_per_sec = h prompt_rate i;
    predicted_tokens_per_sec = h predicted_rate i;
    requests_processing = h in_flight i;
  }

module _ {F : Type 0} ⦃f : Float64 F⦄ where
  abbrev pub sum_values : F → List (MetricSample F) → F
  sum_values acc [] = acc
  sum_values acc (s ∷ ss) = sum_values (f.add acc s.value) ss

  get-accumulate :
      (c : Counter) (o : Option Counter) (v : F) (m : InferenceMetrics F)
      → get c (accumulate o v m) ≡ (if is_counter c o then f.add (get c m) v else get c m)
  get-accumulate c none v m = refl
  get-accumulate prompt_total (some prompt_total) v m = refl
  get-accumulate prompt_total (some _) v m = refl
  get-accumulate predicted_total (some prompt_total) v m = refl
  get-accumulate predicted_total (some _) v m = refl
  get-accumulate prompt_rate (some prompt_total) v m = refl
  get-accumulate prompt_rate (some _) v m = refl
  get-accumulate predicted_rate (some prompt_total) v m = refl
  get-accumulate predicted_rate (some _) v m = refl
  get-accumulate in_flight (some prompt_total) v m = refl
  get-accumulate in_flight (some _) v m = refl

  get-no_metrics : (c : Counter) → get c (no_metrics {F = F}) ≡ f.of_nat 0
  get-no_metrics prompt_total = refl
  get-no_metrics predicted_total = refl
  get-no_metrics prompt_rate = refl
  get-no_metrics predicted_rate = refl
  get-no_metrics in_flight = refl

  vllm_samples-sum :
      (c : Counter) (m : InferenceMetrics F) (ss : List (MetricSample F))
      → get c (vllm_samples m ss) ≡ sum_values (get c m) (filter_by_name ss (vllm_name c))
  unfolding vllm_samples filter_by_name
  vllm_samples-sum c m [] = refl
  vllm_samples-sum c m (s ∷ ss) =
      let rest = vllm_samples-sum c (accumulate (vllm_counter s.name) s.value m) ss in
      let step = get-accumulate c (vllm_counter s.name) s.value m in
      let name = vllm_counter-name c s.name in
      let tail = filter_by_name ss (vllm_name c) in
      elim (Bool-cases (str_eq s.name (vllm_name c))) [
        | inl e ↦ rw e (rest ∙ ap (λ v. sum_values v tail) (step ∙ rw (← name, e)))
        | inr e ↦ rw e (rest ∙ ap (λ v. sum_values v tail) (step ∙ rw (← name, e)))
      ]

  -- Each field of what the llama.cpp parser returns is the value of the last sample that carries
  -- the field's metric name, and 0 if none does.
  pub llama_metrics-last :
      (c : Counter) (samples : List (MetricSample F))
      → get c (llama_metrics samples)
        ≡ last_value (f.of_nat 0) (filter_by_name samples (llama_name c))
  unfolding llama_metrics
  llama_metrics-last c samples =
      llama_samples-last c no_metrics samples
      ∙ ap (λ v. last_value v (filter_by_name samples (llama_name c))) (get-no_metrics c)

  -- Each field of what the vLLM parser returns is the sum, in order, of all samples that carry the
  -- field's metric name: a pod that serves several models is counted whole.
  pub vllm_metrics-sum :
      (c : Counter) (samples : List (MetricSample F))
      → get c (vllm_metrics samples)
        ≡ sum_values (f.of_nat 0) (filter_by_name samples (vllm_name c))
  unfolding vllm_metrics
  vllm_metrics-sum c samples =
      vllm_samples-sum c no_metrics samples
      ∙ ap (λ v. sum_values v (filter_by_name samples (vllm_name c))) (get-no_metrics c)
