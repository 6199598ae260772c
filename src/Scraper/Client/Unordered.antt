-- ===== src/Scraper/Client/Unordered.antt =====
-- The two backend parsers on what the client returns: Go visits the families in no fixed order.
use mathlib.Core.Path.{ap₂}
use mathlib.Core.Bool.{false≢true}
use mathlib.Core.List.{Permᴰ, Pairwise, mem-cons_self}
use mathlib.Core.List.Permᴰ
use infercost.Base.{
  ℕ, ◌≡◌, refl, sym, ap, ◌∙◌, true, false, Option, none, some, String, List, [], ◌∷◌, ◌++◌, str_eq,
  str_eq_iff, str_ne_symm, keep-append, Bool-cases, inl, inr, Result, ok, err, ◌>>=◌, map_err, cat,
  not, ◌==◌,
}
use infercost.Float.{Float64}
use infercost.Scraper.Metrics.{MetricSample, filter_by_name, llama_metrics, vllm_metrics}
use infercost.Scraper.Metrics.Counters.{
  metrics_path, llama_name, vllm_name, last_value, sum_values, llama_metrics-last, vllm_metrics-sum,
}
use infercost.Scraper.Dispatch.{Fetch, scrape}
use infercost.Scraper.Backend.{Backend}
use infercost.Scraper.Client.{
  HttpResponse, http_ok, client_scrape, check_response, parse_metrics, MetricType, Metric,
  MetricFamily, metric_value, cons_sample, family_samples, samples_of_families,
}

other_name : (a b n : String) → str_eq a b ≡ false → str_eq a n ≡ true → str_eq b n ≡ false
other_name a b n h e = elim (Bool-cases (str_eq b n)) [
  | inl g ↦
      let same = (str_eq_iff a n).0 e ∙ sym ((str_eq_iff b n).0 g) in
      absurd (false≢true (sym h ∙ (str_eq_iff a b).1 same))
  | inr g ↦ g
]

module _ {F : Type 0} where
  abbrev pub HasOtherFamily : MetricFamily F → MetricFamily F → Type 0
  HasOtherFamily a b = str_eq a.name b.name ≡ false

  HasOtherFamily-symm : (a b : MetricFamily F) → HasOtherFamily a b → HasOtherFamily b a
  HasOtherFamily-symm a b = str_ne_symm a.name b.name

  abbrev samples_of : MetricFamily F → List (MetricSample F)
  samples_of fam = family_samples fam.name fam.type fam.metrics

  filter-append :
      (xs ys : List (MetricSample F)) (n : String)
      → filter_by_name (xs ++ ys) n ≡ filter_by_name xs n ++ filter_by_name ys n
  unfolding filter_by_name
  filter-append xs ys n = keep-append (λ (s : MetricSample F). str_eq s.name n) xs ys

  filter_cons :
      (name n : String) (m : Metric F) (v : Option F) (rest : List (MetricSample F))
      → str_eq name n ≡ false
      → filter_by_name (cons_sample name m v rest) n ≡ filter_by_name rest n
  unfolding filter_by_name cons_sample
  filter_cons name n m none rest h = refl
  filter_cons name n m (some v) rest h = rw h refl

  filter_other :
      (name n : String) (type : MetricType) (ms : List (Metric F))
      → str_eq name n ≡ false
      → filter_by_name (family_samples name type ms) n ≡ []
  unfolding filter_by_name family_samples
  filter_other name n type [] h = refl
  filter_other name n type (m ∷ ms) h =
      filter_cons name n m (metric_value type m) (family_samples name type ms) h
      ∙ filter_other name n type ms h

  -- the samples of one name in two neighbouring families
  swap_samples :
      (n : String) (a b : MetricFamily F) (rest : List (MetricSample F))
      → HasOtherFamily a b
      → filter_by_name (samples_of a ++ (samples_of b ++ rest)) n
        ≡ filter_by_name (samples_of b ++ (samples_of a ++ rest)) n
  swap_samples n a b rest h = elim (Bool-cases (str_eq a.name n)) [
    | inl e ↦
        let other = other_name a.name b.name n h e in
        simp (filter-append, filter_other b.name n b.type b.metrics other)
    | inr e ↦ simp (filter-append, filter_other a.name n a.type a.metrics e)
  ]

  filter-unordered :
      (n : String) {fs gs : List (MetricFamily F)}
      → Permᴰ fs gs
      → Pairwise HasOtherFamily fs
      → filter_by_name (samples_of_families fs) n ≡ filter_by_name (samples_of_families gs) n
  unfolding samples_of_families
  filter-unordered n Permᴰ.nil h = refl
  filter-unordered n (Permᴰ.cons {a = a} {b = b} {l₁ = fs} {l₂ = gs} e p) (Pairwise.cons h hs) =
      filter-append (samples_of a) (samples_of_families fs) n
      ∙ ap₂
          (λ (u : MetricFamily F) (v : List (MetricSample F)). filter_by_name (samples_of u) n ++ v)
          e (filter-unordered n p hs)
      ∙ sym (filter-append (samples_of b) (samples_of_families gs) n)
  filter-unordered n (Permᴰ.swap {a = a} {b = b} {l = l} e g) (Pairwise.cons h hs) =
      swap_samples n a b (samples_of_families l) (h b mem-cons_self)
      ∙ ap₂
          (λ (u v : MetricFamily F).
            filter_by_name (samples_of u ++ (samples_of v ++ samples_of_families l)) n)
          g e
  filter-unordered n (Permᴰ.trans p q) h =
      filter-unordered n p h
      ∙ filter-unordered n q (Permᴰ.pairwise (hlevel) HasOtherFamily-symm p h)

module _ {F : Type 0} ⦃f : Float64 F⦄ {fs gs : List (MetricFamily F)} (p : Permᴰ fs gs)
    (apart : Pairwise HasOtherFamily fs) where
  llama_metrics-unordered :
      llama_metrics (samples_of_families fs) ≡ llama_metrics (samples_of_families gs)
  llama_metrics-unordered = metrics_path _ _ λ c.
      llama_metrics-last c (samples_of_families fs)
      ∙ ap (last_value (f.of_nat 0)) (filter-unordered (llama_name c) p apart)
      ∙ sym (llama_metrics-last c (samples_of_families gs))

  vllm_metrics-unordered :
      vllm_metrics (samples_of_families fs) ≡ vllm_metrics (samples_of_families gs)
  vllm_metrics-unordered = metrics_path _ _ λ c.
      vllm_metrics-sum c (samples_of_families fs)
      ∙ ap (sum_values (f.of_nat 0)) (filter-unordered (vllm_name c) p apart)
      ∙ sym (vllm_metrics-sum c (samples_of_families gs))

-- the same error, or the same families in another order, no two of them with one name
abbrev pub IsReordering :
    {F : Type 0}
    → Result String (List (MetricFamily F))
    → Result String (List (MetricFamily F))
    → Type 0
IsReordering (ok fs) (ok gs) = Permᴰ fs gs × Pairwise HasOtherFamily fs
IsReordering (err d) (err e) = d ≡ e
IsReordering _ _ = ⊥

module _ {F : Type 0} ⦃f : Float64 F⦄ {Body Request : Type 0}
    (new_request : String → Result String Request)
    (send : Request → Result String (HttpResponse Body)) (format_int : ℕ → String) where
  -- the same error, or samples that the parsers do not tell apart
  Agree : Result String (List (MetricSample F)) → Result String (List (MetricSample F)) → Type 0
  Agree (ok xs) (ok ys) =
      (llama_metrics xs ≡ llama_metrics ys) × (vllm_metrics xs ≡ vllm_metrics ys)
  Agree (err d) (err e) = d ≡ e
  Agree _ _ = ⊥

  scrape-Agree :
      (fetch other : Fetch F) (backend : Backend) (url : String)
      (r s : Result String (List (MetricSample F)))
      → fetch url ≡ r
      → other url ≡ s
      → Agree r s
      → scrape fetch backend url ≡ scrape other backend url
  unfolding scrape Agree
  scrape-Agree fetch other backend url (ok xs) (ok ys) h k (l, v) = rw (h, k, l, v) refl
  scrape-Agree fetch other backend url (err d) (err e) h k a = rw (h, k, a) refl
  scrape-Agree fetch other backend url (ok xs) (err e) h k a = elim a [ ]
  scrape-Agree fetch other backend url (err d) (ok ys) h k a = elim a [ ]

  parse-Agree :
      (parse other : Body → Result String (List (MetricFamily F))) (body : Body)
      (p q : Result String (List (MetricFamily F)))
      → parse body ≡ p
      → other body ≡ q
      → IsReordering p q
      → Agree (parse_metrics parse body) (parse_metrics other body)
  unfolding parse_metrics Agree
  parse-Agree parse other body (ok fs) (ok gs) h k (p, apart) =
      rw (h, k) (llama_metrics-unordered p apart, vllm_metrics-unordered p apart)
  parse-Agree parse other body (err d) (err e) h k a = rw (h, k, a) refl
  parse-Agree parse other body (ok fs) (err e) h k a = elim a [ ]
  parse-Agree parse other body (err d) (ok gs) h k a = elim a [ ]

  bind-Agree :
      {A : Type 0} (r : Result String A) (g h : A → Result String (List (MetricSample F)))
      → ((a : A) → Agree (g a) (h a))
      → Agree (r >>= g) (r >>= h)
  unfolding Agree
  bind-Agree (ok a) g h same = same a
  bind-Agree (err e) g h same = refl

  client-Agree :
      (parse other : Body → Result String (List (MetricFamily F)))
      → ((body : Body) → IsReordering (parse body) (other body))
      → (url : String)
      → Agree
          (client_scrape parse new_request send format_int url)
          (client_scrape other new_request send format_int url)
  unfolding client_scrape check_response Agree
  client-Agree parse other same url =
      bind-Agree (map_err (cat "creating request: ") (new_request url)) _ _ λ req.
        bind-Agree (map_err (λ e. cat "scraping " (cat url (cat ": " e))) (send req)) _ _ λ resp.
          elim (Bool-cases (not (resp.status_code == http_ok))) [
            | inl e ↦ rw e refl
            | inr e ↦ rw e (parse-Agree parse other resp.body _ _ refl refl (same resp.body))
          ]

  -- What a scrape returns, errors included, does not depend on the order in which the loop visits the
  -- metric families of the answer, where no two families of one answer have one name.
  pub scrape-unordered :
      (parse other : Body → Result String (List (MetricFamily F)))
      → ((body : Body) → IsReordering (parse body) (other body))
      → (backend : Backend) (url : String)
      → scrape (client_scrape parse new_request send format_int) backend url
        ≡ scrape (client_scrape other new_request send format_int) backend url
  scrape-unordered parse other same backend url =
      scrape-Agree _ _ backend url _ _ refl refl (client-Agree parse other same url)
