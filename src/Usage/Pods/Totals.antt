-- ===== src/Usage/Pods/Totals.antt =====
-- The counts by model and by namespace add up to the same totals.
use infercost.Base.{
  ℕ, ◌≡◌, refl, sym, ap, ◌∙◌, Bool, String, List, [], ◌∷◌, str_eq, add_int64, add_int64_assoc,
  Bool-cases, inl, inr, Result, ok, err, arith,
}
use mathlib.Core.Path.{ap₂}
use mathlib.Core.List.{Perm, Permᴰ}
use mathlib.Core.Logic.{∥∥₁_elim}
use infercost.Float.{Float64}
use infercost.Scraper.Dispatch.{Fetch}
use infercost.Usage.Pods.{
  Pod, TokenCounts, Tokens, add_counts, add_pod, same_model_key, scraped, add_scraped, scrape_pods,
  scrape_tokens,
}

-- input or output
pub data Side : Type 0 where
  input_side output_side : Side

abbrev pub count_of : Side → TokenCounts → ℕ
count_of input_side t = t.input
count_of output_side t = t.output

-- `total += t.input` or `t.output`, over the entries of a map
abbrev pub total : {K : Type 0} → Side → ℕ → List (K × TokenCounts) → ℕ
total side acc [] = acc
total side acc ((k, t) ∷ m) = total side (add_int64 acc (count_of side t)) m

abbrev sum_counts : TokenCounts → TokenCounts → TokenCounts
sum_counts u t = record { input = add_int64 u.input t.input; output = add_int64 u.output t.output }

count_of-sum :
    (side : Side) (u t : TokenCounts)
    → count_of side (sum_counts u t) ≡ add_int64 (count_of side u) (count_of side t)
count_of-sum input_side u t = refl
count_of-sum output_side u t = refl

first_count :
    (side : Side) (t : TokenCounts)
    → count_of side (record { input = add_int64 0 t.input; output = add_int64 0 t.output })
      ≡ add_int64 0 (count_of side t)
first_count input_side t = refl
first_count output_side t = refl

swap_add : (a b c : ℕ) → add_int64 (add_int64 a b) c ≡ add_int64 (add_int64 a c) b
unfolding add_int64
swap_add a b c = omega arith

add_zero : (a b : ℕ) → add_int64 a (add_int64 0 b) ≡ add_int64 a b
unfolding add_int64
add_zero a b = omega arith

module _ {K : Type 0} (side : Side) where
  total-add :
      (acc n : ℕ) (m : List (K × TokenCounts))
      → total side (add_int64 acc n) m ≡ add_int64 (total side acc m) n
  total-add acc n [] = refl
  total-add acc n ((k, t) ∷ m) =
      ap (λ a. total side a m) (swap_add acc n (count_of side t))
      ∙ total-add (add_int64 acc (count_of side t)) n m

  total-add_counts :
      (same : K → K → Bool) (acc : ℕ) (k : K) (t : TokenCounts) (m : List (K × TokenCounts))
      → total side acc (add_counts same k t m) ≡ add_int64 (total side acc m) (count_of side t)
  unfolding add_counts
  total-add_counts same acc k t [] =
      ap (add_int64 acc) (first_count side t) ∙ add_zero acc (count_of side t)
  total-add_counts same acc k t ((j, u) ∷ m) = elim (Bool-cases (same j k)) [
    | inl e ↦ rw e (
        ap (λ a. total side a m)
          (ap (add_int64 acc) (count_of-sum side u t)
            ∙ sym (add_int64_assoc acc (count_of side u) (count_of side t)))
        ∙ total-add (add_int64 acc (count_of side u)) (count_of side t) m)
    | inr e ↦ rw e (total-add_counts same (add_int64 acc (count_of side u)) k t m)
  ]

  total-permᴰ :
      {m n : List (K × TokenCounts)} → Permᴰ m n → (acc : ℕ) → total side acc m ≡ total side acc n
  total-permᴰ Permᴰ.nil acc = refl
  total-permᴰ (Permᴰ.cons {a = a} {b = b} {l₁ = l} {l₂ = k} e p) acc =
      ap (λ (x : K × TokenCounts). total side (add_int64 acc (count_of side x.1)) l) e
      ∙ total-permᴰ p (add_int64 acc (count_of side b.1))
  total-permᴰ (Permᴰ.swap {a = a} {b = b} {l = l} e g) acc =
      ap (λ n. total side n l) (swap_add acc (count_of side a.1) (count_of side b.1))
      ∙ ap₂
          (λ (x y : K × TokenCounts).
            total side (add_int64 (add_int64 acc (count_of side x.1)) (count_of side y.1)) l)
          g e
  total-permᴰ (Permᴰ.trans p q) acc = total-permᴰ p acc ∙ total-permᴰ q acc

  -- the order of the entries does not matter
  pub total-perm :
      (acc : ℕ) {m n : List (K × TokenCounts)} → Perm m n → total side acc m ≡ total side acc n
  total-perm acc p = ∥∥₁_elim p (hlevel) (λ q. total-permᴰ q acc)

-- a skipped pod counts nothing
abbrev pub add_result : Side → ℕ → Result (Unit {0}) TokenCounts → ℕ
add_result side acc (ok t) = add_int64 acc (count_of side t)
add_result side acc (err e) = acc

module _ (format_int : ℕ → String) {F : Type 0} ⦃f : Float64 F⦄ (fetch : Fetch F) where
  -- the counts of the pods that were scraped
  abbrev pub scraped_total : Side → List String → ℕ → List Pod → ℕ
  scraped_total side filter acc [] = acc
  scraped_total side filter acc (pod ∷ pods) =
      scraped_total side filter (add_result side acc (scraped format_int fetch pod filter)) pods

  -- both maps hold what the scraped pods sum up to
  abbrev pub HasTotal : Side → ℕ → Tokens → Type 0
  HasTotal side n tokens =
      (total side 0 tokens.by_model ≡ n) × (total side 0 tokens.by_namespace ≡ n)

  add_pod-HasTotal :
      (side : Side) (n : ℕ) (pod : Pod) (t : TokenCounts) (tokens : Tokens)
      → HasTotal side n tokens
      → HasTotal side (add_int64 n (count_of side t)) (add_pod pod t tokens)
  unfolding add_pod
  add_pod-HasTotal side n pod t tokens (m, ns) = (
    total-add_counts side same_model_key 0 _ t tokens.by_model
        ∙ ap (λ k. add_int64 k (count_of side t)) m,
    total-add_counts side str_eq 0 pod.namespace t tokens.by_namespace
        ∙ ap (λ k. add_int64 k (count_of side t)) ns,
  )

  add_scraped-HasTotal :
      (side : Side) (n : ℕ) (pod : Pod) (r : Result (Unit {0}) TokenCounts) (tokens : Tokens)
      → HasTotal side n tokens
      → HasTotal side (add_result side n r) (add_scraped format_int fetch pod r tokens)
  add_scraped-HasTotal side n pod (ok t) tokens h = add_pod-HasTotal side n pod t tokens h
  add_scraped-HasTotal side n pod (err e) tokens h = h

  scrape_pods-HasTotal :
      (side : Side) (filter : List String) (pods : List Pod) (n : ℕ) (tokens : Tokens)
      → HasTotal side n tokens
      → HasTotal side
          (scraped_total side filter n pods)
          (scrape_pods format_int fetch filter pods tokens)
  unfolding scrape_pods
  scrape_pods-HasTotal side filter [] n tokens h = h
  scrape_pods-HasTotal side filter (pod ∷ pods) n tokens h =
      let r = scraped format_int fetch pod filter in
      scrape_pods-HasTotal side filter pods (add_result side n r)
        (add_scraped format_int fetch pod r tokens) (add_scraped-HasTotal side n pod r tokens h)

  -- The counts by model and the counts by namespace both add up to the counts of the pods that were
  -- scraped, input and output alike, with the wrap-around of `int64`.
  pub scrape_tokens-totals :
      (side : Side) (filter : List String) (pods : List Pod)
      → let tokens = scrape_tokens format_int fetch filter pods in
        (total side 0 tokens.by_model ≡ scraped_total side filter 0 pods)
        × (total side 0 tokens.by_namespace ≡ scraped_total side filter 0 pods)
  unfolding scrape_tokens
  scrape_tokens-totals side filter pods =
      scrape_pods-HasTotal side filter pods 0 (record { by_model = []; by_namespace = [] })
        (refl, refl)
