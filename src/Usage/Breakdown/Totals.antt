-- ===== src/Usage/Breakdown/Totals.antt =====
-- The rows by model and by namespace of a report add up to its totals.
use infercost.Base.{ℕ, ◌≡◌, refl, sym, ap, ◌∙◌, String, List, [], ◌∷◌, add_int64, arith, map}
use infercost.Float.{Float64}
use infercost.Api.Store.{NamespaceCostData}
use infercost.Scraper.Dispatch.{Fetch}
use infercost.Usage.Pods.{Pod, ModelKey, TokenCounts, scrape_tokens}
use infercost.Usage.Pods.Totals.{input_side, output_side, total, scrape_tokens-totals}
use infercost.Usage.Breakdown.{
  NamespaceCostBreakdown, model_rows, namespace_rows, namespace_data, build_breakdowns,
}

-- the sum of a column of the rows, with the wrap-around of `int64`
abbrev pub column_sum : {A : Type 0} → (A → ℕ) → ℕ → List A → ℕ
column_sum f acc [] = acc
column_sum f acc (x ∷ xs) = column_sum f (add_int64 acc (f x)) xs

add_pairs :
    (a b c d : ℕ)
    → add_int64 (add_int64 a b) (add_int64 c d) ≡ add_int64 (add_int64 a c) (add_int64 b d)
unfolding add_int64
add_pairs a b c d = omega arith

zero_sum : add_int64 0 0 ≡ 0
unfolding add_int64
zero_sum = refl

-- the row that the API store holds, without the models
abbrev pub api_row : {F : Type 0} → NamespaceCostData F → NamespaceCostBreakdown F
api_row d = record {
  namespace = d.namespace;
  estimated_cost_usd = d.estimated_cost_usd;
  token_count = d.token_count;
}

module _ {F : Type 0} ⦃f : Float64 F⦄ (cost : F) (n : ℕ) where
  input_column :
      (acc : ℕ) (m : List (ModelKey × TokenCounts))
      → column_sum (λ r. r.input_tokens) acc (model_rows cost n m) ≡ total input_side acc m
  unfolding model_rows
  input_column acc [] = refl
  input_column acc ((k, t) ∷ m) = input_column (add_int64 acc t.input) m

  output_column :
      (acc : ℕ) (m : List (ModelKey × TokenCounts))
      → column_sum (λ r. r.output_tokens) acc (model_rows cost n m) ≡ total output_side acc m
  unfolding model_rows
  output_column acc [] = refl
  output_column acc ((k, t) ∷ m) = output_column (add_int64 acc t.output) m

  namespace_column :
      (a b : ℕ) (m : List (String × TokenCounts))
      → column_sum (λ r. r.token_count) (add_int64 a b) (namespace_rows cost n m)
        ≡ add_int64 (total input_side a m) (total output_side b m)
  unfolding namespace_rows
  namespace_column a b [] = refl
  namespace_column a b ((k, t) ∷ m) =
      ap (λ s. column_sum (λ r. r.token_count) s (namespace_rows cost n m))
        (add_pairs a b t.input t.output)
      ∙ namespace_column (add_int64 a t.input) (add_int64 b t.output) m

  map-namespace_data :
      (models : List (ModelKey × TokenCounts)) (m : List (String × TokenCounts))
      → map api_row (namespace_data cost n models m) ≡ namespace_rows cost n m
  unfolding namespace_data namespace_rows
  map-namespace_data models [] = refl
  map-namespace_data models ((k, t) ∷ m) = rw (map-namespace_data models m) refl

module _ (format_int : ℕ → String) {F : Type 0} ⦃f : Float64 F⦄ (fetch : Fetch F) where
  -- The rows that a report builds of the scraped tokens agree: the input and the output tokens of
  -- the rows by model add up to the report's two totals, the tokens of the rows by namespace add up
  -- to the sum of the two, and the API store is given the rows by namespace.
  pub build_breakdowns-totals :
      (filter : List String) (pods : List Pod) (total_cost : F)
      → let b = build_breakdowns (scrape_tokens format_int fetch filter pods) total_cost in
        (column_sum (λ r. r.input_tokens) 0 b.by_model ≡ b.total_in)
        × (column_sum (λ r. r.output_tokens) 0 b.by_model ≡ b.total_out)
        × (column_sum (λ r. r.token_count) 0 b.by_namespace ≡ add_int64 b.total_in b.total_out)
        × (map api_row b.ns_cost_data ≡ b.by_namespace)
  unfolding build_breakdowns
  build_breakdowns-totals filter pods cost =
      let t = scrape_tokens format_int fetch filter pods in
      let n = add_int64 (total input_side 0 t.by_model) (total output_side 0 t.by_model) in
      let (in_model, in_ns) = scrape_tokens-totals format_int fetch input_side filter pods in
      let (out_model, out_ns) = scrape_tokens-totals format_int fetch output_side filter pods in
      (
        input_column cost n 0 t.by_model,
        output_column cost n 0 t.by_model,
        ap (λ a. column_sum (λ r. r.token_count) a (namespace_rows cost n t.by_namespace))
              (sym zero_sum)
            ∙ namespace_column cost n 0 0 t.by_namespace
            ∙ ap (λ a. add_int64 a (total output_side 0 t.by_namespace)) (in_ns ∙ sym in_model)
            ∙ ap (add_int64 (total input_side 0 t.by_model)) (out_ns ∙ sym out_model),
        map-namespace_data cost n t.by_model t.by_namespace,
      )
