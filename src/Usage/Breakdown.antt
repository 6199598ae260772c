-- ===== src/Usage/Breakdown.antt =====
-- internal/controller/usagereport_controller.go: `buildBreakdowns`. The maps are the association
-- lists of `scrapeTokens`, in their order of iteration.
pub mod Totals
use infercost.Base.{ℕ, String, List, [], ◌∷◌, str_eq, if◌then◌else◌, pos_int64, add_int64}
use infercost.Float.{Float64, of_int64}
use infercost.Api.Store.{NamespaceCostData}
use infercost.Focus.Row.{ModelCostBreakdown}
use infercost.Usage.Pods.{ModelKey, TokenCounts, Tokens}
use infercost.Usage.Pods.Totals.{input_side, output_side, total}

pub record NamespaceCostBreakdown (F : Type 0) : Type 0 where
  pub namespace : String
  pub estimated_cost_usd : F
  pub token_count : ℕ

-- the five results of `buildBreakdowns`
pub record Breakdowns (F : Type 0) : Type 0 where
  pub by_model : List (ModelCostBreakdown F)
  pub by_namespace : List (NamespaceCostBreakdown F)
  pub ns_cost_data : List (NamespaceCostData F)
  pub total_in : ℕ
  pub total_out : ℕ

-- the models that have counts in a namespace
unfoldable pub models_in : String → List (ModelKey × TokenCounts) → List String
models_in ns [] = []
models_in ns ((mk, t) ∷ m) =
    let rest = models_in ns m in if str_eq mk.namespace ns then mk.model ∷ rest else rest

module _ {F : Type 0} ⦃f : Float64 F⦄ where
  -- the part of the cost that falls to so many tokens of the total
  unfoldable pub cost_share : F → ℕ → ℕ → F
  cost_share total_cost tokens total_tokens =
      if pos_int64 total_tokens
      then f.mul total_cost (f.div (of_int64 tokens) (of_int64 total_tokens))
      else f.of_nat 0

  unfoldable pub model_rows : F → ℕ → List (ModelKey × TokenCounts) → List (ModelCostBreakdown F)
  unfolding cost_share
  model_rows total_cost total_tokens [] = []
  model_rows total_cost total_tokens ((mk, t) ∷ m) =
      let model_total = add_int64 t.input t.output in
      let model_cost = cost_share total_cost model_total total_tokens in
      record {
        model = mk.model;
        namespace = mk.namespace;
        input_tokens = t.input;
        output_tokens = t.output;
        estimated_cost_usd = model_cost;
        cost_per_million_tokens =
            if pos_int64 model_total
            then f.div model_cost (f.div (of_int64 model_total) (f.of_nat 1000000))
            else f.of_nat 0;
      }
      ∷ model_rows total_cost total_tokens m

  unfoldable pub namespace_rows :
      F → ℕ → List (String × TokenCounts) → List (NamespaceCostBreakdown F)
  unfolding cost_share
  namespace_rows total_cost total_tokens [] = []
  namespace_rows total_cost total_tokens ((ns, t) ∷ m) =
      let ns_total = add_int64 t.input t.output in
      record {
        namespace = ns;
        estimated_cost_usd = cost_share total_cost ns_total total_tokens;
        token_count = ns_total;
      }
      ∷ namespace_rows total_cost total_tokens m

  unfoldable pub namespace_data :
      F
      → ℕ
      → List (ModelKey × TokenCounts)
      → List (String × TokenCounts)
      → List (NamespaceCostData F)
  unfolding cost_share models_in
  namespace_data total_cost total_tokens models [] = []
  namespace_data total_cost total_tokens models ((ns, t) ∷ m) =
      let ns_total = add_int64 t.input t.output in
      record {
        namespace = ns;
        estimated_cost_usd = cost_share total_cost ns_total total_tokens;
        token_count = ns_total;
        models = models_in ns models;
      }
      ∷ namespace_data total_cost total_tokens models m

  unfoldable pub build_breakdowns : Tokens → F → Breakdowns F
  unfolding model_rows namespace_rows namespace_data
  build_breakdowns tokens total_cost =
      let total_in = total input_side 0 tokens.by_model in
      let total_out = total output_side 0 tokens.by_model in
      let total_tokens = add_int64 total_in total_out in
      record {
        by_model = model_rows total_cost total_tokens tokens.by_model;
        by_namespace = namespace_rows total_cost total_tokens tokens.by_namespace;
        ns_cost_data = namespace_data total_cost total_tokens tokens.by_model tokens.by_namespace;
        total_in = total_in;
        total_out = total_out;
      }
