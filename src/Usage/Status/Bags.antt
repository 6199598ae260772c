-- ===== src/Usage/Status/Bags.antt =====
-- `usageReportStatusContentEqual`: the breakdowns come out of Go maps, so their order means nothing.
use Prim.Native.Char.{Char}
use mathlib.Core.List.{Perm}
use mathlib.Core.List.Perm
use mathlib.Core.Path.{ap₂, subst}
use infercost.Base.{
  ℕ, ◌≡◌, ◌↔◌, ◌∙◌, sym, ap, refl, some, true, String, List, [], ◌∷◌, All, cat, map,
}
use infercost.Base.Cut.{lacks, text_before, text_after, text_before-cat, text_after-cat}
use infercost.Focus.Row.{ModelCostBreakdown}
use infercost.Focus.Export.Sorted.{sorted_texts_iff}
use infercost.Usage.Breakdown.{NamespaceCostBreakdown}
use infercost.Usage.Status.{
  ComputedStatus, model_text, namespace_text, usage_report_status_content_equal,
}
use infercost.Usage.Status.Skipped.{content_equal_of_work, work_of_content_equal}

abbrev slash : Char
slash = "/"

abbrev colon : Char
colon = ":"

abbrev plus : Char
plus = "+"

-- a name that the cluster admits for a namespace or as a label's value
abbrev pub IsName : String → Type 0
IsName s = (lacks slash s ≡ true) × (lacks colon s ≡ true)

-- the decimal texts of numbers have no punctuation and are read back
pub record IsDecimal (format_int : ℕ → String) : Type 0 where
  pub read_int : String → ℕ
  pub read-format : (n : ℕ) → read_int (format_int n) ≡ n
  pub lacks-plus : (n : ℕ) → lacks plus (format_int n) ≡ true

-- what an entry says but for its costs: the namespace, the model and the tokens in and out
abbrev pub ModelTokens : Type 0
ModelTokens = String × String × (ℕ × ℕ)

abbrev pub NamespaceTokens : Type 0
NamespaceTokens = String × ℕ

module _ {F : Type 0} where
  abbrev pub tokens_of_model : ModelCostBreakdown F → ModelTokens
  tokens_of_model m = (m.namespace, m.model, (m.input_tokens, m.output_tokens))

  abbrev pub tokens_of_namespace : NamespaceCostBreakdown F → NamespaceTokens
  tokens_of_namespace n = (n.namespace, n.token_count)

  -- the names in a view are admitted
  abbrev pub HasNames : ComputedStatus F → Type 0
  HasNames a =
      All (λ m. IsName m.namespace × IsName m.model) a.by_model
      × All (λ n. IsName n.namespace) a.by_namespace

  -- one period, the same tokens, and the same entries of each breakdown but for their costs, as
  -- often, in any order
  abbrev pub IsSameContent : ComputedStatus F → ComputedStatus F → Type 0
  IsSameContent a b =
      (a.period ≡ b.period)
      × (a.input_tokens ≡ b.input_tokens)
      × (a.output_tokens ≡ b.output_tokens)
      × Perm (map tokens_of_model a.by_model) (map tokens_of_model b.by_model)
      × Perm (map tokens_of_namespace a.by_namespace) (map tokens_of_namespace b.by_namespace)

perm_between : {A : Type 0} {ws xs ys zs : List A} → ws ≡ ys → xs ≡ zs → Perm ws xs → Perm ys zs
perm_between {A} {ws} {xs} {ys} {zs} e g p =
    subst (λ (l : List A). Perm ys l) g (subst (λ (l : List A). Perm l xs) e p)

module _ (format_int : ℕ → String) where
  model_text_of : ModelTokens → String
  model_text_of (ns, m, (i, o)) =
      cat ns (cat "/" (cat m (cat ":" (cat (format_int i) (cat "+" (format_int o))))))

  namespace_text_of : NamespaceTokens → String
  namespace_text_of (ns, n) = cat ns (cat ":" (format_int n))

  module _ (decimal : IsDecimal format_int) where
    open decimal use {read_int, read-format, lacks-plus}

    read_counts : String → ℕ × ℕ
    read_counts s = (read_int (text_before plus s), read_int (text_after plus s))

    read_model : String → ModelTokens
    read_model s =
        let rest = text_after slash s in
        (text_before slash s, text_before colon rest, read_counts (text_after colon rest))

    read_namespace : String → NamespaceTokens
    read_namespace s = (text_before colon s, read_int (text_after colon s))

    read_counts-text :
        (i o : ℕ) → read_counts (cat (format_int i) (cat "+" (format_int o))) ≡ (i, o)
    unfolding read_counts
    read_counts-text i o =
        ap₂ (λ (x y : ℕ). (x, y))
          (ap read_int (text_before-cat plus (format_int i) (format_int o) (lacks-plus i))
            ∙ read-format i)
          (ap read_int (text_after-cat plus (format_int i) (format_int o) (lacks-plus i))
            ∙ read-format o)

    read_model-text :
        (ns m : String) (i o : ℕ)
        → lacks slash ns ≡ true
        → lacks colon m ≡ true
        → read_model (model_text_of (ns, m, (i, o))) ≡ (ns, m, (i, o))
    unfolding read_model model_text_of
    read_model-text ns m i o h k =
        let counts = cat (format_int i) (cat "+" (format_int o)) in
        let rest = cat m (cat ":" counts) in
        let cut = text_after-cat slash ns rest h in
        ap₂
          (λ (x y : String). (
            x,
            y,
            read_counts (text_after colon (text_after slash (model_text_of (ns, m, (i, o))))),
          ))
          (text_before-cat slash ns rest h)
          (ap (text_before colon) cut ∙ text_before-cat colon m counts k)
        ∙ ap (λ (c : ℕ × ℕ). (ns, m, c))
            (ap (λ s. read_counts (text_after colon s)) cut
              ∙ ap read_counts (text_after-cat colon m counts k)
              ∙ read_counts-text i o)

    read_namespace-text :
        (ns : String) (n : ℕ)
        → lacks colon ns ≡ true
        → read_namespace (namespace_text_of (ns, n)) ≡ (ns, n)
    unfolding read_namespace namespace_text_of
    read_namespace-text ns n h =
        ap₂ (λ (x : String) (y : ℕ). (x, y)) (text_before-cat colon ns (format_int n) h)
          (ap read_int (text_after-cat colon ns (format_int n) h) ∙ read-format n)

  module _ {F : Type 0} where
    model_texts :
        (ms : List (ModelCostBreakdown F))
        → map (model_text format_int) ms ≡ map model_text_of (map tokens_of_model ms)
    unfolding model_text_of
    model_texts [] = refl
    model_texts (m ∷ ms) = ap (◌∷◌ (model_text format_int m)) (model_texts ms)

    namespace_texts :
        (ns : List (NamespaceCostBreakdown F))
        → map (namespace_text format_int) ns ≡ map namespace_text_of (map tokens_of_namespace ns)
    unfolding namespace_text_of
    namespace_texts [] = refl
    namespace_texts (n ∷ ns) = ap (◌∷◌ (namespace_text format_int n)) (namespace_texts ns)

    module _ (decimal : IsDecimal format_int) where
      read_models :
          (ms : List (ModelCostBreakdown F))
          → All (λ m. IsName m.namespace × IsName m.model) ms
          → map (read_model decimal) (map (model_text format_int) ms) ≡ map tokens_of_model ms
      unfolding model_text_of
      read_models [] h = refl
      read_models (m ∷ ms) (((s, _), (_, c)), hs) =
          ap₂ ◌∷◌ (read_model-text decimal m.namespace m.model m.input_tokens m.output_tokens s c)
            (read_models ms hs)

      read_namespaces :
          (ns : List (NamespaceCostBreakdown F))
          → All (λ n. IsName n.namespace) ns
          → map (read_namespace decimal) (map (namespace_text format_int) ns)
            ≡ map tokens_of_namespace ns
      unfolding namespace_text_of
      read_namespaces [] h = refl
      read_namespaces (n ∷ ns) ((_, c), hs) =
          ap₂ ◌∷◌ (read_namespace-text decimal n.namespace n.token_count c) (read_namespaces ns hs)

      -- The comparison of two computed views answers `true` just where they have one period and the same
      -- input and output tokens, and their breakdowns have the same entries as often, in whatever order
      -- the maps of the controller gave them: an entry by model counts by its namespace, its model and
      -- its input and output tokens, one by namespace by its namespace and its tokens, and costs do not count.
      -- The names have no slash and no colon, as the cluster ensures, and decimal texts are read back.
      pub usage_report_status_content_equal-iff_IsSameContent :
          (a b : ComputedStatus F)
          → HasNames a
          → HasNames b
          → (usage_report_status_content_equal format_int a b ≡ some true) ↔ IsSameContent a b
      usage_report_status_content_equal-iff_IsSameContent a b (am, an) (bm, bn) = (
        λ h.
            let (p, i, o, m, n) = work_of_content_equal format_int a b h in
            (
              p,
              i,
              o,
              perm_between (read_models a.by_model am) (read_models b.by_model bm)
                  (Perm.map (read_model decimal) ((sorted_texts_iff _ _).0 m)),
              perm_between (read_namespaces a.by_namespace an) (read_namespaces b.by_namespace bn)
                  (Perm.map (read_namespace decimal) ((sorted_texts_iff _ _).0 n)),
            ),
        λ (p, i, o, m, n). content_equal_of_work format_int a b (
          p,
          i,
          o,
          (sorted_texts_iff _ _).1 (
              perm_between (sym (model_texts a.by_model)) (sym (model_texts b.by_model))
                (Perm.map model_text_of m)),
          (sorted_texts_iff _ _).1 (
              perm_between (sym (namespace_texts a.by_namespace))
                (sym (namespace_texts b.by_namespace)) (Perm.map namespace_text_of n)),
        ),
      )
