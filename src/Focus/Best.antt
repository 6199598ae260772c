-- ===== src/Focus/Best.antt =====
-- internal/focus/focus.go: `bestCloudComparison`.
use infercost.Base.{
  Bool, ◌≡◌, refl, sym, ap, Option, none, some, List, [], ◌∷◌, if◌then◌else◌, All, Bool-cases, inl,
  inr, ◌⊎◌,
}
use mathlib.Core.Path.{subst}
use infercost.Float.{Float64, IsOrdered, ◌≼◌}
use infercost.Focus.Row.{CloudComparisonEntry}

module _ {F : Type 0} ⦃f : Float64 F⦄ where
  best_from : CloudComparisonEntry F → List (CloudComparisonEntry F) → CloudComparisonEntry F
  best_from best [] = best
  best_from best (e ∷ es) = best_from (if f.lt best.savings_usd e.savings_usd then e else best) es

  unfoldable pub best_cloud_comparison :
      List (CloudComparisonEntry F) → Option (CloudComparisonEntry F)
  unfolding best_from
  best_cloud_comparison [] = none
  best_cloud_comparison (e ∷ es) = some (best_from e es)

  -- savings that are a number
  abbrev pub HasNumber : CloudComparisonEntry F → Type 0
  HasNumber e = e.savings_usd ≼ e.savings_usd

  abbrev pub IsAtLeast : CloudComparisonEntry F → CloudComparisonEntry F → Type 0
  IsAtLeast best e = e.savings_usd ≼ best.savings_usd

  -- one of the entries
  abbrev pub IsOneOf : CloudComparisonEntry F → List (CloudComparisonEntry F) → Type 0
  IsOneOf b [] = ⊥
  IsOneOf b (e ∷ es) = (b ≡ e) ⊎ IsOneOf b es

  -- `none` for no entries, and otherwise an entry that none exceeds
  abbrev pub IsBest : List (CloudComparisonEntry F) → Option (CloudComparisonEntry F) → Type 0
  IsBest es none = es ≡ []
  IsBest es (some b) = IsOneOf b es × All (IsAtLeast b) es

  keep_place :
      (best e : CloudComparisonEntry F) (es : List (CloudComparisonEntry F))
      (b : CloudComparisonEntry F)
      → IsOneOf b (best ∷ es)
      → IsOneOf b (best ∷ e ∷ es)
  keep_place best e es b (inl x) = inl x
  keep_place best e es b (inr x) = inr (inr x)

  module _ (laws : IsOrdered F) where
    open laws use {le_trans, le_of_lt, le_of_not_lt}

    best_from-best :
        (best : CloudComparisonEntry F) (es : List (CloudComparisonEntry F))
        → HasNumber best
        → All HasNumber es
        → IsOneOf (best_from best es) (best ∷ es) × All (IsAtLeast (best_from best es)) (best ∷ es)
    unfolding best_from
    best_from-best best [] h _ = (inl refl, (h, tt))
    best_from-best best (e ∷ es) h (k, ks) =
        let P : CloudComparisonEntry F → Type 0 =
          λ b. IsOneOf b (best ∷ e ∷ es) × All (IsAtLeast b) (best ∷ e ∷ es) in
        let turn = λ (x : Bool). best_from (if x then e else best) es in
        elim (Bool-cases (f.lt best.savings_usd e.savings_usd)) [
          | inl more ↦
              let (one, least) = best_from-best e es k ks in
              subst P (sym (ap turn more))
                (inr one, (le_trans _ _ _ (le_of_lt _ _ more) least.0, least))
          | inr less ↦
              let (one, least) = best_from-best best es h ks in
              subst P (sym (ap turn less)) (
                keep_place best e es (best_from best es) one,
                (least.0, (le_trans _ _ _ (le_of_not_lt _ _ h k less) least.0, least.1)),
              )
        ]

    -- Where all savings are numbers, the comparison that the export attributes to its rows is one of
    -- the report's entries and no entry saves more; there is none only where the report has none.
    pub best_cloud_comparison-IsBest :
        (es : List (CloudComparisonEntry F))
        → All HasNumber es
        → IsBest es (best_cloud_comparison es)
    unfolding best_cloud_comparison
    best_cloud_comparison-IsBest [] h = refl
    best_cloud_comparison-IsBest (e ∷ es) (h, hs) = best_from-best e es h hs
