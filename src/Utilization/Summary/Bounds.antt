-- ===== src/Utilization/Summary/Bounds.antt =====
-- No window has more active hours than observed hours.
use infercost.Base.{ℕ, ◌-◌, List, [], ◌∷◌, arith, ltb, Bool-cases, inl, inr}
use infercost.Float.{Float64, IsOrdered, ◌≼◌}
use infercost.Utilization.Sample.{Sample, seconds}
use infercost.Utilization.Summary.{
  WindowSummary, next_at, interval_start, interval_end, empty_summary, interval_hours, credit,
  summarize_sample, summarize_from, summarize,
}

module _ {F : Type 0} ⦃f : Float64 F⦄ (laws : IsOrdered F) where
  open laws use {le_trans, of_nat_mono, le-add, add_mono, div_nat_nonneg}

  add_nonneg : (a b : F) → f.of_nat 0 ≼ a → f.of_nat 0 ≼ b → f.of_nat 0 ≼ f.add a b
  add_nonneg a b h k = le_trans _ _ _ h (le-add a b h k)

  interval_hours_nonneg : (ns : ℕ) → f.of_nat 0 ≼ interval_hours ns
  unfolding seconds
  interval_hours_nonneg ns =
      div_nat_nonneg _ _
        (add_nonneg _ _ (of_nat_mono _ _ (omega arith))
          (div_nat_nonneg _ _ (of_nat_mono _ _ (omega arith)) (omega arith) (omega arith)))
        (omega arith) (omega arith)

  interval_hours_refl : (ns : ℕ) → interval_hours {F = F} ns ≼ interval_hours {F = F} ns
  interval_hours_refl ns = (laws.le_refl_of_le _ _ (interval_hours_nonneg ns)).1

  -- 0 ≤ active ≤ total
  abbrev IsWithin : WindowSummary F → Type 0
  IsWithin w = (f.of_nat 0 ≼ w.active_hours) × (w.active_hours ≼ w.total_hours)

  credit-IsWithin :
      (s : Sample F) (ns : ℕ) (w : WindowSummary F) → IsWithin w → IsWithin (credit s ns w)
  unfolding credit
  credit-IsWithin s ns w (low, high) =
      let h = interval_hours_nonneg ns in
      let total_nonneg = le_trans _ _ _ low high in
      elim (Bool-cases (f.lt s.active_w s.power_w)) [
        | inl e ↦ rw e (add_nonneg _ _ low h, add_mono _ _ _ _ low high h (interval_hours_refl ns))
        | inr e ↦ rw e (low, le_trans _ _ _ high (le-add _ _ total_nonneg h))
      ]

  summarize_sample-IsWithin :
      (start end next : ℕ) (s : Sample F) (w : WindowSummary F)
      → IsWithin w
      → IsWithin (summarize_sample start end s next w)
  unfolding summarize_sample
  summarize_sample-IsWithin start end next s w h =
      let from = interval_start s.at start in
      let to = interval_end next end in
      elim (Bool-cases (ltb from to)) [
        | inl e ↦ rw e (credit-IsWithin s (to - from) w h)
        | inr e ↦ rw e h
      ]

  summarize_from-IsWithin :
      (start end : ℕ) (ss : List (Sample F)) (w : WindowSummary F)
      → IsWithin w
      → IsWithin (summarize_from start end ss w)
  unfolding summarize_from
  summarize_from-IsWithin start end [] w h = h
  summarize_from-IsWithin start end (s ∷ ss) w h =
      let next = next_at ss end in
      summarize_from-IsWithin start end ss (summarize_sample start end s next w)
        (summarize_sample-IsWithin start end next s w h)

  -- In every window, of any samples in any order, the active hours are not negative and not more
  -- than the observed hours.
  pub summarize-active-le-total :
      (samples : List (Sample F)) (start end : ℕ)
      → let w = summarize samples start end in
        (f.of_nat 0 ≼ w.active_hours) × (w.active_hours ≼ w.total_hours)
  unfolding summarize
  summarize-active-le-total samples start end =
      summarize_from-IsWithin start end samples empty_summary
        (of_nat_mono 0 0 (omega arith), of_nat_mono 0 0 (omega arith))
