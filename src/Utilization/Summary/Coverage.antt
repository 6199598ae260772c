-- ===== src/Utilization/Summary/Coverage.antt =====
-- What part of the window `Summarize` credits.
use infercost.Base.{
  ℕ, ◌+◌, ◌-◌, ◌≡◌, ◌≤◌, refl, List, [], ◌∷◌, arith, ltb, if◌then◌else◌, Bool-cases, inl, inr,
  ltb→lt, ltb→le, lt→ltb, le→ltb, ap, ◌∙◌,
}
use Prim.Native.Nat.{min, max}
use infercost.Float.{Float64}
use infercost.Utilization.Sample.{Sample, IsChronological}
use infercost.Utilization.Summary.{
  WindowSummary, next_at, interval_start, interval_end, empty_summary, interval_hours, credit,
  summarize_sample, summarize_from, summarize,
}

module _ {F : Type 0} where
  -- The overlap of each sample's interval with the window, in nanoseconds.
  abbrev pub overlaps : ℕ → ℕ → List (Sample F) → List ℕ
  overlaps start end [] = []
  overlaps start end (s ∷ ss) = (min (next_at ss end) end - max s.at start) ∷ overlaps start end ss

  -- the start of what was observed
  abbrev pub observed_from : ℕ → List (Sample F) → ℕ
  observed_from end [] = end
  observed_from end (s ∷ ss) = s.at

abbrev pub sum : List ℕ → ℕ
sum [] = 0
sum (x ∷ xs) = x + sum xs

module _ {F : Type 0} ⦃f : Float64 F⦄ where
  abbrev pub sum_hours : F → List ℕ → F
  sum_hours acc [] = acc
  sum_hours acc (x ∷ xs) = sum_hours (if ltb 0 x then f.add acc (interval_hours x) else acc) xs

module _ {F : Type 0} where
  sum-overlaps :
      (start end : ℕ) (ss : List (Sample F))
      → IsChronological ss
      → sum (overlaps start end ss) ≡ end - max (observed_from end ss) start
  sum-overlaps start end [] c = omega arith
  sum-overlaps start end (s ∷ []) c = omega arith
  sum-overlaps start end (s ∷ t ∷ ss) c =
      let first : s.at ≤ t.at = c.0.0 in omega (arith, sum-overlaps start end (t ∷ ss) c.1)

module _ {F : Type 0} ⦃f : Float64 F⦄ where
  summarize_sample-total :
      (start end next : ℕ) (s : Sample F) (w : WindowSummary F)
      → let x = min next end - max s.at start in
        (summarize_sample start end s next w).total_hours
        ≡ (if ltb 0 x then f.add w.total_hours (interval_hours x) else w.total_hours)
  unfolding summarize_sample credit
  summarize_sample-total start end next s w =
      let from = interval_start s.at start in
      let to = interval_end next end in
      let same : min next end - max s.at start ≡ to - from = ground arith in
      rw same (elim (Bool-cases (ltb from to)) [
        | inl e ↦ rw (e, lt→ltb 0 (to - from) (omega (arith, ltb→lt from to e))) refl
        | inr e ↦ rw (e, le→ltb 0 (to - from) (omega (arith, ltb→le from to e))) refl
      ])

  summarize_from-total :
      (start end : ℕ) (ss : List (Sample F)) (w : WindowSummary F)
      → (summarize_from start end ss w).total_hours
        ≡ sum_hours w.total_hours (overlaps start end ss)
  unfolding summarize_from
  summarize_from-total start end [] w = refl
  summarize_from-total start end (s ∷ ss) w =
      let next = next_at ss end in
      summarize_from-total start end ss (summarize_sample start end s next w)
      ∙ ap (λ t. sum_hours t (overlaps start end ss)) (summarize_sample-total start end next s w)

  -- The observed hours are summed over the overlaps of the samples' intervals with the window, each
  -- interval running to the next sample or to the end. On a chronological history these overlaps
  -- are together exactly the time from the first sample, or from the start if that is later, to the
  -- end: no gap and no time counted twice.
  pub summarize-coverage :
      (samples : List (Sample F)) (start end : ℕ)
      → IsChronological samples
      → ((summarize samples start end).total_hours
          ≡ sum_hours (f.of_nat 0) (overlaps start end samples))
        × (sum (overlaps start end samples) ≡ end - max (observed_from end samples) start)
  unfolding summarize
  summarize-coverage samples start end c =
      (summarize_from-total start end samples empty_summary, sum-overlaps start end samples c)
