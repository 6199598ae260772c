-- ===== src/Calculator/Cost/Rates.antt =====
-- Token rates are not negative, and the capped active hours.
use infercost.Base.{
  ℕ, ◌-◌, ◌/◌, ◌%◌, ◌<◌, ◌≡◌, refl, true, arith, ltb, Bool-cases, inl, inr, ltb→lt, ltb→le,
}
use infercost.Float.{Float64, IsOrdered, ◌≼◌, ◌≺◌}
use infercost.Utilization.Sample.{hours, nanoseconds_per_hour}
use infercost.Calculator.Cost.{
  TokenSnapshot, TokenRate, counter_delta, compute_token_rate, active_hours_cost_per_million_tokens,
}

module _ {F : Type 0} ⦃f : Float64 F⦄ (laws : IsOrdered F) where
  open laws use {
    le_trans, of_nat_mono, of_nat_pos, lt_of_lt_of_le, le-add, le-add_left, div_nat_nonneg,
    div_nats_pos, finite_num, sub_finite, div_nonneg, le_of_not_lt, not_lt_of_le, le_of_lt,
  }

  -- a counter as a pod reports it
  abbrev pub IsCounter : F → Type 0
  IsCounter x = (f.of_nat 0 ≼ x) × (f.finite x ≡ true)

  counter_delta-IsCounter :
      (prev curr : F) → IsCounter prev → IsCounter curr → IsCounter (counter_delta prev curr)
  counter_delta-IsCounter prev curr (p, pf) (c, cf) =
      let delta = f.sub curr prev in
      let delta_finite = sub_finite curr prev c cf p pf in
      elim (Bool-cases (f.lt delta (f.of_nat 0))) [
        | inl reset ↦ rw reset (c, cf)
        | inr grown ↦ rw grown (
          le_of_not_lt delta (f.of_nat 0) (finite_num delta delta_finite)
              (of_nat_mono 0 0 (omega arith)) grown,
          delta_finite,
        )
      ]

  hours_pos : (d : ℕ) → 0 < d → f.of_nat 0 ≺ hours d
  unfolding hours
  hours_pos d h =
      let whole = d / nanoseconds_per_hour in
      let rest = d % nanoseconds_per_hour in
      let whole_nonneg = of_nat_mono 0 whole (omega arith) in
      let rest_nonneg =
        div_nat_nonneg (f.of_nat rest) nanoseconds_per_hour (of_nat_mono 0 rest (omega arith))
          (omega arith) (omega arith) in
      elim (Bool-cases (ltb 0 whole)) [
        | inl e ↦
            lt_of_lt_of_le _ _ _ (of_nat_pos whole (ltb→lt 0 whole e))
              (le-add _ _ whole_nonneg rest_nonneg)
        | inr e ↦
            lt_of_lt_of_le _ _ _
              (div_nats_pos rest nanoseconds_per_hour (omega (arith, ltb→le 0 whole e))
                (omega arith) (omega arith))
              (le-add_left _ _ whole_nonneg rest_nonneg)
      ]

  abbrev IsNonneg : TokenRate F → Type 0
  IsNonneg r =
      (f.of_nat 0 ≼ r.input_per_hour)
      × (f.of_nat 0 ≼ r.output_per_hour)
      × (f.of_nat 0 ≼ r.total_per_hour)

  -- From counters that are finite and not negative no rate is negative, also where a pod restarted
  -- and a counter fell between the two readings, and where no time passed between them.
  pub compute_token_rate_nonneg :
      (prev curr : TokenSnapshot F)
      → IsCounter prev.input_tokens
      → IsCounter prev.output_tokens
      → IsCounter curr.input_tokens
      → IsCounter curr.output_tokens
      → let r = compute_token_rate prev curr in
        (f.of_nat 0 ≼ r.input_per_hour)
        × (f.of_nat 0 ≼ r.output_per_hour)
        × (f.of_nat 0 ≼ r.total_per_hour)
  unfolding compute_token_rate
  compute_token_rate_nonneg prev curr pi po ci co =
      let elapsed = curr.timestamp - prev.timestamp in
      let zero_le = of_nat_mono 0 0 (omega arith) in
      let (i, i_finite) = counter_delta-IsCounter prev.input_tokens curr.input_tokens pi ci in
      let (o, o_finite) = counter_delta-IsCounter prev.output_tokens curr.output_tokens po co in
      elim (Bool-cases (ltb 0 elapsed)) [
        | inl e ↦
            let pos = hours_pos elapsed (ltb→lt 0 elapsed e) in
            let input = div_nonneg _ _ i i_finite pos in
            let output = div_nonneg _ _ o o_finite pos in
            rw e (input, output, le_trans _ _ _ input (le-add _ _ input output))
        | inr e ↦ rw e (zero_le, zero_le, zero_le)
      ]

  -- Active hours beyond the length of the window count as the length of the window.
  pub active_hours_capped :
      (hourly_cost active wall : F) (tokens : ℕ)
      → f.of_nat 0 ≺ wall
      → wall ≺ active
      → active_hours_cost_per_million_tokens hourly_cost active wall tokens
        ≡ active_hours_cost_per_million_tokens hourly_cost wall wall tokens
  unfolding active_hours_cost_per_million_tokens
  active_hours_capped hourly_cost active wall tokens h k =
      let wall_refl = (laws.le_refl_of_le _ _ (le_of_lt _ _ k)).0 in
      let not_zero = laws.not_le_of_lt _ _ h in
      let active_not_zero = laws.not_le_of_lt _ _ (lt_of_lt_of_le _ _ _ h (le_of_lt _ _ k)) in
      let irrefl = not_lt_of_le wall wall wall_refl in
      rw (h, k, irrefl, not_zero, active_not_zero) refl
