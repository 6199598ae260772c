-- ===== src/Calculator/Cost.antt =====
-- internal/calculator/calculator.go: hourly cost, token rates, cost of a token, break-even. An
-- instant counts nanoseconds; a difference that is not positive is 0. An amortization of `int32`
-- years is a number.
pub mod Rates
use infercost.Base.{ℕ, ◌-◌, ◌≡◌, Bool, ◌&&◌, ◌||◌, not, ltb, if◌then◌else◌, pos_int64, add_int64}
use infercost.Float.{Float64, of_int64}
use infercost.Utilization.Sample.{hours}

pub record HardwareCosts (F : Type 0) : Type 0 where
  pub purchase_price_usd : F
  pub amortization_years : ℕ
  pub maintenance_percent_per_year : F
  pub rate_per_kwh : F
  pub pue_factor : F

pub record HourlyCost (F : Type 0) : Type 0 where
  pub amortization : F
  pub electricity : F
  pub total : F

pub record TokenSnapshot (F : Type 0) : Type 0 where
  pub timestamp : ℕ
  pub input_tokens : F
  pub output_tokens : F

pub record TokenRate (F : Type 0) : Type 0 where
  pub input_per_hour : F
  pub output_per_hour : F
  pub total_per_hour : F

pub record CostResult (F : Type 0) : Type 0 where
  pub amortization_per_hour : F
  pub electricity_per_hour : F
  pub total_per_hour : F
  pub cost_per_token : F
  pub cost_per_million_tokens : F
  pub gpu_efficiency_ratio : F

module _ {F : Type 0} ⦃f : Float64 F⦄ where
  unfoldable pub compute_hourly_cost : HardwareCosts F → F → HourlyCost F
  compute_hourly_cost hw power =
      let amortization =
        f.div (f.mul hw.purchase_price_usd (f.add (f.of_nat 1) hw.maintenance_percent_per_year))
          (f.mul (f.of_nat hw.amortization_years) (f.of_nat 8760)) in
      let power_kw = f.div power (f.of_nat 1000) in
      let pue = if f.eq hw.pue_factor (f.of_nat 0) then f.of_nat 1 else hw.pue_factor in
      let electricity = f.mul (f.mul power_kw hw.rate_per_kwh) pue in
      record {
        amortization = amortization;
        electricity = electricity;
        total = f.add amortization electricity;
      }

  -- a counter's growth; a counter that fell was reset, and counts from 0
  abbrev pub counter_delta : F → F → F
  counter_delta prev curr =
      let delta = f.sub curr prev in if f.lt delta (f.of_nat 0) then curr else delta

  unfoldable pub compute_token_rate : TokenSnapshot F → TokenSnapshot F → TokenRate F
  compute_token_rate prev curr =
      let elapsed = curr.timestamp - prev.timestamp in
      let input = f.div (counter_delta prev.input_tokens curr.input_tokens) (hours elapsed) in
      let output = f.div (counter_delta prev.output_tokens curr.output_tokens) (hours elapsed) in
      if ltb 0 elapsed
      then record {
        input_per_hour = input;
        output_per_hour = output;
        total_per_hour = f.add input output;
      }
      else record {
        input_per_hour = f.of_nat 0;
        output_per_hour = f.of_nat 0;
        total_per_hour = f.of_nat 0;
      }

  unfoldable pub compute_cost_per_token : F → F → F
  compute_cost_per_token hourly_cost tokens_per_hour =
      if f.le tokens_per_hour (f.of_nat 0) then f.of_nat 0 else f.div hourly_cost tokens_per_hour

  unfoldable pub active_hours_cost_per_million_tokens : F → F → F → ℕ → F
  active_hours_cost_per_million_tokens hourly_cost active_hours wall_clock_hours total_tokens =
      let effective =
        if f.lt (f.of_nat 0) wall_clock_hours && f.lt wall_clock_hours active_hours
        then wall_clock_hours
        else active_hours in
      if not (pos_int64 total_tokens)
        || f.le active_hours (f.of_nat 0)
        || f.le hourly_cost (f.of_nat 0)
      then f.of_nat 0
      else f.div (f.mul hourly_cost effective) (f.div (of_int64 total_tokens) (f.of_nat 1000000))

  unfoldable pub compute_full :
      HardwareCosts F → F → TokenSnapshot F → TokenSnapshot F → CostResult F
  unfolding compute_hourly_cost compute_token_rate compute_cost_per_token
  compute_full hw power prev curr =
      let cost = compute_hourly_cost hw power in
      let rate = compute_token_rate prev curr in
      let cpt = compute_cost_per_token cost.total rate.total_per_hour in
      let on = f.lt (f.of_nat 10) power in
      record {
        amortization_per_hour = cost.amortization;
        electricity_per_hour = cost.electricity;
        total_per_hour = cost.total;
        cost_per_token = cpt;
        cost_per_million_tokens = f.mul cpt (f.of_nat 1000000);
        gpu_efficiency_ratio =
            if on && f.lt (f.of_nat 0) rate.total_per_hour then f.of_nat 1 else f.of_nat 0;
      }

  unfoldable pub daily_hardware_cost : F → F → F → F → F
  daily_hardware_cost amortization_per_hour idle_watts rate_per_kwh pue_factor =
      let pue = if f.le pue_factor (f.of_nat 0) then f.of_nat 1 else pue_factor in
      let idle =
        f.mul (f.mul (f.mul (f.div idle_watts (f.of_nat 1000)) (f.of_nat 24)) rate_per_kwh) pue in
      f.add (f.mul amortization_per_hour (f.of_nat 24)) idle

  unfoldable pub break_even_tokens_per_day : F → F → F
  break_even_tokens_per_day daily_cost cloud_cost_per_token =
      if f.le cloud_cost_per_token (f.of_nat 0)
      then f.of_nat 0
      else f.div daily_cost cloud_cost_per_token

  unfoldable pub percent_of_break_even : F → F → F
  percent_of_break_even current break_even =
      if f.le break_even (f.of_nat 0)
      then f.of_nat 0
      else f.mul (f.div current break_even) (f.of_nat 100)
