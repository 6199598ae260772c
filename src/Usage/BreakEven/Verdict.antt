-- ===== src/Usage/BreakEven/Verdict.antt =====
-- The verdicts of `computeBreakEven`, and its targets.
use infercost.Base.{
  ℕ, ◌+◌, ◌≡◌, refl, Bool, true, false, ◌&&◌, Option-cases, inl, inr, Option, none, some, String,
  str_eq_iff, ◌≢◌, List, [], ◌∷◌, length, All, str_eq, if◌then◌else◌, arith,
}
use mathlib.Core.Path.{subst}
use infercost.Float.{Float64, IsOrdered, ◌≼◌}
use infercost.Calculator.Cost.{break_even_tokens_per_day, percent_of_break_even}
use infercost.Calculator.Cloud.{CloudPricing, cloud_cost_per_token}
use infercost.Usage.BreakEven.{
  CloudTarget, ProfileCosts, BreakEvenEntry, entry_of_price, pricing_key, find_price,
  break_even_of_targets, compute_break_even, profile_daily_cost, current_tokens_per_day,
  targets_or_default, on_prem_cheaper, cloud_cheaper,
}

cloud≢on_prem : cloud_cheaper ≢ on_prem_cheaper
cloud≢on_prem h = let e = (str_eq_iff cloud_cheaper on_prem_cheaper).1 h in cc

some_inj : {A : Type 0} (q p : A) → Path (Option A) (some q) (some p) → q ≡ p
some_inj q p h = cc

-- the one of two options that `find_price` takes
pick :
    {A : Type 0} (P : A → Type 0) (o : Option A) (b : Bool) (q p : A)
    → ((r : A) → o ≡ some r → P r)
    → P q
    → elim o [ some r ↦ some r | none ↦ if b then some q else none ] ≡ some p
    → P p
pick P (some r) b q p h hq e = h p e
pick P none true q p h hq e = subst P (some_inj q p e) hq
pick P none false q p h hq e = ground arith

verdict_test :
    (a b : Bool)
    → (if a && b then on_prem_cheaper else cloud_cheaper) ≡ on_prem_cheaper
    → (a ≡ true) × (b ≡ true)
verdict_test true true h = (refl, refl)
verdict_test true false h = elim (cloud≢on_prem h) [ ]
verdict_test false b h = elim (cloud≢on_prem h) [ ]

module _ {F : Type 0} ⦃f : Float64 F⦄ where
  -- an entry that says on-prem is cheaper is at 100 percent of its break-even, or more
  abbrev pub IsPastBreakEven : BreakEvenEntry F → Type 0
  IsPastBreakEven e = e.verdict ≡ on_prem_cheaper → f.of_nat 100 ≼ e.percent_of_break_even

  -- the volume at which the price breaks even is no infinity and no NaN
  abbrev pub HasBreakEven : F → ℕ → ℕ → CloudPricing F → Type 0
  HasBreakEven daily total_in total_out p =
      f.finite (break_even_tokens_per_day daily (cloud_cost_per_token p total_in total_out)) ≡ true

  percent-past :
      (laws : IsOrdered F) (current be : F)
      → f.finite be ≡ true
      → f.lt (f.of_nat 0) be ≡ true
      → f.le be current ≡ true
      → f.of_nat 100 ≼ percent_of_break_even current be
  unfolding percent_of_break_even
  percent-past laws current be finite pos le = rw (laws.not_le_of_lt (f.of_nat 0) be pos) (
      subst (λ x. x ≼ f.mul (f.div current be) (f.of_nat 100)) (laws.one_mul_nat 100)
        (laws.mul_nat_mono (f.of_nat 1) (f.div current be) 100
          (laws.one-le-div current be pos finite le) (omega arith) (omega arith)))

  entry_of_price-IsPastBreakEven :
      (laws : IsOrdered F) (daily current : F) (i o : ℕ) (p : CloudPricing F)
      → HasBreakEven daily i o p
      → IsPastBreakEven (entry_of_price daily current i o p)
  unfolding entry_of_price
  entry_of_price-IsPastBreakEven laws daily current i o p finite verdict =
      let (pos, le) = verdict_test _ _ verdict in percent-past laws current _ finite pos le

  module _ (to_lower : String → String) where
    find_price-All :
        (P : CloudPricing F → Type 0) (key : String) (pricing : List (CloudPricing F))
        → All P pricing
        → (p : CloudPricing F) → find_price to_lower key pricing ≡ some p
        → P p
    unfolding find_price
    find_price-All P key [] h p e = ground arith
    find_price-All P key (q ∷ qs) (hq, hqs) p e =
        pick P (find_price to_lower key qs) (str_eq (pricing_key to_lower q.provider q.model) key) q
          p (find_price-All P key qs hqs) hq e

    break_even_of_targets-All :
        (P : BreakEvenEntry F → Type 0) (entry : CloudPricing F → BreakEvenEntry F)
        (pricing : List (CloudPricing F)) (targets : List CloudTarget)
        → All (λ p. P (entry p)) pricing
        → All P (break_even_of_targets to_lower entry pricing targets).entries
    unfolding break_even_of_targets
    break_even_of_targets-All P entry pricing [] h = tt
    break_even_of_targets-All P entry pricing (t ∷ ts) h =
        let key = pricing_key to_lower t.provider t.model in
        let rest = break_even_of_targets-All P entry pricing ts h in
        elim (Option-cases (find_price to_lower key pricing)) [
          | inl n ↦ rw n rest
          | inr (p, s) ↦ rw s (find_price-All (λ p. P (entry p)) key pricing h p s, rest)
        ]

    break_even_of_targets-length :
        (entry : CloudPricing F → BreakEvenEntry F) (pricing : List (CloudPricing F))
        (targets : List CloudTarget)
        → let r = break_even_of_targets to_lower entry pricing targets in
          length r.entries + length r.unknown ≡ length targets
    unfolding break_even_of_targets
    break_even_of_targets-length entry pricing [] = refl
    break_even_of_targets-length entry pricing (t ∷ ts) =
        let rest = break_even_of_targets-length entry pricing ts in
        elim (Option-cases
          (find_price to_lower (pricing_key to_lower t.provider t.model) pricing)) [
            | inl n ↦ rw n (omega (arith, rest))
            | inr (p, s) ↦ rw s (omega (arith, rest))
          ]

    All-price :
        (laws : IsOrdered F) (daily current : F) (i o : ℕ) (pricing : List (CloudPricing F))
        → All (HasBreakEven daily i o) pricing
        → All (λ p. IsPastBreakEven (entry_of_price daily current i o p)) pricing
    All-price laws daily current i o [] h = tt
    All-price laws daily current i o (p ∷ ps) (hp, hps) = (
      entry_of_price-IsPastBreakEven laws daily current i o p hp,
      All-price laws daily current i o ps hps,
    )

    -- Where every price breaks even at a finite volume, each entry of the analysis whose verdict says
    -- that on-prem is cheaper reports 100 percent of its break-even or more. The entries and the
    -- unknown targets are as many as the targets, the default ones where none are given.
    pub compute_break_even-verdict :
        (laws : IsOrdered F) (pricing : List (CloudPricing F)) (profile : ProfileCosts F)
        (total_in total_out : ℕ) (hours_in_period : F)
        → All (HasBreakEven (profile_daily_cost profile) total_in total_out) pricing
        → let r = compute_break_even to_lower pricing profile total_in total_out hours_in_period in
          All IsPastBreakEven r.entries
          × (length r.entries + length r.unknown ≡ length (targets_or_default profile.targets))
    unfolding compute_break_even
    compute_break_even-verdict laws pricing profile i o hours h =
        let current = current_tokens_per_day i o hours in
        let entry = entry_of_price (profile_daily_cost profile) current i o in
        let targets = targets_or_default profile.targets in
        (
          break_even_of_targets-All IsPastBreakEven entry pricing targets
              (All-price laws (profile_daily_cost profile) current i o pricing h),
          break_even_of_targets-length entry pricing targets,
        )
