-- ===== src/Metrics/Panic.antt =====
-- internal/controller: no call on a gauge has the wrong number of label values.
use infercost.Base.{
  ◌≡◌, refl, ◌||◌, Bool-cases, inl, inr, Option, none, some, String, List, [], ◌∷◌, ◌++◌, All,
  length, str_eq,
}
use infercost.Float.{Float64}
use infercost.Scraper.Backend.{label_or_empty}
use infercost.Scraper.Power.{GpuPowerReading}
use infercost.Profile.Resource.{ProfileResource, hostname_label}
use infercost.Profile.Pods.{PublishedRate}
use infercost.Calculator.Cloud.{CloudComparison}
use infercost.Usage.BreakEven.{BreakEvenEntry}
use infercost.Budget.Entry.{TokenBudget}
use infercost.Metrics.{Registry, IsRegistry}
use infercost.Metrics.Emit.{
  GaugeCall, emit, cost_calls, power_calls, metal_calls, token_calls, rate_calls, comparison_calls,
  budget_calls, emit_break_even_metrics, PowerSource, dcgm, metal, no_power, ScrapedPod,
  source_calls, rate_calls_of, pod_calls, profile_calls,
}

module _ {F : Type 0} where
  abbrev pub HasAllLabels : GaugeCall F → Type 0
  HasAllLabels c = length c.values ≡ length c.gauge.labels

  All-append :
      (xs ys : List (GaugeCall F))
      → All HasAllLabels xs
      → All HasAllLabels ys
      → All HasAllLabels (xs ++ ys)
  All-append [] ys h k = k
  All-append (x ∷ xs) ys (h, hs) k = (h, All-append xs ys hs k)

  power_calls-labels :
      (profile : ProfileResource F) (gs : List (GpuPowerReading F))
      → All HasAllLabels (power_calls profile gs)
  unfolding power_calls
  power_calls-labels profile [] = tt
  power_calls-labels profile (g ∷ gs) =
      let node = label_or_empty profile.node_selector hostname_label in
      elim (Bool-cases (str_eq node "" || str_eq g.node node)) [
        | inl e ↦ rw e (refl, power_calls-labels profile gs)
        | inr e ↦ rw e (power_calls-labels profile gs)
      ]

  comparison_calls-labels : (cs : List (CloudComparison F)) → All HasAllLabels (comparison_calls cs)
  unfolding comparison_calls
  comparison_calls-labels [] = tt
  comparison_calls-labels (c ∷ cs) = (refl, (refl, (refl, comparison_calls-labels cs)))

  source_calls-labels :
      (profile : ProfileResource F) (source : PowerSource F)
      → All HasAllLabels (source_calls profile source)
  unfolding source_calls metal_calls
  source_calls-labels profile (dcgm readings) = power_calls-labels profile readings
  source_calls-labels profile (metal combined) = (refl, tt)
  source_calls-labels profile no_power = tt

  rate_calls-labels : (rate : Option (PublishedRate F)) → All HasAllLabels (rate_calls_of rate)
  unfolding rate_calls_of rate_calls
  rate_calls-labels none = tt
  rate_calls-labels (some p) = (refl, (refl, (refl, tt)))

  pod_calls-labels : (ps : List (ScrapedPod F)) → All HasAllLabels (pod_calls ps)
  unfolding pod_calls token_calls
  pod_calls-labels [] = tt
  pod_calls-labels (p ∷ ps) = (
    refl,
    (refl, All-append (rate_calls_of p.rate) _ (rate_calls-labels p.rate) (pod_calls-labels ps)),
  )

  profile_calls-labels :
      (profile : ProfileResource F) (source : PowerSource F) (amort elec total : F)
      (pods : List (ScrapedPod F)) (cs : List (CloudComparison F))
      → All HasAllLabels (profile_calls profile source amort elec total pods cs)
  unfolding profile_calls cost_calls
  profile_calls-labels profile source amort elec total pods cs =
      All-append (source_calls profile source) _ (source_calls-labels profile source) (
        refl,
        (
          refl,
          (
            refl,
            All-append (pod_calls pods) _ (pod_calls-labels pods) (comparison_calls-labels cs),
          ),
        ),
      )

module _ {F : Type 0} ⦃f : Float64 F⦄ where
  break_even-labels :
      (cost_profile : String) (es : List (BreakEvenEntry F))
      → All HasAllLabels (emit_break_even_metrics cost_profile es)
  unfolding emit_break_even_metrics
  break_even-labels cost_profile [] = tt
  break_even-labels cost_profile (e ∷ es) = (refl, (refl, break_even-labels cost_profile es))

module _ {G F : Type 0} ⦃r : Registry G F⦄ (laws : IsRegistry G F) where
  emit_labelled :
      (cs : List (GaugeCall F)) (d : G) → All HasAllLabels cs → (e : G) × (emit cs d ≡ some e)
  unfolding emit
  emit_labelled [] d h = (d, refl)
  emit_labelled (c ∷ cs) d (h, hs) =
      let (e, set) = laws.set_gauge-returns d c.gauge c.values c.value h in
      let (out, rest) = emit_labelled cs e hs in (out, rw set rest)

  -- The calls that a reconciler makes on its gauges, one after the other, do not panic, whatever was set
  -- before, where the client behaves as documented: those of a profile, whichever source its power is
  -- read from and however many pods answer, with an earlier snapshot or without; those of a budget; and those of a
  -- report, for any number of entries of its analysis.
  pub reconcile_calls-emit :
      ⦃f : Float64 F⦄ (profile : ProfileResource F) (source : PowerSource F) (amort elec total : F)
      (pods : List (ScrapedPod F)) (cs : List (CloudComparison F)) (budget : TokenBudget F)
      (spend utilization : F) (cost_profile : String) (es : List (BreakEvenEntry F)) (d : G)
      → ((e : G) × (emit (profile_calls profile source amort elec total pods cs) d ≡ some e))
        × ((e : G) × (emit (budget_calls budget spend utilization) d ≡ some e))
        × ((e : G) × (emit (emit_break_even_metrics cost_profile es) d ≡ some e))
  unfolding budget_calls
  reconcile_calls-emit profile source amort elec total pods cs budget spend utilization cost_profile
        es d =
      (
        emit_labelled _ d (profile_calls-labels profile source amort elec total pods cs),
        emit_labelled _ d (refl, (refl, (refl, tt))),
        emit_labelled _ d (break_even-labels cost_profile es),
      )
