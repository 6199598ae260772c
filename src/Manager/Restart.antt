-- ===== src/Manager/Restart.antt =====
-- cmd/main.go: a manager that starts again on its data directory has the power history back.
use mathlib.Core.Bool.{false≢true}
use infercost.Base.{
  ℕ, ◌-◌, ◌*◌, ◌^◌, ◌<◌, ◌≤◌, ◌⊎◌, inl, inr, arith, ◌≡◌, refl, sym, ◌∙◌, false, String, List, [],
  ◌∷◌, keep, any, str_eq, str_eq_refl, none, ok,
}
use infercost.Float.{Float64}
use infercost.Utilization.Sample.{is_retained}
use infercost.Utilization.Record.{Reading}
use infercost.Utilization.Store.Codec.Order.{IsInRange}
use infercost.Utilization.Store.Codec.RoundTrip.{IsCoded}
use infercost.Utilization.Store.Bolt.{Bolt, IsBolt}
use infercost.Utilization.Durable.{
  Sampler, record_all_durable, fresh_sampler, new_sampler_with_store, hydrate, hydrate_keys,
}
use infercost.Utilization.Durable.Restart.{AreSpaced, last_instant, restart-window}
use infercost.Manager.{StoreFiles, durable, effective_retention, new_power_sampler}

no_names :
    (names : List String) → ((name : String) → any (λ n. str_eq n name) names ≡ false) → names ≡ []
no_names [] h = refl
no_names (n ∷ ns) h = absurd (false≢true (sym (h n) ∙ rw (str_eq_refl n) refl))

-- a flag below 2^63 that is not 0 is a positive `int64`; 45 days in nanoseconds otherwise
abbrev pub IsRetention : ℕ → ℕ → Type 0
IsRetention flag r =
    ((0 < flag) × (flag < 2 ^ 63) × (r ≡ flag))
    ⊎ (((flag ≡ 0) ⊎ (2 ^ 63 ≤ flag)) × (r ≡ 45 * 24 * 3600 * 1000000000))

effective_retention_lem : (flag r : ℕ) → IsRetention flag r → effective_retention flag ≡ r
effective_retention_lem flag r (inl (low, high, e)) = ground arith
effective_retention_lem flag r (inr (inl z, e)) = ground arith
effective_retention_lem flag r (inr (inr big, e)) = ground arith

-- what a database holds is there when it is opened again under the data directory
abbrev pub IsKept : {D : Type 0} → (D → StoreFiles D) → String → Type 0
IsKept {D} disk data_dir =
    (dir : String) × ((d : D) → (disk d).abs data_dir ≡ ok dir)
    × ((d : D) → (disk d).open_store ((disk d).join dir "samples.db") ≡ ok d)

module _ {F : Type 0} ⦃f : Float64 F⦄ {D : Type 0} ⦃b : Bolt D⦄ (laws : IsBolt D) where
  new_sampler_empty :
      (retention now : ℕ) (d : D)
      → ((name : String) → b.bucket d name ≡ none)
      → new_sampler_with_store {F = F} retention now d ≡ ok (fresh_sampler d)
  unfolding new_sampler_with_store hydrate hydrate_keys
  new_sampler_empty retention now d empty =
      rw (no_names (b.bucket_names d) (λ name. laws.names-bucket d name ∙ rw (empty name) refl))
        refl

  opened :
      (disk : D → StoreFiles D) (data_dir : String) (flag r now : ℕ) (d : D) (s : Sampler D F)
      → str_eq data_dir "" ≡ false
      → IsKept disk data_dir
      → IsRetention flag r
      → new_sampler_with_store r now d ≡ ok s
      → new_power_sampler (disk d) now data_dir flag ≡ ok (durable r s)
  unfolding new_power_sampler
  opened disk data_dir flag r now d s named (dir, found, kept) chosen h =
      rw (named, found d, kept d, effective_retention_lem flag r chosen, h) refl

  -- The first start with a data directory, on an empty database, gives a sampler without history.
  -- After any calls of `Record` on it, one after the other, a start at a later instant with the same
  -- flags returns no error, and the window of a key is what the old window holds from the new cutoff
  -- on. The retention that both samplers have and that the cutoff lies before now is the flag, or 45
  -- days where the flag, an `int64`, is not positive. The
  -- instants of the calls grow, they and the cutoffs lie between 1970 and 2262, and the database, the
  -- disk and the bits of a `float64` behave as documented.
  pub new_power_sampler-restart :
      (coded : IsCoded F) (disk : D → StoreFiles D) (data_dir : String) (flag r : ℕ) (d : D)
      (rs : List (Reading F)) (first now : ℕ) (key : String)
      → IsRetention flag r
      → str_eq data_dir "" ≡ false
      → IsKept disk data_dir
      → ((name : String) → b.bucket d name ≡ none)
      → AreSpaced r 0 rs
      → last_instant r 0 rs < now
      → IsInRange now
      → IsInRange (now - r)
      → let old = record_all_durable r rs (fresh_sampler d) in
        (new_power_sampler {F = F} (disk d) first data_dir flag ≡ ok (durable r (fresh_sampler d)))
        × (new : Sampler D F) × (new_power_sampler (disk old.db) now data_dir flag
            ≡ ok (durable r new))
        × (new.windows key ≡ keep (is_retained (now - r)) (old.windows key))
  new_power_sampler-restart coded disk data_dir flag r d rs first now key chosen named kept empty
        spaced late range cutoff =
      let old = record_all_durable r rs (fresh_sampler d) in
      let (new, started, window) =
        restart-window laws r coded d rs now key empty spaced late range cutoff in
      (
        opened disk data_dir flag r first d (fresh_sampler d) named kept chosen
            (new_sampler_empty r first d empty),
        new,
        opened disk data_dir flag r now old.db new named kept chosen started,
        window,
      )
