-- ===== src/Utilization/Durable.antt =====
-- internal/utilization/sampler.go with a store attached: `Record`, `pruneStore`, `hydrate` and
-- `NewSamplerWithStore`. The mutex makes each call one step.
pub mod Buckets
pub mod Backed
pub mod Step
pub mod Restart
use infercost.Base.{
  ℕ, ◌-◌, ◌==◌, Bool, true, not, ◌&&◌, Option, none, some, String, List, [], ◌∷◌, str_eq, ltb,
  if◌then◌else◌, Result, ok, err, ◌>>=◌,
}
use infercost.Float.{Float64}
use infercost.Utilization.Sample.{Sample}
use infercost.Utilization.Record.{Reading, sample_of_reading, no_windows, record_sample}
use infercost.Utilization.Store.Codec.{DecodeError}
use infercost.Utilization.Store.Bolt.{Bolt}
use infercost.Utilization.Store.Operations.{on_success, append, prune, load_range, keys}

-- 15 minutes
abbrev pub prune_interval : ℕ
prune_interval = 900000000000

pub record Sampler (D F : Type 0) : Type 0 where
  pub db : D
  pub windows : String → List (Sample F)
  pub last_prune : ℕ

abbrev pub value_or : {A : Type 0} → A → Option A → A
value_or a none = a
value_or a (some x) = x

-- `s.samples[key] = samples`
abbrev pub set_window :
    {F : Type 0} → String → List (Sample F) → (String → List (Sample F)) → String → List (Sample F)
set_window name samples windows key = if str_eq name key then samples else windows key

-- the sampler of an empty database
abbrev pub fresh_sampler : {D F : Type 0} → D → Sampler D F
fresh_sampler d = record { db = d; windows = no_windows; last_prune = 0 }

module _ {F : Type 0} ⦃f : Float64 F⦄ {D : Type 0} ⦃b : Bolt D⦄ (retention : ℕ) where
  -- a failure to prune is ignored
  unfoldable pub prune_store : ℕ → Sampler D F → Sampler D F
  prune_store now s =
      if not (s.last_prune == 0) && ltb (now - s.last_prune) prune_interval
      then s
      else record s { db = value_or s.db (prune s.db (now - retention)); last_prune = now }

  abbrev pub add_to_window : Reading F → Sampler D F → Sampler D F
  add_to_window r s = record s {
    windows = record_sample retention (record r { persisted = true }) s.windows;
  }

  -- `none` is a failure to append
  unfoldable pub record_durable : Reading F → Sampler D F → Option (Sampler D F)
  record_durable r s =
      on_success (append s.db r.key (sample_of_reading r))
        λ e. some (add_to_window r (prune_store r.now (record s { db = e })))

  -- one call after the other; the caller logs a failure
  unfoldable pub record_all_durable : List (Reading F) → Sampler D F → Sampler D F
  unfolding record_durable
  record_all_durable [] s = s
  record_all_durable (r ∷ rs) s = record_all_durable rs (value_or s (record_durable r s))

  unfoldable pub hydrate_keys :
      ℕ
      → D
      → List String
      → (String → List (Sample F))
      → Result DecodeError (String → List (Sample F))
  hydrate_keys now d [] windows = ok windows
  hydrate_keys now d (name ∷ names) windows = load_range d name (now - retention) now >>= λ samples.
      hydrate_keys now d names (set_window name samples windows)

  unfoldable pub hydrate : ℕ → D → Result DecodeError (String → List (Sample F))
  unfolding hydrate_keys
  hydrate now d = hydrate_keys now d (keys d) no_windows

  unfoldable pub new_sampler_with_store : ℕ → D → Result DecodeError (Sampler D F)
  unfolding hydrate
  new_sampler_with_store now d =
      hydrate now d >>= λ windows. ok (record { db = d; windows = windows; last_prune = 0 })
