-- ===== src/Utilization/Record.antt =====
-- internal/utilization/sampler.go: `Record`. The windows of all keys are a function of the key. An
-- attached store that fails to append the sample ends the call; without a store nothing fails.
-- Pruning the store leaves the windows alone. An instant less the retention lies after Go's zero time.
pub mod Window
use infercost.Base.{ℕ, ◌-◌, Bool, ◌&&◌, String, List, [], ◌∷◌, ◌++◌, str_eq, if◌then◌else◌}
use infercost.Utilization.Sample.{Sample}
use infercost.Utilization.Retention.{gc_locked}

-- the arguments of a call, its instant, and whether the store took the sample or there is no store
pub record Reading (F : Type 0) : Type 0 where
  pub key : String
  pub power_w : F
  pub active_threshold_w : F
  pub now : ℕ
  pub persisted : Bool

module _ {F : Type 0} where
  abbrev pub sample_of_reading : Reading F → Sample F
  sample_of_reading r = record { at = r.now; power_w = r.power_w; active_w = r.active_threshold_w }

  abbrev pub no_windows : String → List (Sample F)
  no_windows key = []

  -- whether a call changes the window of a key
  abbrev pub is_added_to : String → Reading F → Bool
  is_added_to key r = r.persisted && str_eq r.key key

  unfoldable pub record_sample :
      ℕ → Reading F → (String → List (Sample F)) → String → List (Sample F)
  unfolding gc_locked
  record_sample retention r windows key =
      if is_added_to key r
      then gc_locked (r.now - retention) (windows key ++ (sample_of_reading r ∷ []))
      else windows key

  -- one call after the other
  unfoldable pub record_all :
      ℕ → List (Reading F) → (String → List (Sample F)) → String → List (Sample F)
  unfolding record_sample
  record_all retention [] windows = windows
  record_all retention (r ∷ rs) windows =
      record_all retention rs (record_sample retention r windows)
