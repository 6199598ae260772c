-- ===== src/Utilization/Retention.antt =====
-- internal/utilization/sampler.go: the in-memory window of `Sampler`, kept short by `gcLocked`.
pub mod Filter
use infercost.Base.{
  ℕ, zero, suc, ◌+◌, ◌-◌, ◌≤◌, ◌<◌, ◌≡◌, Bool, true, false, Option, none, some, List, [], ◌∷◌, ◌++◌,
  arith, leb, ltb, length, get_elem?, if◌then◌else◌,
}
use infercost.Utilization.Sample.{Sample, is_retained}
use infercost.Utilization.Search.{search}

module _ {ℓ} {A : Type ℓ} where
  -- `xs[n:]`
  abbrev pub drop : ℕ → List A → List A
  drop zero xs = xs
  drop (suc n) [] = []
  drop (suc n) (x ∷ xs) = drop n xs

  -- the test of element `i`; `sort.Search` asks only for those in range
  abbrev pub test_at : (A → Bool) → List A → ℕ → Bool
  test_at p [] i = false
  test_at p (x ∷ xs) zero = p x
  test_at p (x ∷ xs) (suc i) = test_at p xs i

module _ {F : Type 0} where
  abbrev pub first_is_retained : ℕ → List (Sample F) → Bool
  first_is_retained cutoff [] = true
  first_is_retained cutoff (s ∷ ss) = is_retained cutoff s

  -- `gcLocked`: the samples of the key after the call
  unfoldable pub gc_locked : ℕ → List (Sample F) → List (Sample F)
  unfolding search
  gc_locked cutoff samples =
      let idx = search (length samples) (test_at (is_retained cutoff) samples) in
      if first_is_retained cutoff samples
      then samples
      else if leb (length samples) idx
      then []
      else drop idx samples
