-- ===== src/Utilization/Durable/Restart.antt =====
-- A sampler that starts from the store has the window that the sampler before it had.
use infercost.Base.{
  ℕ, ◌-◌, ◌<◌, ◌≡◌, refl, ap, ◌∙◌, Bool, true, false, ◌||◌, Bool-cases, Option-cases, inl, inr,
  Option, none, some, String, List, [], ◌∷◌, All-keep, any, keep, if◌then◌else◌, arith, Result, ok,
  str_eq, str_eq_iff,
}
use infercost.Float.{Float64}
use infercost.Utilization.Sample.{Sample, is_retained}
use infercost.Utilization.Record.{Reading, no_windows}
use infercost.Utilization.Store.Codec.{make_key}
use infercost.Utilization.Store.Codec.Order.{IsInRange}
use infercost.Utilization.Store.Codec.RoundTrip.{IsCoded}
use infercost.Utilization.Store.Bolt.{Pair, or_empty, Bolt, IsBolt}
use infercost.Utilization.Store.Operations.{seek, load_loop, load_range, load_bucket}
use infercost.Utilization.Durable.{
  Sampler, value_or, record_durable, record_all_durable, set_window, hydrate_keys, hydrate,
  new_sampler_with_store, fresh_sampler,
}
use infercost.Utilization.Durable.Buckets.{IsStored, seek-keep, load_loop-stored}
use infercost.Utilization.Durable.Backed.{AreBacked}
use infercost.Utilization.Durable.Step.{record_durable-AreBacked}

ok_inj : {E A : Type 0} (x y : A) → Path (Result E A) (ok x) (ok y) → x ≡ y
ok_inj x y h = cc

-- a window set under a name is the one to be kept of it
named :
    {A : Type 0} (name key : String) (t : Bool) (kept : String → A) (other : A)
    → (if t then kept key else if str_eq name key then kept name else other)
      ≡ (if str_eq name key || t then kept key else other)
named name key true kept other = elim (Bool-cases (str_eq name key)) [
  | inl same ↦ rw same refl
  | inr differ ↦ rw differ refl
]
named name key false kept other = elim (Bool-cases (str_eq name key)) [
  | inl same ↦ rw same (ap kept ((str_eq_iff name key).0 same))
  | inr differ ↦ rw differ refl
]

module _ {F : Type 0} (retention : ℕ) where
  -- the calls come one after the other, and their instants and cutoffs lie in range
  abbrev pub AreSpaced : ℕ → List (Reading F) → Type 0
  AreSpaced t [] = Unit
  AreSpaced t (r ∷ rs) =
      (t < r.now) × IsInRange r.now × IsInRange (r.now - retention) × AreSpaced r.now rs

  abbrev pub last_instant : ℕ → List (Reading F) → ℕ
  last_instant t [] = t
  last_instant t (r ∷ rs) = last_instant r.now rs

module _ {F : Type 0} ⦃f : Float64 F⦄ {D : Type 0} ⦃b : Bolt D⦄ (laws : IsBolt D)
    (retention : ℕ) where
  load_bucket-loop :
      (start end : ℕ) (o : Option (List Pair))
      → load_bucket {F = F} start end o ≡ load_loop end (seek (make_key start) (or_empty o))
  unfolding seek load_loop
  load_bucket-loop start end none = refl
  load_bucket-loop start end (some ps) = refl

  module _ (coded : IsCoded F) (t now : ℕ) (s : Sampler D F) (h : AreBacked retention t s)
      (late : t < now) (range : IsInRange now) (cutoff : IsInRange (now - retention)) where
    -- what the new sampler is to hold of a window
    abbrev kept_window : String → List (Sample F)
    kept_window key = keep (is_retained (now - retention)) (s.windows key)

    load_range-kept :
        (name : String) → load_range s.db name (now - retention) now ≡ ok (kept_window name)
    unfolding load_range
    load_range-kept name =
        let (p, back) = h name in
        let c = now - retention in
        load_bucket-loop c now (b.bucket s.db name)
        ∙ ap (λ ps. load_loop now (seek (make_key c) ps)) back.pairs
        ∙ ap (load_loop now) (seek-keep t c p back.history_chron back.stored cutoff)
        ∙ load_loop-stored coded t now (keep (is_retained c) p)
            (All-keep (IsStored t) (is_retained c) p back.stored) late range
        ∙ ap ok (back.agree c (omega (arith, late)))

    hydrate_keys-kept :
        (names : List String) (windows : String → List (Sample F)) (key : String)
        → (w : String → List (Sample F)) × (hydrate_keys retention now s.db names windows ≡ ok w)
          × (w key ≡ (if any (λ n. str_eq n key) names then kept_window key else windows key))
    unfolding hydrate_keys
    hydrate_keys-kept [] windows key = (windows, refl, refl)
    hydrate_keys-kept (name ∷ names) windows key =
        let (w, done, holds) =
          hydrate_keys-kept names (set_window name (kept_window name) windows) key in
        (
          w,
          rw (load_range-kept name) done,
          holds ∙ named name key (any (λ n. str_eq n key) names) (kept_window) (windows key),
        )

    -- a key without a bucket has nothing to keep
    missing : (key : String) → b.bucket s.db key ≡ none → [] ≡ kept_window key
    unfolding load_range
    missing key gone = ok_inj [] (kept_window key) (rw gone at (load_range-kept key))

    new_sampler-kept :
        (key : String)
        → (new : Sampler D F) × (new_sampler_with_store retention now s.db ≡ ok new)
          × (new.windows key ≡ kept_window key)
    unfolding new_sampler_with_store hydrate
    new_sampler-kept key =
        let (w, done, holds) = hydrate_keys-kept (b.bucket_names s.db) no_windows key in
        (
          record { db = s.db; windows = w; last_prune = 0 },
          rw done refl,
          holds
              ∙ rw (laws.names-bucket s.db key) (elim (Option-cases (b.bucket s.db key)) [
                | inl gone ↦ rw gone (missing key gone)
                | inr (ps, found) ↦ rw found refl
              ]),
        )

  record_all_durable-AreBacked :
      (t : ℕ) (rs : List (Reading F)) (s : Sampler D F)
      → AreSpaced retention t rs
      → AreBacked retention t s
      → AreBacked retention (last_instant retention t rs) (record_all_durable retention rs s)
  unfolding record_all_durable
  record_all_durable-AreBacked t [] s spaced h = h
  record_all_durable-AreBacked t (r ∷ rs) s (late, range, cutoff, spaced) h =
      record_all_durable-AreBacked r.now rs (value_or s (record_durable retention r s)) spaced
        (record_durable-AreBacked laws retention t r s late range cutoff h)

  fresh-AreBacked :
      (d : D)
      → ((key : String) → b.bucket d key ≡ none)
      → AreBacked {F = F} retention 0 (fresh_sampler d)
  fresh-AreBacked d empty key = rw (empty key) (
    [],
    record {
      pairs = refl;
      stored = tt;
      history_chron = tt;
      window_until = tt;
      window_chron = tt;
      agree = λ c k. refl;
    },
  )

  -- After any calls of `Record` on a sampler with an empty store, one after the other, of which any
  -- may fail to append or to prune, a sampler that starts from the store at a later instant starts
  -- without an error, and its window of a key is what the old window holds from the new cutoff on.
  -- The instants of the calls grow, they and their cutoffs lie between 1970 and 2262, and the
  -- database and the bits of a `float64` behave as documented.
  pub restart-window :
      (coded : IsCoded F) (d : D) (rs : List (Reading F)) (now : ℕ) (key : String)
      → ((name : String) → b.bucket d name ≡ none)
      → AreSpaced retention 0 rs
      → last_instant retention 0 rs < now
      → IsInRange now
      → IsInRange (now - retention)
      → let old = record_all_durable retention rs (fresh_sampler d) in
        (new : Sampler D F) × (new_sampler_with_store retention now old.db ≡ ok new)
        × (new.windows key ≡ keep (is_retained (now - retention)) (old.windows key))
  restart-window coded d rs now key empty spaced late range cutoff =
      new_sampler-kept coded (last_instant retention 0 rs) now
        (record_all_durable retention rs (fresh_sampler d))
        (record_all_durable-AreBacked 0 rs (fresh_sampler d) spaced (fresh-AreBacked d empty)) late
        range cutoff key
