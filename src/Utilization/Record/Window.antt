-- ===== src/Utilization/Record/Window.antt =====
-- What the window of a key holds after any calls of `Record`.
use infercost.Base.{
  All-keep, All-snoc, keep-append, ◌∙◌, ℕ, ◌-◌, ◌≤◌, ◌≡◌, refl, ap, ◌∙◌, Bool, false, Bool-cases,
  inl, inr, String, List, [], ◌∷◌, ◌++◌, keep, All, if◌then◌else◌, arith, leb,
}
use infercost.Utilization.Sample.{Sample, IsChronological, is_retained}
use infercost.Utilization.Retention.{gc_locked}
use infercost.Utilization.Retention.Filter.{gc_locked-eq-keep}
use infercost.Utilization.Record.{
  Reading, sample_of_reading, no_windows, is_added_to, record_sample, record_all,
}

module _ {F : Type 0} where
  -- the calls come in the order of their instants, from an instant on
  abbrev pub AreTimely : ℕ → List (Reading F) → Type 0
  AreTimely t [] = Unit
  AreTimely t (r ∷ rs) = (t ≤ r.now) × AreTimely r.now rs

  -- every sample that was added to a key, behind those of before
  abbrev pub history : String → List (Sample F) → List (Reading F) → List (Sample F)
  history key h [] = h
  history key h (r ∷ rs) =
      history key (if is_added_to key r then h ++ (sample_of_reading r ∷ []) else h) rs

  -- the cutoff of the last call that added to a key
  abbrev pub last_cutoff : ℕ → String → ℕ → List (Reading F) → ℕ
  last_cutoff retention key c [] = c
  last_cutoff retention key c (r ∷ rs) =
      last_cutoff retention key (if is_added_to key r then r.now - retention else c) rs

  abbrev IsUntil : ℕ → Sample F → Type 0
  IsUntil t s = s.at ≤ t

  All-IsUntil : (t u : ℕ) (h : List (Sample F)) → t ≤ u → All (IsUntil t) h → All (IsUntil u) h
  All-IsUntil t u [] le a = tt
  All-IsUntil t u (s ∷ ss) le (a, rest) = (omega (arith, a), All-IsUntil t u ss le rest)

  pub keep-IsChronological :
      (p : Sample F → Bool) (h : List (Sample F)) → IsChronological h → IsChronological (keep p h)
  keep-IsChronological p [] c = tt
  keep-IsChronological p (x ∷ xs) (c, cs) = elim (Bool-cases (p x)) [
    | inl e ↦ rw e (All-keep (λ t. x.at ≤ t.at) p xs c, keep-IsChronological p xs cs)
    | inr e ↦ rw e (keep-IsChronological p xs cs)
  ]

  All-after :
      (x s : Sample F) (h : List (Sample F))
      → All (λ t. x.at ≤ t.at) h
      → x.at ≤ s.at
      → All (λ t. x.at ≤ t.at) (h ++ (s ∷ []))
  All-after x s [] a le = (le, tt)
  All-after x s (y ∷ ys) (a, rest) le = (a, All-after x s ys rest le)

  pub append-IsChronological :
      (h : List (Sample F)) (s : Sample F)
      → IsChronological h
      → All (IsUntil s.at) h
      → IsChronological (h ++ (s ∷ []))
  append-IsChronological [] s c a = (tt, tt)
  append-IsChronological (x ∷ xs) s (c, cs) (a, rest) =
      (All-after x s xs c a, append-IsChronological xs s cs rest)

  -- a later cutoff does not care what an earlier one dropped
  pub keep_again :
      (c d : ℕ) (h : List (Sample F))
      → c ≤ d
      → keep (is_retained d) (keep (is_retained c) h) ≡ keep (is_retained d) h
  keep_again c d [] le = refl
  keep_again c d (x ∷ xs) le = elim (Bool-cases (leb c x.at)) [
    | inl e ↦ rw (e, keep_again c d xs le) refl
    | inr e ↦
        let gone : leb d x.at ≡ false = ground arith in rw (e, gone, keep_again c d xs le) refl
  ]

  keep_later :
      (c d : ℕ) (h : List (Sample F)) (s : Sample F)
      → c ≤ d
      → keep (is_retained d) (keep (is_retained c) h ++ (s ∷ []))
        ≡ keep (is_retained d) (h ++ (s ∷ []))
  keep_later c d h s le =
      rw
        (
          keep-append (is_retained d) (keep (is_retained c) h) (s ∷ []),
          keep-append (is_retained d) h (s ∷ []),
          keep_again c d h le,
        )
        refl

  module _ (retention : ℕ) (key : String) where
    -- the window is what a cutoff keeps of a chronological history
    record_all-keep :
        (rs : List (Reading F)) (windows : String → List (Sample F)) (t c : ℕ) (h : List (Sample F))
        → AreTimely t rs
        → IsChronological h
        → All (IsUntil t) h
        → c ≤ t - retention
        → windows key ≡ keep (is_retained c) h
        → record_all retention rs windows key
          ≡ keep (is_retained (last_cutoff retention key c rs)) (history key h rs)
    unfolding record_all record_sample
    record_all-keep [] windows t c h timely chron until le e = e
    record_all-keep (r ∷ rs) windows t c h (now, timely) chron until le e =
        elim (Bool-cases (is_added_to key r)) [
          | inl added ↦
              let s = sample_of_reading r in
              let d = r.now - retention in
              let until_now = All-IsUntil t r.now h now until in
              let chron_now = append-IsChronological h s chron until_now in
              let window_chron =
                append-IsChronological (keep (is_retained c) h) s
                  (keep-IsChronological (is_retained c) h chron)
                  (All-keep (IsUntil r.now) (is_retained c) h until_now) in
              let step =
                ap (λ w. gc_locked d (w ++ (s ∷ []))) e
                ∙ gc_locked-eq-keep d (keep (is_retained c) h ++ (s ∷ [])) window_chron
                ∙ keep_later c d h s (omega (arith, now, le)) in
              rw added (
                record_all-keep rs (record_sample retention r windows) r.now d (h ++ (s ∷ []))
                  timely chron_now (All-snoc (IsUntil r.now) h s until_now (omega arith))
                  (omega arith) (rw added step))
          | inr other ↦ rw other (
              record_all-keep rs (record_sample retention r windows) r.now c h timely chron
                (All-IsUntil t r.now h now until) (omega (arith, now, le)) (rw other e))
        ]

    -- After any calls of `Record` in the order of time, from an empty sampler, the window of a key
    -- holds exactly the samples that were added to the key and are no older than the retention at
    -- its last addition, in their order; what a store refused is not among them, and other keys do
    -- not matter.
    pub record_all-window :
        (rs : List (Reading F))
        → AreTimely 0 rs
        → record_all retention rs no_windows key
          ≡ keep (is_retained (last_cutoff retention key 0 rs)) (history key [] rs)
    record_all-window rs timely =
        record_all-keep rs no_windows 0 0 [] timely tt tt (omega arith) refl
