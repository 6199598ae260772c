-- ===== src/Utilization/Retention/Filter.antt =====
-- `gcLocked` keeps exactly the samples that are not older than the cutoff.
use infercost.Base.{
  ℕ, zero, suc, ◌≤◌, ◌<◌, ◌≡◌, refl, sym, ap, ◌∙◌, Bool, true, false, List, [], ◌∷◌, arith, leb,
  length, All, keep, Bool-cases, inl, inr,
}
use infercost.Utilization.Sample.{Sample, is_retained, IsChronological}
use infercost.Utilization.Search.{search, IsMonotone, search-IsTurn}
use infercost.Utilization.Retention.{drop, test_at, gc_locked, first_is_retained}

module _ {ℓ} {A : Type ℓ} (p : A → Bool) where
  keep-All : (xs : List A) → All (λ x. p x ≡ true) xs → keep p xs ≡ xs
  keep-All [] h = refl
  keep-All (x ∷ xs) (h, hs) = rw h (ap (◌∷◌ x) (keep-All xs hs))

  All-of_test :
      (xs : List A) → ((k : ℕ) → k < length xs → test_at p xs k ≡ true) → All (λ x. p x ≡ true) xs
  All-of_test [] h = tt
  All-of_test (x ∷ xs) h = (h 0 (omega arith), All-of_test xs (λ k l. h (suc k) (omega arith)))

  test_of_All :
      (xs : List A) (k : ℕ) → All (λ x. p x ≡ true) xs → k < length xs → test_at p xs k ≡ true
  test_of_All [] k h l = absurd (omega arith)
  test_of_All (x ∷ xs) zero h l = h.0
  test_of_All (x ∷ xs) (suc k) h l = test_of_All xs k h.1 (omega arith)

  -- Cutting where the test turns is filtering by the test.
  drop-eq-keep :
      (xs : List A) (r : ℕ)
      → ((k : ℕ) → k < r → test_at p xs k ≡ false)
      → ((k : ℕ) → r ≤ k → k < length xs → test_at p xs k ≡ true)
      → drop r xs ≡ keep p xs
  drop-eq-keep xs zero low high = sym (keep-All xs (All-of_test xs (λ k l. high k (omega arith) l)))
  drop-eq-keep [] (suc r) low high = refl
  drop-eq-keep (x ∷ xs) (suc r) low high = rw (low 0 (omega arith)) (
      drop-eq-keep xs r (λ k l. low (suc k) (omega arith))
        (λ k l m. high (suc k) (omega arith) (omega arith)))

module _ {F : Type 0} where
  retained_after :
      (cutoff : ℕ) (s : Sample F) (ss : List (Sample F))
      → is_retained cutoff s ≡ true
      → All (λ t. s.at ≤ t.at) ss
      → All (λ t. is_retained cutoff t ≡ true) ss
  retained_after cutoff s [] h a = tt
  retained_after cutoff s (t ∷ ts) h (a, as') = (ground arith, retained_after cutoff s ts h as')

  chronological_mono :
      (cutoff : ℕ) (ss : List (Sample F))
      → IsChronological ss
      → IsMonotone (length ss) (test_at (is_retained cutoff) ss)
  chronological_mono cutoff [] c i k h l t = absurd (omega arith)
  chronological_mono cutoff (s ∷ ss) c zero zero h l t = t
  chronological_mono cutoff (s ∷ ss) c zero (suc k) h l t =
      test_of_All (is_retained cutoff) ss k (retained_after cutoff s ss t c.0) (omega arith)
  chronological_mono cutoff (s ∷ ss) c (suc i) zero h l t = absurd (omega arith)
  chronological_mono cutoff (s ∷ ss) c (suc i) (suc k) h l t =
      chronological_mono cutoff ss c.1 i k (omega arith) (omega arith) t

  pub keep_first :
      (cutoff : ℕ) (ss : List (Sample F))
      → IsChronological ss
      → first_is_retained cutoff ss ≡ true
      → keep (is_retained cutoff) ss ≡ ss
  keep_first cutoff [] c h = refl
  keep_first cutoff (s ∷ ss) c h =
      keep-All (is_retained cutoff) (s ∷ ss) (h, retained_after cutoff s ss h c.0)

  -- On a window in chronological order the fast path, the binary search and the copy together keep
  -- exactly the samples that are at or after the cutoff, in their order.
  pub gc_locked-eq-keep :
      (cutoff : ℕ) (samples : List (Sample F))
      → IsChronological samples
      → gc_locked cutoff samples ≡ keep (is_retained cutoff) samples
  unfolding gc_locked
  gc_locked-eq-keep cutoff samples c =
      let p = is_retained cutoff in
      let f = test_at p samples in
      let turn = search-IsTurn (length samples) f (chronological_mono cutoff samples c) in
      let idx = search (length samples) f in
      let cut = drop-eq-keep p samples idx turn.below turn.above in
      elim (Bool-cases (first_is_retained cutoff samples)) [
        | inl e ↦ rw e (sym (keep_first cutoff samples c e))
        | inr e ↦ elim (Bool-cases (leb (length samples) idx)) [
          | inl past ↦ rw (e, past) (sym (drop_past samples idx (ground arith)) ∙ cut)
          | inr inside ↦ rw (e, inside) cut
        ]
      ]
    where
      drop_past : (xs : List (Sample F)) (n : ℕ) → length xs ≤ n → drop n xs ≡ []
      drop_past [] zero h = refl
      drop_past [] (suc n) h = refl
      drop_past (x ∷ xs) zero h = absurd (omega arith)
      drop_past (x ∷ xs) (suc n) h = drop_past xs n (omega arith)
