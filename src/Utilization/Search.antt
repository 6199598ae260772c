-- ===== src/Utilization/Search.antt =====
-- The standard library's `sort.Search`, by which `gcLocked` finds the first retained sample.
use infercost.Base.{
  ℕ, zero, suc, ◌+◌, ◌-◌, ◌/◌, ◌≤◌, ◌<◌, ◌≡◌, Bool, true, false, arith, ltb, ltb→lt, ltb→le,
  if◌then◌else◌, Bool-cases, inl, inr,
}

-- `for i < j { h := (i + j) / 2; if !f(h) { i = h + 1 } else { j = h } }`, on fuel
unfoldable pub search_loop : ℕ → (ℕ → Bool) → ℕ → ℕ → ℕ
search_loop zero f i j = i
search_loop (suc fuel) f i j =
    let h = (i + j) / 2 in
    let right = search_loop fuel f (h + 1) j in
    let left = search_loop fuel f i h in if ltb i j then (if f h then left else right) else i

-- The range halves at each round, so `n` rounds are more than enough.
unfoldable pub search : ℕ → (ℕ → Bool) → ℕ
unfolding search_loop
search n f = search_loop n f 0 n

-- `f` turns from false to true once below `n`
abbrev pub IsMonotone : ℕ → (ℕ → Bool) → Type 0
IsMonotone n f = (i k : ℕ) → i ≤ k → k < n → f i ≡ true → f k ≡ true

-- `r` is where it turns
pub record IsTurn (n : ℕ) (f : ℕ → Bool) (r : ℕ) : Type 0 where
  pub within : r ≤ n
  pub below : (k : ℕ) → k < r → f k ≡ false
  pub above : (k : ℕ) → r ≤ k → k < n → f k ≡ true

module _ (n : ℕ) (f : ℕ → Bool) (mono : IsMonotone n f) where
  search_loop-IsTurn :
      (fuel i j : ℕ)
      → j - i ≤ fuel
      → i ≤ j
      → j ≤ n
      → ((k : ℕ) → k < i → f k ≡ false)
      → ((k : ℕ) → j ≤ k → k < n → f k ≡ true)
      → IsTurn n f (search_loop fuel f i j)
  unfolding search_loop
  search_loop-IsTurn zero i j m o b low high = record {
    within = omega arith;
    below = low;
    above = λ k h l. high k (omega arith) l;
  }
  search_loop-IsTurn (suc fuel) i j m o b low high =
      let h = (i + j) / 2 in
      elim (Bool-cases (ltb i j)) [
        | inl go ↦
            let lt = ltb→lt i j go in
            elim (Bool-cases (f h)) [
              | inl e ↦
                  rw (go, e)
                    (search_loop-IsTurn fuel i h (omega arith) (omega arith) (omega arith) low
                      (λ k p q. mono h k p q e))
              | inr e ↦
                  rw (go, e)
                    (search_loop-IsTurn fuel (h + 1) j (omega arith) (omega arith) b
                      (λ k p. elim (Bool-cases (f k)) [
                        | inl t ↦ let u = mono k h (omega arith) (omega arith) t in cc
                        | inr t ↦ t
                      ])
                      high)
            ]
        | inr stop ↦
            let le = ltb→le i j stop in
            rw stop (record {
              within = omega arith;
              below = low;
              above = λ k p q. high k (omega arith) q;
            })
      ]

  -- `sort.Search` on a test that turns from false to true finds where it turns, or `n`.
  pub search-IsTurn : IsTurn n f (search n f)
  unfolding search
  search-IsTurn =
      search_loop-IsTurn n 0 n (omega arith) (omega arith) (omega arith)
        (λ k p. absurd (omega arith)) (λ k p q. absurd (omega arith))
