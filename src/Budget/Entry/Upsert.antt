-- ===== src/Budget/Entry/Upsert.antt =====
-- When an update of the API store replaces a budget's entry, and when it adds one more.
use infercost.Base.{
  ℕ, zero, suc, ◌+◌, ◌≡◌, refl, sym, ap, ◌∙◌, ◌&&◌, if◌then◌else◌, Option, none, some, true, false,
  String, List, [], ◌∷◌, str_eq, str_eq_refl, any, length, arith, Bool-cases, inl, inr,
}
use infercost.Api.Store.{Store, BudgetData, get_budgets, set_budgets}
use infercost.Budget.Entry.{TokenBudget, entry_of, is_entry_of, upsert, update_api_store}

module _ {F : Type 0} where
  entry_of-found :
      (b : TokenBudget F) (status : String)
      → b.scope_namespace ≡ b.namespace
      → is_entry_of b (entry_of b status) ≡ true
  unfolding entry_of
  entry_of-found b status h = rw (h, str_eq_refl b.name, str_eq_refl b.namespace)

  entry_of-missed :
      (b : TokenBudget F) (status : String)
      → str_eq b.scope_namespace b.namespace ≡ false
      → is_entry_of b (entry_of b status) ≡ false
  unfolding entry_of
  entry_of-missed b status h = rw (str_eq_refl b.name, h)

  -- one budget at two times
  abbrev pub IsSameBudget : TokenBudget F → TokenBudget F → Type 0
  IsSameBudget a b = (a.name ≡ b.name) × (a.namespace ≡ b.namespace)

  is_entry_of-same :
      (a b : TokenBudget F) (e : BudgetData F)
      → IsSameBudget a b
      → is_entry_of a e ≡ is_entry_of b e
  is_entry_of-same a b e (n, ns) = rw (n, ns) refl

  upsert-upsert :
      (a b : TokenBudget F) (old new : String) (es : List (BudgetData F))
      → IsSameBudget a b
      → a.scope_namespace ≡ a.namespace
      → upsert b new (upsert a old es) ≡ upsert b new es
  unfolding upsert
  upsert-upsert a b old new [] same h =
      rw (sym (is_entry_of-same a b (entry_of a old) same) ∙ entry_of-found a old h) refl
  upsert-upsert a b old new (e ∷ es) same h = elim (Bool-cases (is_entry_of b e)) [
    | inl hit ↦
        let found = sym (is_entry_of-same a b (entry_of a old) same) ∙ entry_of-found a old h in
        rw (is_entry_of-same a b e same ∙ hit, hit) (rw found refl)
    | inr miss ↦
        rw (is_entry_of-same a b e same ∙ miss, miss)
          (ap (◌∷◌ e) (upsert-upsert a b old new es same h))
  ]

  -- the first entry with the name and the namespace
  abbrev pub lookup : String → String → List (BudgetData F) → Option (BudgetData F)
  lookup name namespace [] = none
  lookup name namespace (e ∷ es) =
      if str_eq e.name name && str_eq e.namespace namespace
      then some e
      else lookup name namespace es

  -- what the API is to show of a budget
  abbrev pub shown : TokenBudget F → String → BudgetData F
  shown b status = record {
    name = b.name;
    namespace = b.namespace;
    monthly_limit_usd = b.monthly_limit_usd;
    current_spend_usd = b.current_spend_usd;
    utilization_percent = b.utilization_percent;
    status = status;
  }

  entry_of-shown :
      (b : TokenBudget F) (status : String)
      → b.scope_namespace ≡ b.namespace
      → entry_of b status ≡ shown b status
  unfolding entry_of
  entry_of-shown b status h = rw h refl

  lookup-upsert :
      (b : TokenBudget F) (status : String) (es : List (BudgetData F))
      → b.scope_namespace ≡ b.namespace
      → lookup b.name b.namespace (upsert b status es) ≡ some (shown b status)
  unfolding upsert
  lookup-upsert b status [] h = rw (entry_of-found b status h) (ap some (entry_of-shown b status h))
  lookup-upsert b status (e ∷ es) h = elim (Bool-cases (is_entry_of b e)) [
    | inl hit ↦ rw hit (rw (entry_of-found b status h) (ap some (entry_of-shown b status h)))
    | inr miss ↦ rw miss (rw miss (lookup-upsert b status es h))
  ]

  -- Two updates of a budget that lives in the namespace of its scope, between which its limit, its
  -- spend and its utilization may have changed, leave the store as the second alone would, whatever
  -- it held before; the first entry in it under the budget's name and namespace has the limit, the
  -- spend, the utilization and the status of the second update.
  pub update_api_store-replaces :
      (store : Store F) (a b : TokenBudget F) (old new : String)
      → IsSameBudget a b
      → a.scope_namespace ≡ a.namespace
      → b.scope_namespace ≡ b.namespace
      → let twice = update_api_store (update_api_store store a old) b new in
        (twice ≡ update_api_store store b new)
        × (lookup b.name b.namespace twice.budgets ≡ some (shown b new))
  unfolding update_api_store
  update_api_store-replaces store a b old new same h k = (
    ap (set_budgets store) (upsert-upsert a b old new (get_budgets store) same h),
    lookup-upsert b new (upsert a old (get_budgets store)) k,
  )

  -- so many updates, one after the other
  abbrev pub update_times : ℕ → Store F → TokenBudget F → String → Store F
  update_times zero store b status = store
  update_times (suc n) store b status = update_api_store (update_times n store b status) b status

  upsert-missed :
      (b : TokenBudget F) (status : String) (es : List (BudgetData F))
      → str_eq b.scope_namespace b.namespace ≡ false
      → any (is_entry_of b) es ≡ false
      → (length (upsert b status es) ≡ length es + 1)
        × (any (is_entry_of b) (upsert b status es) ≡ false)
  unfolding upsert
  upsert-missed b status [] h m = (omega arith, rw (entry_of-missed b status h))
  upsert-missed b status (e ∷ es) h m = elim (Bool-cases (is_entry_of b e)) [
    | inl hit ↦ let bad : true ≡ false = rw hit at m in cc
    | inr miss ↦
        let (grown, still) = upsert-missed b status es h (rw miss at m) in
        rw (miss, miss) (omega arith, still)
  ]

  update_times-missed :
      (n : ℕ) (store : Store F) (b : TokenBudget F) (status : String)
      → str_eq b.scope_namespace b.namespace ≡ false
      → any (is_entry_of b) store.budgets ≡ false
      → (length (update_times n store b status).budgets ≡ length store.budgets + n)
        × (any (is_entry_of b) (update_times n store b status).budgets ≡ false)
  unfolding update_api_store
  update_times-missed zero store b status h m = (omega arith, m)
  update_times-missed (suc n) store b status h m =
      let (grown, still) = update_times-missed n store b status h m in
      let (more, yet) = upsert-missed b status (update_times n store b status).budgets h still in
      (omega arith, yet)

  -- A budget whose scope is another namespace than its own is looked for by its own namespace and
  -- stored under its scope. If the store has no entry by the name in the budget's own namespace,
  -- each update adds one more entry: `n` updates make the list longer by `n`.
  pub update_api_store-grows :
      (n : ℕ) (store : Store F) (b : TokenBudget F) (status : String)
      → str_eq b.scope_namespace b.namespace ≡ false
      → any (is_entry_of b) store.budgets ≡ false
      → length (update_times n store b status).budgets ≡ length store.budgets + n
  update_api_store-grows n store b status h m = (update_times-missed n store b status h m).0
