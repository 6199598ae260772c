-- ===== src/Usage/Status/Skipped.antt =====
-- When `applyStatusIfChanged` writes a status and when it skips the write.
use infercost.Base.{
  str_lt, ℕ, ◌≡◌, refl, sym, ap, ◌∙◌, Bool, true, false, not, ◌||◌, Option, none, some, String,
  List, [], ◌∷◌, map, length, length-map, str_eq, str_eq_refl, str_eq_iff, ==_iff, if◌then◌else◌,
  arith, Bool-cases, inl, inr,
}
use infercost.Budget.Condition.{SetCondition, IsSetCondition}
use infercost.Focus.Export.Shape.{length-sort_slice}
use infercost.Usage.Status.{
  ComputedStatus, ReportStatus, Applied, skipped, same_texts, sort_strings, and_then,
  condition_transitioned, model_text, namespace_text, usage_report_status_content_equal, new_status,
  write_unless, apply_status_if_changed, ready_condition,
}

same_texts_refl : (xs : List String) → same_texts xs xs ≡ some true
unfolding same_texts
same_texts_refl [] = refl
same_texts_refl (x ∷ xs) = rw (str_eq_refl x, same_texts_refl xs) refl

same_texts→eq :
    (xs ys : List String) → length xs ≡ length ys → same_texts xs ys ≡ some true → xs ≡ ys
unfolding same_texts
same_texts→eq [] [] l h = refl
same_texts→eq [] (y ∷ ys) l h = let bad : ⊥ = omega (arith, l) in elim bad [ ]
same_texts→eq (x ∷ xs) [] l h = let bad : ⊥ = omega (arith, l) in elim bad [ ]
same_texts→eq (x ∷ xs) (y ∷ ys) l h = elim (Bool-cases (str_eq x y)) [
  | inl e ↦
      let same = (str_eq_iff x y).0 e in
      let rest = same_texts→eq xs ys (omega (arith, l)) (rw e at h) in cc
  | inr e ↦ ground (arith, h, e)
]

same_texts_returns :
    (xs ys : List String) → length xs ≡ length ys → (b : Bool) × (same_texts xs ys ≡ some b)
unfolding same_texts
same_texts_returns [] ys l = (true, refl)
same_texts_returns (x ∷ xs) [] l = let bad : ⊥ = omega (arith, l) in elim bad [ ]
same_texts_returns (x ∷ xs) (y ∷ ys) l = elim (Bool-cases (str_eq x y)) [
  | inl e ↦ let (b, h) = same_texts_returns xs ys (omega (arith, l)) in (b, rw e h)
  | inr e ↦ (false, rw e refl)
]

length-texts :
    {A : Type 0} (f : A → String) (xs : List A) → length (sort_strings (map f xs)) ≡ length xs
length-texts f xs = length-sort_slice str_lt (map f xs) ∙ length-map f xs

texts_return :
    {A : Type 0} (f : A → String) (xs ys : List A)
    → length xs ≡ length ys
    → (b : Bool) × (same_texts (sort_strings (map f xs)) (sort_strings (map f ys)) ≡ some b)
texts_return f xs ys l = same_texts_returns _ _ (length-texts f xs ∙ l ∙ sym (length-texts f ys))

-- the tests of `usageReportStatusContentEqual`, in their order
pass_tests :
    (a b c d e : Bool) (m n : Option Bool)
    → (if not a
        then some false
        else if not b || not c
        then some false
        else if not d || not e
        then some false
        else and_then m n)
      ≡ some true
    → (a ≡ true)
      × (b ≡ true)
      × (c ≡ true)
      × (d ≡ true)
      × (e ≡ true)
      × (m ≡ some true)
      × (n ≡ some true)
pass_tests true true true true true (some true) n h = (refl, refl, refl, refl, refl, refl, h)
pass_tests a b c d e m n h = ground arith

-- the condition did not change and the contents are equal
pass_skip :
    {F : Type 0} (changed : Bool) (equal : Option Bool) (ok : Bool) (s : ReportStatus F)
    → write_unless changed equal ok s ≡ some skipped
    → equal ≡ some true
pass_skip true equal true s h = ground arith
pass_skip true equal false s h = ground arith
pass_skip false none ok s h = ground arith
pass_skip false (some true) ok s h = refl
pass_skip false (some false) true s h = ground arith
pass_skip false (some false) false s h = ground arith

and_then_returns :
    (m n : Option Bool) (b c : Bool)
    → m ≡ some b
    → n ≡ some c
    → (d : Bool) × (and_then m n ≡ some d)
and_then_returns m n true c h k = (c, rw (h, k) refl)
and_then_returns m n false c h k = (false, rw h refl)

-- the lists are compared only where the tests before them pass
tests_return :
    (a b c d e : Bool) (o : Option Bool)
    → (d ≡ true → e ≡ true → (r : Bool) × (o ≡ some r))
    → (r : Bool) × ((if not a
          then some false
          else if not b || not c
          then some false
          else if not d || not e
          then some false
          else o)
        ≡ some r)
tests_return false b c d e o h = (false, refl)
tests_return true false c d e o h = (false, refl)
tests_return true true false d e o h = (false, refl)
tests_return true true true false e o h = (false, refl)
tests_return true true true true false o h = (false, refl)
tests_return true true true true true o h = h refl refl

write_unless_returns :
    {F : Type 0} (changed : Bool) (ok b : Bool) (s : ReportStatus F)
    → (a : Applied F) × (write_unless changed (some b) ok s ≡ some a)
write_unless_returns true ok b s = (_, refl)
write_unless_returns false ok true s = (skipped, refl)
write_unless_returns false ok false s = (_, refl)

module _ (format_int : ℕ → String) {F : Type 0} where
  -- the same period, tokens and breakdowns, whatever the costs and the instants
  abbrev pub IsSameWork : ComputedStatus F → ComputedStatus F → Type 0
  IsSameWork a b =
      (a.period ≡ b.period)
      × (a.input_tokens ≡ b.input_tokens)
      × (a.output_tokens ≡ b.output_tokens)
      × (sort_strings (map (model_text format_int) a.by_model)
          ≡ sort_strings (map (model_text format_int) b.by_model))
      × (sort_strings (map (namespace_text format_int) a.by_namespace)
          ≡ sort_strings (map (namespace_text format_int) b.by_namespace))

  pub content_equal_of_work :
      (a b : ComputedStatus F)
      → IsSameWork a b
      → usage_report_status_content_equal format_int a b ≡ some true
  unfolding usage_report_status_content_equal
  content_equal_of_work a b (p, i, o, m, n) =
      let many : length a.by_model ≡ length b.by_model =
        sym (length-texts (model_text format_int) a.by_model)
        ∙ ap length m
        ∙ length-texts (model_text format_int) b.by_model in
      let spaces : length a.by_namespace ≡ length b.by_namespace =
        sym (length-texts (namespace_text format_int) a.by_namespace)
        ∙ ap length n
        ∙ length-texts (namespace_text format_int) b.by_namespace in
      rw
        (
          p,
          i,
          o,
          m,
          n,
          many,
          spaces,
          str_eq_refl b.period,
          (==_iff b.input_tokens b.input_tokens).1 refl,
          (==_iff b.output_tokens b.output_tokens).1 refl,
          (==_iff (length b.by_model) (length b.by_model)).1 refl,
          (==_iff (length b.by_namespace) (length b.by_namespace)).1 refl,
          same_texts_refl (sort_strings (map (model_text format_int) b.by_model)),
          same_texts_refl (sort_strings (map (namespace_text format_int) b.by_namespace)),
        )
        refl

  pub work_of_content_equal :
      (a b : ComputedStatus F)
      → usage_report_status_content_equal format_int a b ≡ some true
      → IsSameWork a b
  unfolding usage_report_status_content_equal
  work_of_content_equal a b h =
      let (p, i, o, many, spaces, m, n) = pass_tests _ _ _ _ _ _ _ h in
      (
        (str_eq_iff a.period b.period).0 p,
        (==_iff a.input_tokens b.input_tokens).0 i,
        (==_iff a.output_tokens b.output_tokens).0 o,
        same_texts→eq _ _
            (length-texts (model_text format_int) a.by_model
              ∙ (==_iff (length a.by_model) (length b.by_model)).0 many
              ∙ sym (length-texts (model_text format_int) b.by_model))
            m,
        same_texts→eq _ _
            (length-texts (namespace_text format_int) a.by_namespace
              ∙ (==_iff (length a.by_namespace) (length b.by_namespace)).0 spaces
              ∙ sym (length-texts (namespace_text format_int) b.by_namespace))
            n,
      )

  content_equal_returns :
      (a b : ComputedStatus F)
      → (r : Bool) × (usage_report_status_content_equal format_int a b ≡ some r)
  unfolding usage_report_status_content_equal
  content_equal_returns a b = tests_return _ _ _ _ _ _ λ many spaces.
      let (m, hm) =
        texts_return (model_text format_int) a.by_model b.by_model
          ((==_iff (length a.by_model) (length b.by_model)).0 many) in
      let (n, hn) =
        texts_return (namespace_text format_int) a.by_namespace b.by_namespace
          ((==_iff (length a.by_namespace) (length b.by_namespace)).0 spaces) in
      and_then_returns _ _ m n hm hn

  module _ (set : SetCondition) (status_message : ReportStatus F → String) where
    -- Applying a view never indexes out of range, whatever was stored before: it skips the write,
    -- writes, or reports that the update failed.
    pub apply_status_if_changed_returns :
        (update_ok : Bool) (now : ℕ) (previous : ReportStatus F) (c : ComputedStatus F)
        → (a : Applied F) × (apply_status_if_changed format_int set status_message update_ok now
              previous c
            ≡ some a)
    unfolding apply_status_if_changed
    apply_status_if_changed_returns update_ok now previous c =
        let (r, h) = content_equal_returns previous.view c in
        rw h (
          write_unless_returns
            (condition_transitioned previous.conditions
              (new_status format_int set status_message now previous c).conditions "Ready")
            update_ok r (new_status format_int set status_message now previous c))

    -- Where the write is skipped, the stored status has the period, the tokens and the breakdowns
    -- of the new view: no change of the work is ever left unwritten.
    pub apply_status_if_changed-skipped :
        (update_ok : Bool) (now : ℕ) (previous : ReportStatus F) (c : ComputedStatus F)
        → apply_status_if_changed format_int set status_message update_ok now previous c
          ≡ some skipped
        → IsSameWork previous.view c
    unfolding apply_status_if_changed
    apply_status_if_changed-skipped update_ok now previous c h =
        work_of_content_equal previous.view c (pass_skip _ _ _ _ h)

    -- After a status was written, a view of the same work is not written again, also where costs,
    -- rates or instants differ or the breakdowns come in another order: the controller does not
    -- trigger itself.
    pub apply_status_if_changed-again :
        (laws : IsSetCondition set) (update_ok : Bool) (now later : ℕ) (previous : ReportStatus F)
        (c d : ComputedStatus F)
        → IsSameWork c d
        → apply_status_if_changed format_int set status_message update_ok later
            (new_status format_int set status_message now previous c)
            d
          ≡ some skipped
    unfolding apply_status_if_changed condition_transitioned
    apply_status_if_changed-again laws update_ok now later previous c d same =
        let s = new_status format_int set status_message now previous c in
        rw
          (
            laws.find_same previous.conditions (
                ready_condition
                  (status_message (record previous { view = c; last_updated = now }))),
            laws.find_same s.conditions
                (ready_condition (status_message (record s { view = d; last_updated = later }))),
            content_equal_of_work c d same,
          )
          refl
