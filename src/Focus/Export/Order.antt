-- ===== src/Focus/Export/Order.antt =====
-- internal/focus/focus.go: the order of the rows.
use mathlib.Core.Path.{ap₂}
use mathlib.Core.Bool.{false≢true}
use mathlib.Core.List.{Perm, Permᴰ, Pairwise, mem-cons_self, not-mem-nil}
use mathlib.Core.List.Permᴰ
use mathlib.Core.Logic.{∥∥₁_elim}
use infercost.Base.{
  Option, map, Bool, true, false, ◌≡◌, refl, sym, ap, ◌∙◌, List, [], ◌∷◌, ◌⊎◌, inl, inr, Bool-cases,
  String, str_eq, str_lt, str_lt_trans, str_lt-asymm, str_lt_connected, if◌then◌else◌, not, ◌&&◌,
  str_eq_iff, str_ne_symm,
}
use infercost.Float.{Float64}
use infercost.Focus.Row.{
  Calendar, UsageReport, ModelCostBreakdown, CostProfile, columns, row_from_model, row_from_totals,
}
use infercost.Focus.Best.{best_cloud_comparison}
use infercost.Focus.Export.{
  sort_slice, profile_or_zero, rows_for_models, rows_for_report, report_less, model_less,
  ExportInput, write, write_reports,
}
use infercost.Focus.Export.Sorted.{IsScalar-set, IsStrict, sort_slice-permᴰ}

-- the first text decides, the second where the first texts are one
abbrev lex_less : String → String → String → String → Bool
lex_less a b x y = if not (str_eq a b) then str_lt a b else str_lt x y

abbrev IsLexBefore : String → String → String → String → Type 0
IsLexBefore a b x y = (str_lt a b ≡ true) ⊎ ((a ≡ b) × (str_lt x y ≡ true))

lex_less_iff : (a b x y : String) → lex_less a b x y ≡ true → IsLexBefore a b x y
lex_less_iff a b x y h = elim (Bool-cases (str_eq a b)) [
  | inl e ↦ inr ((str_eq_iff a b).0 e, rw e at h)
  | inr e ↦ inl (rw e at h)
]

str_lt_irrefl : (a : String) → str_lt a a ≡ false
str_lt_irrefl a = elim (Bool-cases (str_lt a a)) [ inl e ↦ str_lt-asymm a a e | inr e ↦ e ]

lex_less_of : (a b x y : String) → IsLexBefore a b x y → lex_less a b x y ≡ true
lex_less_of a b x y (inl h) = elim (Bool-cases (str_eq a b)) [
  | inl e ↦ let same = (str_eq_iff a b).0 e in let never = str_lt_irrefl a in absurd (false≢true cc)
  | inr e ↦ rw e h
]
lex_less_of a b x y (inr (e, h)) = rw ((str_eq_iff a b).1 e) h

lex_less_trans :
    (a b c x y z : String)
    → lex_less a b x y ≡ true
    → lex_less b c y z ≡ true
    → lex_less a c x z ≡ true
lex_less_trans a b c x y z p q =
    lex_less_of a c x z (go (lex_less_iff a b x y p) (lex_less_iff b c y z q))
  where
    go : IsLexBefore a b x y → IsLexBefore b c y z → IsLexBefore a c x z
    go (inl h) (inl k) = inl (str_lt_trans a b c h k)
    go (inl h) (inr (e, k)) = inl cc
    go (inr (e, h)) (inl k) = inl cc
    go (inr (e, h)) (inr (g, k)) = inr (e ∙ g, str_lt_trans x y z h k)

not_lex_before : (a x : String) → IsLexBefore a a x x → ⊥
not_lex_before a x (inl h) = false≢true (sym (str_lt_irrefl a) ∙ h)
not_lex_before a x (inr (_, h)) = false≢true (sym (str_lt_irrefl x) ∙ h)

lex_less-asymm : (a b x y : String) → lex_less a b x y ≡ true → lex_less b a y x ≡ false
lex_less-asymm a b x y h = elim (Bool-cases (lex_less b a y x)) [
  | inr e ↦ e
  | inl e ↦ absurd (not_lex_before a x (lex_less_iff a a x x (lex_less_trans a b a x y x h e)))
]

lex_less_connected :
    (a b x y : String) → lex_less a b x y ≡ false → lex_less b a y x ≡ false → (a ≡ b) × (x ≡ y)
lex_less_connected a b x y h k = elim (Bool-cases (str_eq a b)) [
  | inl e ↦
      let same = (str_eq_iff a b).0 e in
      let back = (str_eq_iff b a).1 (sym same) in
      (same, str_lt_connected x y (rw e at h) (rw back at k))
  | inr e ↦
      let same = str_lt_connected a b (rw e at h) (rw (str_ne_symm a b e) at k) in
      absurd (false≢true (sym e ∙ (str_eq_iff a b).1 same))
]

str_eq_symm : (a b : String) → str_eq a b ≡ str_eq b a
str_eq_symm a b = elim (Bool-cases (str_eq a b)) [
  | inl e ↦ e ∙ sym ((str_eq_iff b a).1 (sym ((str_eq_iff a b).0 e)))
  | inr e ↦ e ∙ sym (str_ne_symm a b e)
]

apart_symm :
    (a b x y : String) → (str_eq a b && str_eq x y) ≡ false → (str_eq b a && str_eq y x) ≡ false
apart_symm a b x y h = ap₂ ◌&&◌ (str_eq_symm b a) (str_eq_symm y x) ∙ h

told_of_lex :
    {A : Type 0} (u v : A) (a b x y : String)
    → (str_eq a b && str_eq x y) ≡ false
    → (lex_less a b x y ≡ true) ⊎ (lex_less b a y x ≡ true) ⊎ (u ≡ v)
told_of_lex u v a b x y h = elim (Bool-cases (lex_less a b x y)) [
  | inl e ↦ inl e
  | inr e ↦ elim (Bool-cases (lex_less b a y x)) [
    | inl g ↦ inr (inl g)
    | inr g ↦
        let (one, other) = lex_less_connected a b x y e g in
        absurd (false≢true (sym (rw ((str_eq_iff a b).1 one, (str_eq_iff x y).1 other) at h)))
  ]
]

module _ {F : Type 0} where
  -- two reports that the cluster may hold at once
  abbrev pub HasOtherName : UsageReport F → UsageReport F → Type 0
  HasOtherName a b = (str_eq a.namespace b.namespace && str_eq a.name b.name) ≡ false

  abbrev pub HasOtherModel : ModelCostBreakdown F → ModelCostBreakdown F → Type 0
  HasOtherModel a b = (str_eq a.namespace b.namespace && str_eq a.model b.model) ≡ false

  pub HasOtherName-symm : (a b : UsageReport F) → HasOtherName a b → HasOtherName b a
  HasOtherName-symm a b = apart_symm a.namespace b.namespace a.name b.name

  HasOtherModel-symm : (a b : ModelCostBreakdown F) → HasOtherModel a b → HasOtherModel b a
  HasOtherModel-symm a b = apart_symm a.namespace b.namespace a.model b.model

  report_less-IsStrict : IsStrict (report_less {F = F})
  report_less-IsStrict = record {
    trans = λ a b c. lex_less_trans a.namespace b.namespace c.namespace a.name b.name c.name;
    asymm = λ a b. lex_less-asymm a.namespace b.namespace a.name b.name;
  }

  model_less-IsStrict : IsStrict (model_less {F = F})
  model_less-IsStrict = record {
    trans = λ a b c. lex_less_trans a.namespace b.namespace c.namespace a.model b.model c.model;
    asymm = λ a b. lex_less-asymm a.namespace b.namespace a.model b.model;
  }

module _ (calendar : Calendar) {F : Type 0} ⦃f : Float64 F⦄ where
  -- a row does not read the other reports
  write_reports-input :
      (profiles : String → Option (CostProfile F)) (region : String)
      (xs ys rs : List (UsageReport F))
      → write_reports calendar (record { reports = xs; profiles = profiles; region = region }) rs
        ≡ write_reports calendar (record { reports = ys; profiles = profiles; region = region }) rs
  unfolding write_reports rows_for_report
  write_reports-input profiles region xs ys [] = refl
  write_reports-input profiles region xs ys (r ∷ rs) =
      rw (write_reports-input profiles region xs ys rs) refl

  -- For given profiles, the file does not depend on the order of the reports, where no two of them have
  -- one namespace and one name.
  pub write-perm :
      (profiles : String → Option (CostProfile F)) (region : String) {xs ys : List (UsageReport F)}
      → Perm xs ys
      → Pairwise HasOtherName xs
      → write calendar (record { reports = xs; profiles = profiles; region = region })
        ≡ write calendar (record { reports = ys; profiles = profiles; region = region })
  unfolding write
  write-perm profiles region {xs} {ys} p h = ∥∥₁_elim p (hlevel IsScalar-set) (λ q.
      ap
        (λ (rs : List (UsageReport F)).
          columns
          ∷ write_reports calendar (record { reports = xs; profiles = profiles; region = region })
              rs)
        (sort_slice-permᴰ report_less-IsStrict HasOtherName (hlevel) HasOtherName-symm
          (λ a b. told_of_lex a b a.namespace b.namespace a.name b.name) q h)
      ∙ ap (◌∷◌ columns) (write_reports-input profiles region xs ys (sort_slice report_less ys)))

  rows_for_models-perm :
      (r : UsageReport F) (profile : CostProfile F) (region : String)
      (ms ns : List (ModelCostBreakdown F))
      → Permᴰ ms ns
      → Pairwise HasOtherModel ms
      → rows_for_models calendar r profile region ms
        ≡ rows_for_models calendar (record r { by_model = ns }) profile region ns
  unfolding rows_for_models row_from_model row_from_totals
  rows_for_models-perm r profile region [] [] p h = refl
  rows_for_models-perm r profile region [] (n ∷ ns) p h =
      absurd (not-mem-nil (Permᴰ.mem (Permᴰ.symm p) mem-cons_self))
  rows_for_models-perm r profile region (m ∷ ms) [] p h =
      absurd (not-mem-nil (Permᴰ.mem p mem-cons_self))
  rows_for_models-perm r profile region (m ∷ ms) (n ∷ ns) p h =
      ap
        (map λ (k : ModelCostBreakdown F).
          row_from_model calendar r k profile region (best_cloud_comparison r.cloud_comparison))
        (sort_slice-permᴰ model_less-IsStrict HasOtherModel (hlevel) HasOtherModel-symm
          (λ a b. told_of_lex a b a.namespace b.namespace a.model b.model) p h)

  -- Nor do a report's rows depend on the order of its models, where no two of them have one namespace
  -- and one name.
  pub rows_for_report-perm :
      (input : ExportInput F) (r : UsageReport F) {ms : List (ModelCostBreakdown F)}
      → Perm r.by_model ms
      → Pairwise HasOtherModel r.by_model
      → rows_for_report calendar r input
        ≡ rows_for_report calendar (record r { by_model = ms }) input
  unfolding rows_for_report
  rows_for_report-perm input r {ms} p h = ∥∥₁_elim p (hlevel IsScalar-set) (λ q.
      rows_for_models-perm r (profile_or_zero calendar (input.profiles r.cost_profile_ref))
        input.region r.by_model ms q h)
