-- ===== src/Manager/Pricing.antt =====
-- cmd/main.go: a pricing file that was named is never passed over.
use infercost.Base.{
  ◌≡◌, refl, sym, ap, ◌∙◌, ℕ, false, Option, some, String, str_eq, Result, ok, err, map_err, ◌>>=◌,
  arith,
}
use infercost.Float.{Float64}
use infercost.Calculator.Catalog.{
  PricingCatalog, validate, load_cloud_pricing_file, reading_failed, parsing_failed, not_valid,
}
use infercost.Utilization.Store.Bolt.{Bolt}
use infercost.Manager.{
  StoreFiles, ManagerFlags, ManagerCalls, Started, load_override, start_manager, pricing_failed,
  failed, manager_calls, new_power_sampler, run_calls,
}

-- a result that is no error passed each of its steps
ok_of_bind :
    {E A B : Type 0} (r : Result E A) (g : A → Result E B) (y : B)
    → (r >>= g) ≡ ok y
    → (x : A) × (r ≡ ok x) × (g x ≡ ok y)
ok_of_bind (ok x) g y h = (x, refl, h)
ok_of_bind (err e) g y h = ground (arith, h)

ok_inj : {E A : Type 0} (x y : A) → Path (Result E A) (ok x) (ok y) → x ≡ y
ok_inj x y h = cc

ok_of_map_err :
    {E E' A : Type 0} (wrap : E → E') (r : Result E A) (x : A) → map_err wrap r ≡ ok x → r ≡ ok x
ok_of_map_err wrap (ok a) x h = cc
ok_of_map_err wrap (err e) x h = ground (arith, h)

module _ {F : Type 0} ⦃f : Float64 F⦄ {E : Type 0} (to_lower : String → String)
    (read_file : String → Result E String) (parse : String → Result E (PricingCatalog F)) where
  load-valid :
      (path : String) (c : PricingCatalog F)
      → load_cloud_pricing_file to_lower read_file parse path ≡ ok c
      → validate to_lower c ≡ ok tt
  unfolding load_cloud_pricing_file
  load-valid path c h =
      let (text, read, h1) = ok_of_bind (map_err reading_failed (read_file path)) _ c h in
      let (d, parsed, h2) = ok_of_bind (map_err parsing_failed (parse text)) _ c h1 in
      let (u, checked, h3) = ok_of_bind (map_err not_valid (validate to_lower d)) _ c h2 in
      let valid = ok_of_map_err not_valid (validate to_lower d) u checked in
      let same = ok_inj d c h3 in cc

  -- of a file that is named
  override-valid :
      (path : String) (o : Option (PricingCatalog F))
      → str_eq path "" ≡ false
      → load_override to_lower read_file parse path ≡ ok o
      → (c : PricingCatalog F) × (o ≡ some c)
        × (load_cloud_pricing_file to_lower read_file parse path ≡ ok c)
        × (validate to_lower c ≡ ok tt)
  unfolding load_override
  override-valid path o named loaded =
      let (c, found, h) =
        ok_of_bind (map_err pricing_failed (load_cloud_pricing_file to_lower read_file parse path))
          _ o (rw named at loaded) in
      let from_file = ok_of_map_err pricing_failed _ c found in
      (c, sym (ok_inj (some c) o h), from_file, load-valid path c from_file)

module _ {F : Type 0} ⦃f : Float64 F⦄ {D : Type 0} ⦃b : Bolt D⦄ (files : StoreFiles D) {E : Type 0}
    (to_lower : String → String) (read_file : String → Result E String)
    (parse : String → Result E (PricingCatalog F)) where
  -- Where a pricing file is named, the manager only starts with a catalog that was read from it and
  -- is valid in place of the embedded list prices.
  pub start_manager-override :
      (flags : ManagerFlags) (calls : ManagerCalls) (now : ℕ) (started : Started D F)
      → str_eq flags.pricing_file "" ≡ false
      → start_manager files to_lower read_file parse flags calls now ≡ ok started
      → (c : PricingCatalog F) × (started.override ≡ some c)
        × (load_cloud_pricing_file to_lower read_file parse flags.pricing_file ≡ ok c)
        × (validate to_lower c ≡ ok tt)
  unfolding start_manager
  start_manager-override flags calls now started named h =
      let (o, loaded, h1) =
        ok_of_bind (load_override to_lower read_file parse flags.pricing_file) _ started h in
      let (m, made, h2) =
        ok_of_bind (map_err (failed "Failed to start manager") calls.new_manager) _ started h1 in
      let (p, sampled, h3) =
        ok_of_bind
          (map_err (failed "Failed to configure power sample store")
            (new_power_sampler files now flags.data_dir flags.sample_retention))
          _ started h2 in
      let (u, done, h4) = ok_of_bind (run_calls (manager_calls calls)) _ started h3 in
      let (c, same, from_file, valid) =
        override-valid to_lower read_file parse flags.pricing_file o named loaded in
      (c, sym (ap (λ (r : Started D F). r.override) (ok_inj _ started h4)) ∙ same, from_file, valid)
