-- ===== src/Cli/Discovery/Port.antt =====
-- The port that `resolveEndpointIP` of pkg/cli/discovery.go takes.
use infercost.Base.{ℕ, ◌≡◌, refl, Bool, false, String, List, [], ◌∷◌, ◌++◌, ◌||◌, str_eq, All}
use infercost.Cli.Discovery.{EndpointPort, endpoint_port}

module _ (equal_fold : String → String → Bool) where
  -- no port of these is named http
  abbrev pub IsUnnamed : EndpointPort → Type 0
  IsUnnamed p = (str_eq p.name "http" || equal_fold p.name "http") ≡ false

  -- Where no port is named http, the loop takes the last port, whatever ports come before it.
  pub endpoint_port-last :
      (start : ℕ) (ps : List EndpointPort) (last : EndpointPort)
      → All IsUnnamed ps
      → IsUnnamed last
      → endpoint_port equal_fold start (ps ++ (last ∷ [])) ≡ last.port
  unfolding endpoint_port
  endpoint_port-last start [] last h hl = rw hl refl
  endpoint_port-last start (p ∷ ps) last (hp, hps) hl =
      rw hp (endpoint_port-last p.port ps last hps hl)
