-- ===== src/Scraper/Port.antt =====
-- internal/scraper/backend.go: `parsePort` and `ResolveMetricsPort`. The text of a port is walked as
-- `fmt.Sscanf` with `%d` does over ASCII: spaces are skipped (a newline is an error), one sign is
-- taken, then the longest run of digits; what follows it is not read.
use Prim.Native.Char.{code}
use infercost.Base.{
  ℕ, ◌+◌, ◌-◌, ◌*◌, ◌≤◌, ◌≡◌, Bool, true, false, ◌&&◌, ◌||◌, Option, none, some, String, List, [],
  ◌∷◌, ◌++◌, arith, ltb, leb, ◌==◌, if◌then◌else◌, All, i64_min,
}
use infercost.Scraper.Backend.{Labels, Backend, metrics_port_annotation, default_port}

abbrev pub codes : String → List ℕ
codes String.[] = []
codes (String.◌∷◌ c s) = code c ∷ codes s

abbrev pub is_digit : ℕ → Bool
is_digit c = leb b'0' c && leb c b'9'

-- a space that `Sscanf` skips: tab, vertical tab, form feed, carriage return, blank
abbrev is_skipped : ℕ → Bool
is_skipped c = c == 32 || c == 9 || (leb 11 c && leb c 13)

skip_space : List ℕ → List ℕ
skip_space [] = []
skip_space (c ∷ cs) = let rest = skip_space cs in if is_skipped c then rest else c ∷ cs

-- the value of the leading digits, after the value `acc` of those already read
scan_digits : ℕ → List ℕ → ℕ
scan_digits acc [] = acc
scan_digits acc (c ∷ cs) =
    let rest = scan_digits (acc * 10 + (c - b'0')) cs in if is_digit c then rest else acc

-- A number has at least one digit, and an `int` is 64 bits wide.
scan_number : List ℕ → Option ℕ
scan_number [] = none
scan_number (c ∷ cs) =
    let value = scan_digits 0 (c ∷ cs) in
    if is_digit c then (if ltb value i64_min then some value else none) else none

-- The value of `%d` where it is not negative. A negative number and an error are both `none`: the
-- caller returns false for either.
scan_int : List ℕ → Option ℕ
scan_int [] = none
scan_int (c ∷ cs) =
    if c == b'-' then none else (if c == b'+' then scan_number cs else scan_number (c ∷ cs))

in_port_range : Option ℕ → Option ℕ
in_port_range none = none
in_port_range (some p) = if leb p 0 || ltb 65535 p then none else some p

unfoldable pub parse_port : List ℕ → Option ℕ
unfolding skip_space scan_int scan_number scan_digits in_port_range
parse_port s = in_port_range (scan_int (skip_space s))

-- an override, read where the key is present
override_port : Option String → Option ℕ
unfolding parse_port
override_port none = none
override_port (some v) = parse_port (codes v)

port_or : Option ℕ → Option ℕ → ℕ → ℕ
port_or (some p) q d = p
port_or none (some q) d = q
port_or none none d = d

unfoldable pub resolve_metrics_port : Backend → Labels → Labels → ℕ
unfolding override_port port_or
resolve_metrics_port backend annotations labels =
    port_or (override_port (annotations metrics_port_annotation))
      (override_port (labels metrics_port_annotation)) (default_port backend)

abbrev IsPort : ℕ → Type 0
IsPort p = (1 ≤ p) × (p ≤ 65535)

abbrev IsPortOption : Option ℕ → Type 0
IsPortOption none = Unit
IsPortOption (some p) = IsPort p

in_port_range-IsPort : (o : Option ℕ) → IsPortOption (in_port_range o)
unfolding in_port_range
in_port_range-IsPort none = tt
in_port_range-IsPort (some p) = ground arith

override_port-IsPort : (o : Option String) → IsPortOption (override_port o)
unfolding override_port
override_port-IsPort none = tt
override_port-IsPort (some v) = in_port_range-IsPort (scan_int (skip_space (codes v)))

port_or-IsPort :
    (a b : Option ℕ) (d : ℕ) → IsPortOption a → IsPortOption b → IsPort d → IsPort (port_or a b d)
unfolding port_or
port_or-IsPort (some p) b d h k l = h
port_or-IsPort none (some q) d h k l = k
port_or-IsPort none none d h k l = l

default_port-IsPort : (b : Backend) → IsPort (default_port b)
unfolding default_port
default_port-IsPort b = ground arith

-- Whatever the overrides hold, the metrics port lies between 1 and 65535.
pub resolve_metrics_port-IsPort :
    (backend : Backend) (annotations labels : Labels)
    → (1 ≤ resolve_metrics_port backend annotations labels)
      × (resolve_metrics_port backend annotations labels ≤ 65535)
unfolding resolve_metrics_port
resolve_metrics_port-IsPort backend annotations labels =
    port_or-IsPort (override_port (annotations metrics_port_annotation))
      (override_port (labels metrics_port_annotation)) (default_port backend)
      (override_port-IsPort (annotations metrics_port_annotation))
      (override_port-IsPort (labels metrics_port_annotation)) (default_port-IsPort backend)

scan_digits-append :
    (acc : ℕ) (ds junk : List ℕ) (c : ℕ)
    → All (λ d. is_digit d ≡ true) ds
    → is_digit c ≡ false
    → scan_digits acc (ds ++ (c ∷ junk)) ≡ scan_digits acc ds
unfolding scan_digits
scan_digits-append acc [] junk c h n = ground arith
scan_digits-append acc (d ∷ ds) junk c h n =
    ground (arith, scan_digits-append (acc * 10 + (d - b'0')) ds junk c)

-- What follows the digits is not read: a text of digits with any junk behind it, such as `80x`, is
-- the same port as the digits alone.
pub parse_port_junk :
    (d : ℕ) (ds junk : List ℕ) (c : ℕ)
    → All (λ x. is_digit x ≡ true) (d ∷ ds)
    → is_digit c ≡ false
    → parse_port ((d ∷ ds) ++ (c ∷ junk)) ≡ parse_port (d ∷ ds)
unfolding parse_port
parse_port_junk d ds junk c h n = ground (arith, scan_digits-append 0 (d ∷ ds) junk c h n)
