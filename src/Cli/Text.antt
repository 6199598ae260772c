-- ===== src/Cli/Text.antt =====
-- pkg/cli/status.go: `formatAge`, and the lines of a text. Durations count nanoseconds and are not
-- negative; the decimal text of an `int` is the argument `format_int`.
use Prim.Native.String.{[], ◌∷◌}
use infercost.Base.{ℕ, ◌*◌, ◌/◌, ◌%◌, String, List, str_eq, cat, if◌then◌else◌, leb}
use infercost.Float.{Float64}
use infercost.Utilization.Sample.{hours, seconds, nanoseconds_per_hour}

abbrev nanoseconds_per_minute : ℕ
nanoseconds_per_minute = 60000000000

-- in front of the first text
abbrev prepend : String → List String → List String
prepend c List.[] = List.◌∷◌ c List.[]
prepend c (List.◌∷◌ s ss) = List.◌∷◌ (cat c s) ss

-- `strings.SplitSeq(s, "\n")`
unfoldable pub split_lines : String → List String
split_lines [] = List.◌∷◌ "" List.[]
split_lines (c ∷ s) =
    let rest = split_lines s in
    if str_eq (c ∷ []) "\n" then List.◌∷◌ "" rest else prepend (c ∷ []) rest

module _ (format_int : ℕ → String) where
  -- `Duration.Minutes` is written out
  unfoldable pub format_age : (F : Type 0) ⦃f : Float64 F⦄ → ℕ → String
  format_age F ⦃f⦄ d =
      let minutes =
        f.add (f.of_nat (d / nanoseconds_per_minute))
          (f.div (f.of_nat (d % nanoseconds_per_minute)) (f.of_nat nanoseconds_per_minute)) in
      if leb (24 * nanoseconds_per_hour) d
      then cat (format_int (f.to_int64 (f.div (hours d) (f.of_nat 24)))) "d"
      else if leb nanoseconds_per_hour d
      then cat (format_int (f.to_int64 (hours d))) "h"
      else if leb nanoseconds_per_minute d
      then cat (format_int (f.to_int64 minutes)) "m"
      else cat (format_int (f.to_int64 (seconds d))) "s"
