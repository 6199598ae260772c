-- ===== src/Message/Status.antt =====
-- internal/report/message.go: `humanizeTokens` and `StatusMessage`. The decimal text of an `int64` is
-- the argument `format_int`; `decimal_byte` gives the bytes of a decimal text back as text.
use Prim.Native.String.{[], ◌∷◌}
use infercost.Base.{
  ℕ, ◌==◌, ◌&&◌, Bool, String, List, str_eq, cat, ltb, leb, i64_min, add_int64, if◌then◌else◌,
}
use infercost.Float.{Float64, of_int64}
use infercost.Scraper.Port.{codes}
use infercost.Message.{comma, minus, with_commas}
use infercost.Usage.BreakEven.{BreakEvenEntry}
use infercost.Usage.Status.{ReportStatus}

decimal_byte : ℕ → String
decimal_byte c =
    if c == comma
    then ","
    else if c == minus
    then "-"
    else if c == 48
    then "0"
    else if c == 49
    then "1"
    else if c == 50
    then "2"
    else if c == 51
    then "3"
    else if c == 52
    then "4"
    else if c == 53
    then "5"
    else if c == 54
    then "6"
    else if c == 55
    then "7"
    else if c == 56
    then "8"
    else if c == 57
    then "9"
    else ""

bytes_text : List ℕ → String
unfolding decimal_byte
bytes_text List.[] = ""
bytes_text (List.◌∷◌ c cs) = cat (decimal_byte c) (bytes_text cs)

-- `strings.TrimSuffix(s, ".0")`
unfoldable pub trim_point_zero : String → String
trim_point_zero [] = []
trim_point_zero (c ∷ s) =
    let rest = trim_point_zero s in if str_eq (c ∷ s) ".0" then [] else c ∷ rest

-- `n >= k` of an `int64` and a numeral
abbrev at_least : ℕ → ℕ → Bool
at_least n k = ltb n i64_min && leb k n

module _ (format_int : ℕ → String) where
  unfoldable pub commas_text : ℕ → String
  unfolding bytes_text with_commas
  commas_text n = bytes_text (with_commas (codes (format_int n)))

  unfoldable pub humanize_tokens : (F : Type 0) ⦃f : Float64 F⦄ → ℕ → String
  unfolding trim_point_zero
  humanize_tokens F ⦃f⦄ n =
      if at_least n 1000000
      then cat (trim_point_zero (f.fixed 1 (f.div (of_int64 n) (f.of_nat 1000000)))) "M"
      else if at_least n 1000
      then cat (trim_point_zero (f.fixed 1 (f.div (of_int64 n) (f.of_nat 1000)))) "K"
      else format_int n

  module _ {F : Type 0} ⦃f : Float64 F⦄ where
    marginal_line : F → String
    marginal_line marginal =
        if f.lt (f.of_nat 0) marginal
        then cat "\nMarginal: $" (cat (f.fixed 4 marginal) "/MTok.")
        else ""

    break_even_line : List (BreakEvenEntry F) → String
    unfolding humanize_tokens
    break_even_line List.[] = ""
    break_even_line (List.◌∷◌ be rest) = cat "\nBreak-even with " (
        cat be.provider (
          cat "/" (
            cat be.model (
              cat ": " (
                cat (humanize_tokens F be.break_even_tokens_per_day) (
                  cat " tokens/day (you served "
                    (cat (humanize_tokens F be.current_utilization_tokens_per_day) ").")))))))

    unfoldable pub status_message : ReportStatus F → String
    unfolding commas_text marginal_line break_even_line
    status_message status =
        let s = status.view in
        let total_tokens = add_int64 s.input_tokens s.output_tokens in
        let period = cat "Period " (
          cat s.period (
            cat ": $" (
              cat (f.fixed 4 s.total_cost)
                (cat " across " (cat (commas_text total_tokens) " tokens."))))) in
        let amortized = cat "\nAmortized: $" (
          cat (f.fixed 2 s.cost_per_million_tokens)
            (cat "/MTok at " (cat (f.fixed 0 s.utilization_percent) "% utilization."))) in
        cat period (
          cat amortized (
            cat (marginal_line s.marginal_cost_per_million_tokens)
              (break_even_line s.break_even_analysis)))
