-- ===== src/Message.antt =====
-- internal/report/message.go: `withCommas`, on the bytes of a decimal text.
pub mod Commas
pub mod Status
use infercost.Base.{
  ℕ, ◌==◌, ◌%◌, Bool, true, false, not, ◌&&◌, List, [], ◌∷◌, length, if◌then◌else◌,
}

abbrev pub comma : ℕ
comma = 44

abbrev pub minus : ℕ
minus = 45

-- the loop; `first` is `i == 0`, and `len(s)-i` is the length of what is left
unfoldable pub group_digits : Bool → List ℕ → List ℕ
group_digits first [] = []
group_digits first (c ∷ cs) =
    let rest = group_digits false cs in
    if not first && (length (c ∷ cs) % 3 == 0) then comma ∷ c ∷ rest else c ∷ rest

unfoldable pub with_commas : List ℕ → List ℕ
unfolding group_digits
with_commas [] = group_digits true []
with_commas (c ∷ cs) =
    let negative = minus ∷ group_digits true cs in
    let positive = group_digits true (c ∷ cs) in if c == minus then negative else positive
