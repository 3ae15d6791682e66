-- ===== src/Speech.antt =====
-- ci/speech-vosk/worker.py: the scoring of a transcript against its reference, word by word.
pub mod Distance
pub mod Alignments
pub mod Words
pub mod Lifecycle
use capybaragram_build.Prelude.{ℕ, zero, suc, ◌+◌, min, Bool, true, false, List, [], ◌∷◌, length}
use capybaragram_build.Text.{Text, text_eq}

-- `expected != heard`, as a number
unfoldable pub cost : Text → Text → ℕ
unfolding text_eq
cost expected heard = elim (text_eq expected heard) [ true ↦ 0 | false ↦ 1 ]

-- `list(range(from, from + n))`
unfoldable pub range : ℕ → ℕ → List ℕ
range from zero = []
range from (suc n) = from ∷ range (suc from) n

-- The inner loop: `diagonal` is `previous[j-1]`, `left` is `current[j-1]`, and the list of numbers is
-- `previous[j:]`.
unfoldable pub fill_row : Text → ℕ → ℕ → List ℕ → List Text → List ℕ
unfolding cost
fill_row expected diagonal left [] actual = []
fill_row expected diagonal left (above ∷ previous) [] = []
fill_row expected diagonal left (above ∷ previous) (heard ∷ actual) =
    let cell = min (min (above + 1) (left + 1)) (diagonal + cost expected heard) in
    cell ∷ fill_row expected above cell previous actual

-- One round of the outer loop: the row after `previous` for the word at `index`.
unfoldable pub next_row : Text → ℕ → List ℕ → List Text → List ℕ
unfolding fill_row
next_row expected index [] actual = index ∷ []
next_row expected index (diagonal ∷ previous) actual =
    index ∷ fill_row expected diagonal index previous actual

unfoldable pub rows : List Text → ℕ → List ℕ → List Text → List ℕ
unfolding next_row
rows [] index previous actual = previous
rows (expected ∷ reference) index previous actual =
    rows reference (suc index) (next_row expected index previous actual) actual

-- `previous[-1]`
unfoldable pub last : List ℕ → ℕ
last [] = 0
last (x ∷ []) = x
last (x ∷ y ∷ ys) = last (y ∷ ys)

unfoldable pub edit_count : List Text → List Text → ℕ
unfolding rows range last
edit_count reference actual = last (rows reference 1 (range 0 (length actual + 1)) actual)
