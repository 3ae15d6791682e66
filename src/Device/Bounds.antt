-- ===== src/Device/Bounds.antt =====
-- The bounds of an element: `re.fullmatch(r'\[(\d+),(\d+)\]\[(\d+),(\d+)\]', text)` and
-- `map(int, match.groups())`. `digit` gives the value of a decimal digit.
use capybaragram_build.Prelude.{ℕ, ◌+◌, ◌*◌, true, false, [], ◌∷◌, Option, none, some, ◌==◌}
use capybaragram_build.Text.{Text, codes}

infixl 5 ◌>>=◌
abbrev ◌>>=◌ : {A B : Type 0} → Option A → (A → Option B) → Option B
none >>= f = none
some a >>= f = f a

pub record Box : Type 0 where
  pub x1 : ℕ
  pub y1 : ℕ
  pub x2 : ℕ
  pub y2 : ℕ

-- The text behind a mark that it starts with.
unfoldable pub skip : Text → Text → Option Text
skip [] text = some text
skip (m ∷ ms) [] = none
skip (m ∷ ms) (c ∷ cs) = elim (m == c) [ true ↦ skip ms cs | false ↦ none ]

unfoldable pub end : Text → Option (Unit {0})
end [] = some tt
end (c ∷ cs) = none

module _ (digit : ℕ → Option ℕ) where
  -- The digits at the start of a text, behind a number: the number they write, and the rest.
  unfoldable pub digits_from : ℕ → Text → ℕ × Text
  digits_from n [] = (n, [])
  digits_from n (c ∷ cs) = elim (digit c) [
    | none ↦ (n, c ∷ cs)
    | some d ↦ digits_from (n * 10 + d) cs
  ]

  -- `(\d+)`
  unfoldable pub number : Text → Option (ℕ × Text)
  unfolding digits_from
  number [] = none
  number (c ∷ cs) = elim (digit c) [ none ↦ none | some d ↦ some (digits_from d cs) ]

  unfoldable pub box : Text → Option Box
  unfolding number skip end
  box text = do
    t0 ← skip (codes "[") text
    (x1, t1) ← number t0
    t2 ← skip (codes ",") t1
    (y1, t3) ← number t2
    t4 ← skip (codes "][") t3
    (x2, t5) ← number t4
    t6 ← skip (codes ",") t5
    (y2, t7) ← number t6
    t8 ← skip (codes "]") t7
    done ← end t8
    some (record { x1 = x1; y1 = y1; x2 = x2; y2 = y2 })
