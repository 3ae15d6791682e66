-- ===== src/Text/Lines.antt =====
-- `splitlines`, `strip`, `lstrip`, `rstrip` and joining lines.
use capybaragram_build.Prelude.{
  ℕ, Bool, true, false, ◌&&◌, ◌||◌, List, [], ◌∷◌, ◌==◌, leb, if◌then◌else◌,
}
use capybaragram_build.Text.{Text, cons_head}

-- The characters that end a line for `str.splitlines`.
unfoldable pub is_line_end : ℕ → Bool
is_line_end c =
    (leb 10 c && leb c 13)
    || ((leb 28 c && leb c 30) || ((c == 0x85) || ((c == 0x2028) || (c == 0x2029))))

-- `text.splitlines()`; `after_cr` says that a carriage return has just ended a line.
unfoldable pub lines_from : Bool → Text → List Text
unfolding is_line_end
lines_from after_cr [] = []
lines_from after_cr (c ∷ cs) = elim (after_cr && (c == 10)) [
  | true ↦ lines_from false cs
  | false ↦ elim (is_line_end c) [
    | true ↦ [] ∷ lines_from (c == 13) cs
    | false ↦ cons_head c (lines_from false cs)
  ]
]

unfoldable pub splitlines : Text → List Text
unfolding lines_from
splitlines text = lines_from false text

-- The white space that `str.strip` takes off.
unfoldable pub is_space : ℕ → Bool
is_space c =
    (leb 9 c && leb c 13)
    || ((leb 28 c && leb c 32)
        || ((c == 0x85)
            || ((c == 0xA0)
                || ((c == 0x1680)
                    || ((leb 0x2000 c && leb c 0x200A)
                        || ((c == 0x2028)
                            || ((c == 0x2029)
                                || ((c == 0x202F) || ((c == 0x205F) || (c == 0x3000))))))))))

unfoldable pub lstrip : Text → Text
unfolding is_space
lstrip [] = []
lstrip (c ∷ cs) = elim (is_space c) [ true ↦ lstrip cs | false ↦ c ∷ cs ]

unfoldable pub rstrip : Text → Text
unfolding is_space
rstrip [] = []
rstrip (c ∷ cs) = elim (rstrip cs) [
  | [] ↦ (if is_space c then [] else c ∷ [])
  | d ∷ ds ↦ c ∷ d ∷ ds
]

-- `text.strip()`
unfoldable pub strip : Text → Text
unfolding lstrip rstrip
strip text = rstrip (lstrip text)
