-- ===== src/Text.antt =====
-- Python's `str` and `bytes` as lists of code points and of bytes, with the methods that the
-- scripts use. `count`, `replace` and `split` scan from the left for a separator that is not empty.
pub mod Occurs
pub mod Split
pub mod Replace
pub mod Equal
pub mod Listed
pub mod Utf8
pub mod Slice
pub mod Lines
pub mod Decimal
use Prim.Native.Char.{code}
use capybaragram_build.Prelude.{
  ℕ, zero, suc, ◌-◌, String, Bool, true, false, List, [], ◌∷◌, ◌++◌, ◌==◌, length, drop, take, ◌+◌,
  Option, none, some,
}

abbrev pub Text : Type 0
Text = List ℕ

abbrev pub codes : String → Text
codes String.[] = []
codes (String.◌∷◌ c s) = code c ∷ codes s

-- `text.startswith(old)`
unfoldable pub is_prefix : Text → Text → Bool
is_prefix [] t = true
is_prefix (x ∷ xs) [] = false
is_prefix (x ∷ xs) (y ∷ ys) = elim (x == y) [ true ↦ is_prefix xs ys | false ↦ false ]

-- `a == b`
unfoldable pub text_eq : Text → Text → Bool
text_eq [] [] = true
text_eq [] (y ∷ ys) = false
text_eq (x ∷ xs) [] = false
text_eq (x ∷ xs) (y ∷ ys) = elim (x == y) [ true ↦ text_eq xs ys | false ↦ false ]

abbrev pub cons_head : ℕ → List Text → List Text
cons_head c [] = (c ∷ []) ∷ []
cons_head c (p ∷ ps) = (c ∷ p) ∷ ps

-- The scan of `text.split(old)`, which first passes over `skip` characters of an occurrence.
unfoldable pub pieces_from : Text → ℕ → Text → List Text
pieces_from old skip [] = [] ∷ []
pieces_from old (suc skip) (c ∷ cs) = pieces_from old skip cs
pieces_from old zero (c ∷ cs) = elim (is_prefix old (c ∷ cs)) [
  | true ↦ [] ∷ pieces_from old (length old - 1) cs
  | false ↦ cons_head c (pieces_from old 0 cs)
]

-- `text.split(old)`
abbrev pub pieces : Text → Text → List Text
pieces old text = pieces_from old 0 text

-- `new.join(parts)`
unfoldable pub join : Text → List Text → Text
join new [] = []
join new (p ∷ []) = p
join new (p ∷ q ∷ qs) = p ++ (new ++ join new (q ∷ qs))

-- `text.count(old)`
unfoldable pub count : Text → Text → ℕ
count old text = length (pieces old text) - 1

-- `text.replace(old, new)`
unfoldable pub replace_all : Text → Text → Text → Text
replace_all old new text = join new (pieces old text)

-- The first place of `part`; the search goes on to the end of the text.
unfoldable pub find : Text → Text → Option ℕ
unfolding is_prefix
find part [] = elim (is_prefix part []) [ true ↦ some 0 | false ↦ none ]
find part (c ∷ cs) = elim (is_prefix part (c ∷ cs)) [
  | true ↦ some 0
  | false ↦ elim (find part cs) [ none ↦ none | some i ↦ some (suc i) ]
]

-- `part in text`
unfoldable pub contains : Text → Text → Bool
unfolding find
contains part text = elim (find part text) [ none ↦ false | some i ↦ true ]

-- `text.replace(old, new, 1)`
unfoldable pub replace_first : Text → Text → Text → Text
unfolding find
replace_first old new text = elim (find old text) [
  | none ↦ text
  | some i ↦ take i text ++ (new ++ drop (i + length old) text)
]

-- Lines joined by line feeds: a literal of several lines.
abbrev pub block : List String → Text
block [] = []
block (s ∷ []) = codes s
block (s ∷ t ∷ ts) = codes s ++ (10 ∷ block (t ∷ ts))

abbrev pub newline : Text
newline = 10 ∷ []

-- `raw.replace(b'\r\n', b'\n')`
unfoldable pub normalized : Text → Text
unfolding replace_all
normalized raw = replace_all (13 ∷ 10 ∷ []) newline raw

-- `name in names`
unfoldable pub listed : Text → List Text → Bool
unfolding text_eq
listed name [] = false
listed name (n ∷ ns) = elim (text_eq name n) [ true ↦ true | false ↦ listed name ns ]

-- `text.endswith(tail)`
unfoldable pub is_suffix : Text → Text → Bool
unfolding text_eq
is_suffix tail [] = text_eq tail []
is_suffix tail (c ∷ cs) = elim (text_eq tail (c ∷ cs)) [ true ↦ true | false ↦ is_suffix tail cs ]
