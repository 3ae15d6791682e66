-- ===== src/Apk/Flags.antt =====
-- `require_disabled_flag` of ci/collect_android.py. `word` stands for the characters of `\w`, and
-- `lower` for `str.lower`: the Unicode tables.
use capybaragram_build.Prelude.{
  ℕ, zero, suc, ◌-◌, Bool, true, false, ◌||◌, List, [], ◌∷◌, ◌++◌, Option, none, some, ◌==◌, length,
  every, if◌then◌else◌, Result, ok, err, value_error, runtime_error, runtime_error_at, ◌>>◌,
  require,
}
use capybaragram_build.Text.{Text, codes, text_eq, listed, replace_all}
use capybaragram_build.Text.Lines.{lstrip, strip}

unfoldable pub flags : List Text
flags = codes "testOnly" ∷ codes "debuggable" ∷ codes "allowBackup" ∷ []

-- The text behind a start that it has.
unfoldable pub behind : Text → Text → Option Text
behind [] text = some text
behind (m ∷ ms) [] = none
behind (m ∷ ms) (c ∷ cs) = elim (m == c) [ true ↦ behind ms cs | false ↦ none ]

-- The text behind the first `)`.
unfoldable pub behind_paren : Text → Option Text
behind_paren [] = none
behind_paren (c ∷ cs) = elim (c == b')') [ true ↦ some cs | false ↦ behind_paren cs ]

-- `(?:\([^)]*\))?`
unfoldable pub group : Text → Text
unfolding behind_paren
group [] = []
group (c ∷ cs) = elim (c == b'(') [
  | true ↦ elim (behind_paren cs) [ none ↦ c ∷ cs | some rest ↦ rest ]
  | false ↦ c ∷ cs
]

abbrev is_break : ℕ → Bool
is_break c = (c == 13) || (c == 10)

-- `[^\r\n]*`, and what follows it
unfoldable pub line : Text → Text × Text
line [] = ([], [])
line (c ∷ cs) = let rest = line cs in if is_break c then ([], c ∷ cs) else (c ∷ rest.0, rest.1)

-- The last character that ends no line, alone, and what follows it: how far the pattern goes back
-- into white space at the end of the text.
unfoldable pub last_inline : Text → Option (Text × Text)
last_inline [] = none
last_inline (c ∷ cs) = elim (last_inline cs) [
  | some found ↦ some found
  | none ↦ (if is_break c then none else some (c ∷ [], cs))
]

-- `\s*([^\r\n]+)`: the value, and what follows it
unfoldable pub capture : Text → Option (Text × Text)
unfolding lstrip line last_inline
capture text = elim (lstrip text) [ [] ↦ last_inline text | c ∷ cs ↦ some (line (c ∷ cs)) ]

-- `(?:\([^)]*\))?\s*=\s*([^\r\n]+)`
unfoldable pub assigned : Text → Option (Text × Text)
unfolding group lstrip behind capture
assigned text = elim (behind (codes "=") (lstrip (group text))) [
  | none ↦ none
  | some rest ↦ capture rest
]

-- The whole pattern, at a place that a word character does or does not precede.
unfoldable pub match_at : Text → Bool → Text → Option (Text × Text)
unfolding behind assigned
match_at name true text = none
match_at name false text = elim (behind (codes "android:" ++ name) text) [
  | none ↦ none
  | some rest ↦ assigned rest
]

module _ (word : ℕ → Bool) (lower : Text → Text) where
  -- `re.findall`, which first passes over `skip` characters of a match; `inside` says whether a word
  -- character stands before.
  unfoldable pub values_from : Text → ℕ → Bool → Text → List Text
  unfolding match_at
  values_from name skip inside [] = []
  values_from name (suc skip) inside (c ∷ cs) = values_from name skip (word c) cs
  values_from name zero inside (c ∷ cs) = elim (match_at name inside (c ∷ cs)) [
    | none ↦ values_from name 0 (word c) cs
    | some (value, rest) ↦ value ∷ values_from name (length cs - length rest) (word c) cs
  ]

  -- `value != 'false' and not re.fullmatch(r'\(type0x12\)0x0+',value)`, negated
  unfoldable pub is_false : Text → Bool
  unfolding text_eq behind every
  is_false value = text_eq value (codes "false") || elim (behind (codes "(type0x12)0x0") value) [
    | none ↦ false
    | some rest ↦ every (λ c. c == b'0') rest
  ]

  unfoldable pub require_values : Text → List Text → Result (Unit {0})
  unfolding text_eq is_false strip replace_all
  require_values name [] = elim (text_eq name (codes "allowBackup")) [
    | true ↦ err (runtime_error "APK must explicitly disable allowBackup.")
    | false ↦ ok tt
  ]
  require_values name (value ∷ []) =
      require (is_false (replace_all (codes " ") [] (lower (strip value))))
        (runtime_error_at "APK manifest must disable " name)
  require_values name (v ∷ w ∷ values) =
      err (runtime_error_at "Ambiguous attributes in signed APK manifest: " name)

  unfoldable pub require_disabled_flag : Text → Text → Result (Unit {0})
  unfolding listed values_from require_values
  require_disabled_flag manifest name = do
    require (listed name flags) (value_error "Unexpected manifest flag")
    require_values name (values_from name 0 false manifest)
