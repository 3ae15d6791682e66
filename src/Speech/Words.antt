-- ===== src/Speech/Words.antt =====
-- `words` of ci/speech-vosk/worker.py. `lower` stands for `str.lower`, `is_letter` for a Unicode
-- category that starts with L, and `is_number` for the category Nd: the Unicode tables.
use capybaragram_build.Prelude.{
  ℕ, Bool, true, false, ◌||◌, List, [], ◌∷◌, map, length, leb, ◌≡◌, refl, ◌⊎◌, inl, inr, All,
  Bool-cases, if◌then◌else◌, Result, ok, assertion_error, ◌>>◌, require, require-eq-ok, subst,
}
use capybaragram_build.Text.{Text, codes, replace_all, cons_head}
use capybaragram_build.Text.Lines.{is_space}
use capybaragram_build.Text.Split.{IsFull}

-- How one more character in front of `cs` changes the words of `cs`.
unfoldable pub add_char : ℕ → Text → List Text → List Text
add_char c [] rest = if is_space c then [] else (c ∷ []) ∷ []
add_char c (d ∷ ds) rest =
    if is_space c then rest else if is_space d then (c ∷ []) ∷ rest else cons_head c rest

-- `text.split()`
unfoldable pub fields : Text → List Text
unfolding add_char
fields [] = []
fields (c ∷ cs) = add_char c cs (fields cs)

module _ (is_letter is_number : ℕ → Bool) where
  -- `c if category(c).startswith('L') or category(c) == 'Nd' else ' '`
  unfoldable pub keep : ℕ → ℕ
  keep c = if is_letter c || is_number c then c else 32

  -- `words(text)`, and its bound of 500 words.
  unfoldable pub words : (Text → Text) → Text → Result (List Text)
  unfolding keep fields
  words lower text = do
    let lowered = replace_all (codes "ё") (codes "е") (lower text)
    let value = fields (map keep lowered)
    require (leb (length value) 500) (assertion_error "assert len(value) <= 500")
    ok value

-- A word of the split: not empty, and no character of it is a space.
abbrev pub IsWord : (ℕ → Type 0) → Text → Type 0
IsWord P w = IsFull w × All P w

cons_head-IsWord :
    (P : ℕ → Type 0) (c : ℕ) (ws : List Text)
    → P c
    → All (IsWord P) ws
    → All (IsWord P) (cons_head c ws)
unfolding cons_head IsFull
cons_head-IsWord P c [] p h = ((tt, (p, tt)), tt)
cons_head-IsWord P c (w ∷ ws) p ((_, h), hs) = ((tt, (p, h)), hs)

if_keeps :
    (Q : List Text → Type 0) (b : Bool) (x y : List Text) → Q x → Q y → Q (if b then x else y)
if_keeps Q true x y p q = p
if_keeps Q false x y p q = q

add_char-IsWord :
    (P : ℕ → Type 0) (c : ℕ) (cs : Text) (rest : List Text)
    → P c ⊎ (is_space c ≡ true)
    → All (IsWord P) rest
    → All (IsWord P) (add_char c cs rest)
unfolding add_char
add_char-IsWord P c [] rest (inr s) h = rw (s) tt
add_char-IsWord P c (d ∷ ds) rest (inr s) h = rw (s) h
add_char-IsWord P c [] rest (inl p) h =
    if_keeps (All (IsWord P)) (is_space c) [] ((c ∷ []) ∷ []) tt ((tt, (p, tt)), tt)
add_char-IsWord P c (d ∷ ds) rest (inl p) h =
    let more =
      if_keeps (All (IsWord P)) (is_space d) ((c ∷ []) ∷ rest) (cons_head c rest) ((tt, (p, tt)), h)
        (cons_head-IsWord P c rest p h) in
    if_keeps (All (IsWord P)) (is_space c) rest _ h more

fields-IsWord :
    (P : ℕ → Type 0) (text : Text)
    → All (λ c. P c ⊎ (is_space c ≡ true)) text
    → All (IsWord P) (fields text)
unfolding fields
fields-IsWord P [] h = tt
fields-IsWord P (c ∷ cs) (p, h) = add_char-IsWord P c cs (fields cs) p (fields-IsWord P cs h)

-- What a kept character is: a letter, or a decimal digit.
abbrev pub Kept : (ℕ → Bool) → (ℕ → Bool) → ℕ → Type 0
Kept is_letter is_number c = (is_letter c || is_number c) ≡ true

keep-Kept :
    (is_letter is_number : ℕ → Bool) (text : Text)
    → All
        (λ c. Kept is_letter is_number c ⊎ (is_space c ≡ true))
        (map (keep is_letter is_number) text)
unfolding keep is_space
keep-Kept l n [] = tt
keep-Kept l n (c ∷ cs) = (
  elim (Bool-cases (l c || n c)) [ inl e ↦ inl (rw (e) e) | inr e ↦ inr (rw (e) refl) ],
  keep-Kept l n cs,
)

-- If the text has at most 500 words, each word that is compared is not empty and consists of
-- letters and decimal digits only.
pub words-IsWord :
    (lower : Text → Text) (is_letter is_number : ℕ → Bool) (text : Text) (ws : List Text)
    → words is_letter is_number lower text ≡ ok ws
    → All (IsWord (Kept is_letter is_number)) ws
unfolding words
words-IsWord lower l n text ws h =
    let lowered = replace_all (codes "ё") (codes "е") (lower text) in
    let ws' = fields (map (keep l n) lowered) in
    let (_, same) =
      require-eq-ok (leb (length ws') 500) (assertion_error "assert len(value) <= 500") (ok ws')
        h in
    let e : ws' ≡ ws = cc same in
    subst (All (IsWord (Kept l n))) e
      (fields-IsWord (Kept l n) (map (keep l n) lowered) (keep-Kept l n lowered))
