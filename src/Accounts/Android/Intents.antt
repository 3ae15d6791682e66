-- ===== src/Accounts/Android/Intents.antt =====
-- The `re.subn` of ci/accounts/android_accounts_patch.py, which binds pending intents to an account:
-- (PendingIntent\.get(?:Broadcast|Activity|Service)\(ApplicationLoader\.applicationContext, [^,\n]+, )
-- (\w+)(, PendingIntent\.)
use capybaragram_build.Prelude.{
  ℕ, zero, suc, ◌+◌, ◌-◌, Bool, true, false, not, ◌||◌, [], ◌∷◌, ◌++◌, ◌==◌, length, take, drop,
  Option, none, some, ◌≡◌, refl,
}
use capybaragram_build.Text.{Text, codes, is_prefix}

infixl 5 ◌>>=◌
abbrev ◌>>=◌ {ℓ κ} : {A : Type ℓ} {B : Type κ} → Option A → (A → Option B) → Option B
none >>= f = none
some a >>= f = f a

-- The rest of the text behind a literal.
eat : Text → Text → Option Text
unfolding is_prefix
eat part text = elim (is_prefix part text) [ true ↦ some (drop (length part) text) | false ↦ none ]

-- The longest run of characters of a class, and the rest; a run is not empty.
span : (ℕ → Bool) → Text → Text × Text
span class [] = ([], [])
span class (c ∷ cs) = elim (class c) [
  | true ↦ (let (run, rest) = span class cs in (c ∷ run, rest))
  | false ↦ ([], c ∷ cs)
]

run : (ℕ → Bool) → Text → Option (Text × Text)
unfolding span
run class text = let (a, b) = span class text in elim a [ [] ↦ none | c ∷ cs ↦ some (c ∷ cs, b) ]

kind : Text → Option Text
unfolding eat
kind text = elim (eat (codes "Broadcast") text) [
  | some rest ↦ some rest
  | none ↦ elim (eat (codes "Activity") text) [
    | some rest ↦ some rest
    | none ↦ eat (codes "Service") text
  ]
]

-- A match at the start of the text: the text of the second group, and the rest behind the match.
-- Neither class holds a comma, so the longest run is the only one that a comma can follow.
match_intent : (ℕ → Bool) → Text → Option (Text × Text)
unfolding eat run kind
match_intent is_word text = do
  kinds ← eat (codes "PendingIntent.get") text
  arguments ← kind kinds
  code ← eat (codes "(ApplicationLoader.applicationContext, ") arguments
  (number, second) ← run (λ c. not ((c == b',') || (c == 10))) code
  word ← eat (codes ", ") second
  (intent, third) ← run is_word word
  rest ← eat (codes ", PendingIntent.") third
  some (intent, rest)

-- What `subn` puts for a match whose text is `text` less `rest`.
bound : Text → Text → Text → Text
bound text intent rest =
    let before =
      length text - (length rest + (length intent + length (codes ", PendingIntent."))) in
    take before text
    ++ (codes "NotificationAccountBinding.bind("
        ++ (intent ++ (codes ", currentAccount)" ++ codes ", PendingIntent.")))

-- `re.subn`: the text with each match replaced from the left, and how many there were; `skip`
-- characters belong to the last match.
subn_from : (ℕ → Bool) → ℕ → Text → Text × ℕ
unfolding match_intent bound
subn_from is_word skip [] = ([], 0)
subn_from is_word (suc skip) (c ∷ cs) = subn_from is_word skip cs
subn_from is_word zero (c ∷ cs) = elim (match_intent is_word (c ∷ cs)) [
  | some (intent, rest) ↦
      let (out, found) = subn_from is_word (length cs - length rest) cs in
      (bound (c ∷ cs) intent rest ++ out, suc found)
  | none ↦ let (out, found) = subn_from is_word 0 cs in (c ∷ out, found)
]

unfoldable pub bind_intents : (ℕ → Bool) → Text → Text × ℕ
unfolding subn_from
bind_intents is_word text = subn_from is_word 0 text

sample :
    bind_intents
      (λ c. not ((c == b',') || (c == 32)))
      (codes
        "x = PendingIntent.getActivity(ApplicationLoader.applicationContext, 0, intent, PendingIntent.FLAG);")
    ≡ (
      codes
          "x = PendingIntent.getActivity(ApplicationLoader.applicationContext, 0, NotificationAccountBinding.bind(intent, currentAccount), PendingIntent.FLAG);",
      1,
    )
unfolding bind_intents
sample = refl
