-- ===== src/Speech/Lifecycle.antt =====
-- The two cycles of ci/speech-vosk-source/lifecycle_worker.py: a model is loaded, a recognizer is
-- made of it and reads the samples, and both are freed in the `finally`. `Library` stands for the native
-- library, the JSON parser, the tables of `words`, and the file system: each answers by the calls so far.
pub mod Freed
use capybaragram_build.Prelude.{
  ℕ, zero, suc, ◌+◌, Bool, true, false, not, ◌&&◌, ◌||◌, List, [], ◌∷◌, ◌++◌, Option, none, some,
  leb, ◌==◌, length, take, drop, if◌then◌else◌, Result, ok, err,
}
use capybaragram_build.Text.{Text, codes, join}
use capybaragram_build.Text.Lines.{strip}
use capybaragram_build.Speech.{edit_count}

-- A handle is a number; `none` is the null pointer.
pub data Call : Type 0 where
  model_new : Option ℕ → Call
  model_free : ℕ → Call
  recognizer_new : ℕ → Option ℕ → Call
  recognizer_free accept result final_result : ℕ → Call
  saved : Bool → Call
  observed : Text → Call

-- The newest call first.
abbrev pub Trace : Type 0
Trace = List Call

pub record Library : Type 0 where
  -- what `vosk_model_new` and `vosk_recognizer_new` give
  pub load : Trace → Option ℕ
  pub make : Trace → Option ℕ
  -- what `vosk_recognizer_accept_waveform` gives, and the texts of the recognizer
  pub status : Trace → ℕ
  pub answer : Trace → Option Text
  -- `json.loads(value.decode('utf8'))`, where the result is an object whose only field is a text
  pub parse : Text → Option Text
  -- `words(text)`
  pub words : Text → Option (List Text)
  -- whether the report can be written
  pub writes : Trace → Bool

-- `none` is an exception.
abbrev pub Action : Type 0 → Type 0
Action A = Trace → Option A × Trace

module _ {A B : Type 0} where
  unfoldable pub next : Option A → (A → Action B) → Action B
  next none f t = (none, t)
  next (some a) f t = f a t

  infixl 5 ◌>>=◌ ◌>>◌
  unfoldable pub ◌>>=◌ : Action A → (A → Action B) → Action B
  unfolding next
  ◌>>=◌ m f t = let (r, t') = m t in next r f t'

  abbrev pub ◌>>◌ : Action A → Action B → Action B
  m >> n = m >>= λ _. n

unfoldable pub return : {A : Type 0} → A → Action A
return a t = (some a, t)

unfoldable pub raise : {A : Type 0} → Action A
raise t = (none, t)

unfoldable pub call : Call → Action (Unit {0})
call c t = (some tt, c ∷ t)

unfoldable pub demand : Bool → Action (Unit {0})
demand true t = (some tt, t)
demand false t = (none, t)

unfoldable pub given : {A : Type 0} → Option A → Action A
given o t = (o, t)

unfoldable pub choose : {A : Type 0} → Bool → Action A → Action A → Action A
choose true m n = m
choose false m n = n

unfoldable pub both : {A : Type 0} → Option A → Option (Unit {0}) → Option A
both r none = none
both r (some u) = r

unfoldable pub finally : {A : Type 0} → Action A → Action (Unit {0}) → Action A
unfolding both
finally m last t = let (r, t') = m t in let (q, t'') = last t' in (both r q, t'')

-- The chunks of 6,400 bytes, by fuel; the length of the samples is enough.
unfoldable pub chunks : ℕ → Text → List Text
chunks zero pcm = []
chunks (suc fuel) [] = []
chunks (suc fuel) (b ∷ bs) = take 6400 (b ∷ bs) ∷ chunks fuel (drop 6400 (b ∷ bs))

-- The write of a report, by whether it succeeds.
unfoldable pub written : Bool → Bool → Action (Unit {0})
written true complete t = (some tt, saved complete ∷ t)
written false complete t = (none, t)

module _ (l : Library) where
  -- `save(complete, phase)`; what was saved before stays if the write fails
  unfoldable pub save : Bool → Action (Unit {0})
  unfolding written
  save complete t = written (l.writes t) complete t

  unfoldable pub load_model : Action (Option ℕ)
  load_model t = (some (l.load t), model_new (l.load t) ∷ t)

  unfoldable pub make_recognizer : ℕ → Action (Option ℕ)
  make_recognizer model t = (some (l.make t), recognizer_new model (l.make t) ∷ t)

  -- `text(value)` of what a call of the recognizer gives
  unfoldable pub text_of : (ℕ → Call) → ℕ → Action Text
  text_of kind rec = do
    value ← λ t. (l.answer t, kind rec ∷ t)
    demand (leb (length value) 65536)
    parsed ← given (l.parse value)
    demand (leb (length parsed) 16000)
    return (strip parsed)

  -- The loop over the chunks; the texts so far.
  unfoldable pub recognize : ℕ → List Text → List Text → Action (List Text)
  recognize rec [] parts = return parts
  recognize rec (chunk ∷ rest) parts = do
    status ← λ t. (some (l.status t), accept rec ∷ t)
    demand ((status == 0) || (status == 1))
    choose (status == 1) (do part ← text_of result rec; recognize rec rest (parts ++ part ∷ []))
        (recognize rec rest parts)

  -- `' '.join(p for p in parts if p)`
  unfoldable pub filled : List Text → List Text
  filled [] = []
  filled ([] ∷ parts) = filled parts
  filled ((c ∷ cs) ∷ parts) = (c ∷ cs) ∷ filled parts

  -- The body of `try` behind the recognizer.
  unfoldable pub listen : Text → Text → ℕ → Action (Unit {0})
  listen reference pcm rec = do
    save false
    parts ← recognize rec (chunks (length pcm) pcm) []
    last ← text_of final_result rec
    let transcript = join (codes " ") (filled (parts ++ last ∷ []))
    expected ← given (l.words reference)
    heard ← given (l.words transcript)
    call (observed transcript)

  unfoldable pub free_recognizer : Option ℕ → Action (Unit {0})
  free_recognizer none = return tt
  free_recognizer (some rec) = call (recognizer_free rec)

  -- `finally`: the recognizer, if there is one, the report, and the model.
  unfoldable pub release : ℕ → Option ℕ → Action (Unit {0})
  release model rec = do free_recognizer rec; save false; call (model_free model)

  -- `try` and `finally`, where `rec` is what `vosk_recognizer_new` gave.
  unfoldable pub with_recognizer : Text → Text → ℕ → Option ℕ → Action (Unit {0})
  with_recognizer reference pcm model none = finally raise (release model none)
  with_recognizer reference pcm model (some rec) =
      finally (listen reference pcm rec) (release model (some rec))

  unfoldable pub with_model : Text → Text → Option ℕ → Action (Unit {0})
  with_model reference pcm none = raise
  with_model reference pcm (some model) = do
    rec ← make_recognizer model
    with_recognizer reference pcm model rec
    save false

  unfoldable pub cycle : Text → Text → Action (Unit {0})
  cycle reference pcm = do save false; model ← load_model; with_model reference pcm model

  -- `for cycle in range(n)`
  unfoldable pub cycles : ℕ → Text → Text → Action (Unit {0})
  cycles zero reference pcm = return tt
  cycles (suc n) reference pcm = do cycle reference pcm; cycles n reference pcm

  unfoldable pub run : Text → Text → Action (Unit {0})
  run reference pcm = do cycles 2 reference pcm; save true
