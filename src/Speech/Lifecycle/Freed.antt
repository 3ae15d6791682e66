-- ===== src/Speech/Lifecycle/Freed.antt =====
-- Every handle of the native library is freed once, the recognizer before its model, and none is
-- used behind its release.
use capybaragram_build.Prelude.{
  ℕ, zero, suc, Bool, true, false, List, [], ◌∷◌, ◌++◌, Option, none, some, ◌≡◌,
}
use capybaragram_build.Text.{Text}
use capybaragram_build.Speech.Lifecycle.{
  Call, model_new, model_free, recognizer_new, recognizer_free, accept, result, final_result, saved,
  observed, Trace, Library, Action, next, ◌>>=◌, ◌>>◌, return, raise, call, demand, given, choose,
  finally, save, load_model, make_recognizer, text_of, recognize, listen, free_recognizer, release,
  with_recognizer, with_model, cycle, cycles, run,
}

-- What is allocated: nothing, a model, or a model with a recognizer.
pub data State : Type 0 where
  idle : State
  loaded : ℕ → State
  listening : ℕ → ℕ → State

-- The calls that are allowed in a state, and where they lead.
pub data Step : State → Call → State → Type 0 where
  load : (model : ℕ) → Step idle (model_new (some model)) (loaded model)
  not_loaded : Step idle (model_new none) idle
  make :
      (model rec : ℕ) → Step (loaded model) (recognizer_new model (some rec)) (listening model rec)
  not_made : (model : ℕ) → Step (loaded model) (recognizer_new model none) (loaded model)
  feed : (model rec : ℕ) → Step (listening model rec) (accept rec) (listening model rec)
  read : (model rec : ℕ) → Step (listening model rec) (result rec) (listening model rec)
  end : (model rec : ℕ) → Step (listening model rec) (final_result rec) (listening model rec)
  stop : (model rec : ℕ) → Step (listening model rec) (recognizer_free rec) (loaded model)
  unload : (model : ℕ) → Step (loaded model) (model_free model) idle
  report : (s : State) (complete : Bool) → Step s (saved complete) s
  note : (s : State) (text : Text) → Step s (observed text) s

-- The calls of a trace lead from `idle` to this state, each allowed where it stands.
pub data Leads : Trace → State → Type 0 where
  start : Leads [] idle
  then : {t : Trace} {r s : State} (c : Call) → Leads t r → Step r c s → Leads (c ∷ t) s

-- From `r` an action leads to `s`, whether it returns or raises.
record Moves {A : Type 0} (r s : State) (m : Action A) : Type 0 where
  at : (t : Trace) → Leads t r → Leads (m t).1 s

module _ {A B : Type 0} {s : State} where
  Moves-next :
      (o : Option A) (f : A → Action B) → ((a : A) → Moves s s (f a)) → Moves s s (next o f)
  unfolding next
  Moves-next none f h = record { at = λ t k. k }
  Moves-next (some a) f h = h a

  -- A sequence whose second part stays in the state that the first leads to.
  Moves-bind :
      {r : State} (m : Action A) (f : A → Action B)
      → Moves r s m
      → ((a : A) → Moves s s (f a))
      → Moves r s (m >>= f)
  unfolding ◌>>=◌
  Moves-bind m f h k = record {
    at = λ t x. let (o, t') = m t in (Moves-next o f k).at t' (h.at t x);
  }

module _ {A : Type 0} {s : State} where
  Moves-return : (a : A) → Moves s s (return a)
  unfolding return
  Moves-return a = record { at = λ t h. h }

  Moves-raise : Moves s s (raise {A = A})
  unfolding raise
  Moves-raise = record { at = λ t h. h }

  Moves-given : (o : Option A) → Moves s s (given o)
  unfolding given
  Moves-given o = record { at = λ t h. h }

  Moves-choose : (b : Bool) (m n : Action A) → Moves s s m → Moves s s n → Moves s s (choose b m n)
  unfolding choose
  Moves-choose true m n h k = h
  Moves-choose false m n h k = k

  Moves-finally :
      {r : State} (m : Action A) (last : Action (Unit {0}))
      → Moves s s m
      → Moves s r last
      → Moves s r (finally m last)
  unfolding finally
  Moves-finally m last h k = record { at = λ t x. k.at (m t).1 (h.at t x) }

Moves-demand : {s : State} (b : Bool) → Moves s s (demand b)
unfolding demand
Moves-demand true = record { at = λ t h. h }
Moves-demand false = record { at = λ t h. h }

Moves-call : {r s : State} (c : Call) → Step r c s → Moves r s (call c)
unfolding call
Moves-call c h = record { at = λ t x. then c x h }

ruleset moves_rules =
    (Moves-bind, Moves-return, Moves-raise, Moves-given, Moves-choose, Moves-demand, note)

module _ (l : Library) (writable : (t : Trace) → l.writes t ≡ true) where
  save-eq : (complete : Bool) (t : Trace) → save l complete t ≡ (some tt, saved complete ∷ t)
  unfolding save
  save-eq complete t = rw (writable t)

  save-Moves : {s : State} (complete : Bool) → Moves s s (save l complete)
  save-Moves {s} complete = record {
    at = λ t x. rw (save-eq complete t) (then (saved complete) x (report s complete));
  }

  module _ (model rec : ℕ) where
    text_of-Moves :
        (kind : ℕ → Call)
        → Step (listening model rec) (kind rec) (listening model rec)
        → Moves (listening model rec) (listening model rec) (text_of l kind rec)
    unfolding text_of
    text_of-Moves kind h =
        Moves-bind _ _ (record { at = λ t x. then (kind rec) x h })
          (λ value. search moves_rules depth 10)

    recognize-Moves :
        (todo parts : List Text)
        → Moves (listening model rec) (listening model rec) (recognize l rec todo parts)
    unfolding recognize
    recognize-Moves [] parts = Moves-return parts
    recognize-Moves (chunk ∷ rest) parts =
        Moves-bind _ _ (record { at = λ t x. then (accept rec) x (feed model rec) })
          (λ status. Moves-bind _ _ (Moves-demand _) (λ u.
            Moves-choose _ _ _
              (Moves-bind _ _ (text_of-Moves result (read model rec))
                (λ part. recognize-Moves rest (parts ++ part ∷ [])))
              (recognize-Moves rest parts)))

    listen-Moves :
        (reference pcm : Text)
        → Moves (listening model rec) (listening model rec) (listen l reference pcm rec)
    unfolding listen
    listen-Moves reference pcm = Moves-bind _ _ (save-Moves false) (λ u.
        Moves-bind _ _ (recognize-Moves _ []) (λ parts.
          Moves-bind _ _ (text_of-Moves final_result (end model rec)) (λ last.
            Moves-bind _ _ (Moves-given _) (λ e.
              Moves-bind _ _ (Moves-given _) (λ h. Moves-call _ (note (listening model rec) _))))))

  release-some :
      (model rec : ℕ) (t : Trace)
      → release l model (some rec) t
        ≡ (some tt, model_free model ∷ saved false ∷ recognizer_free rec ∷ t)
  unfolding release free_recognizer ◌>>=◌ call
  release-some model rec t = rw (save-eq false (recognizer_free rec ∷ t), next)

  release-none :
      (model : ℕ) (t : Trace)
      → release l model none t ≡ (some tt, model_free model ∷ saved false ∷ t)
  unfolding release free_recognizer ◌>>=◌ call return
  release-none model t = rw (save-eq false t, next)

  release-Moves : (model rec : ℕ) → Moves (listening model rec) idle (release l model (some rec))
  release-Moves model rec = record {
    at = λ t x.
        rw (release-some model rec t) (
          then _ (then _ (then _ x (stop model rec)) (report (loaded model) false)) (unload model));
  }

  release-none-Moves : (model : ℕ) → Moves (loaded model) idle (release l model none)
  release-none-Moves model = record {
    at = λ t x.
        rw (release-none model t) (then _ (then _ x (report (loaded model) false)) (unload model));
  }

  module _ (reference pcm : Text) where
    with_recognizer-Moves :
        (model rec : ℕ)
        → Moves (listening model rec) idle (with_recognizer l reference pcm model (some rec))
    unfolding with_recognizer
    with_recognizer-Moves model rec =
        Moves-finally _ _ (listen-Moves model rec reference pcm) (release-Moves model rec)

    without_recognizer-Moves :
        (model : ℕ) → Moves (loaded model) idle (with_recognizer l reference pcm model none)
    unfolding with_recognizer
    without_recognizer-Moves model = Moves-finally _ _ Moves-raise (release-none-Moves model)

    -- What follows the recognizer's making, whatever it gave.
    made-Leads :
        (model : ℕ) (o : Option ℕ) (t : Trace)
        → Leads t (loaded model)
        → Leads
            ((with_recognizer l reference pcm model o >> save l false)
              (recognizer_new model o ∷ t)).1
            idle
    made-Leads model none t x =
        (Moves-bind _ _ (without_recognizer-Moves model) (λ u. save-Moves false)).at _
          (then _ x (not_made model))
    made-Leads model (some rec) t x =
        (Moves-bind _ _ (with_recognizer-Moves model rec) (λ u. save-Moves false)).at _
          (then _ x (make model rec))

    model-Leads :
        (o : Option ℕ) (t : Trace)
        → Leads t idle
        → Leads (with_model l reference pcm o (model_new o ∷ t)).1 idle
    unfolding with_model raise ◌>>=◌ make_recognizer next
    model-Leads none t x = then _ x not_loaded
    model-Leads (some model) t x = made-Leads model _ _ (then _ x (load model))

    loaded-Moves : Moves idle idle (load_model l >>= λ model. with_model l reference pcm model)
    unfolding ◌>>=◌ load_model next
    loaded-Moves = record { at = λ t x. model-Leads (l.load t) t x }

    cycle-Moves : Moves idle idle (cycle l reference pcm)
    unfolding cycle
    cycle-Moves = Moves-bind _ _ (save-Moves false) (λ u. loaded-Moves)

    cycles-Moves : (n : ℕ) → Moves idle idle (cycles l n reference pcm)
    unfolding cycles
    cycles-Moves zero = Moves-return tt
    cycles-Moves (suc n) = Moves-bind _ _ cycle-Moves (λ u. cycles-Moves n)

    -- If the reports can be written, then however the run ends, with both cycles done, without a model
    -- or a recognizer, or by an exception in between, every handle was freed once, the recognizer
    -- before its model, and none was used outside its life.
    pub run-Leads : Leads (run l reference pcm []).1 idle
    unfolding run
    run-Leads = (Moves-bind _ _ (cycles-Moves 2) (λ u. save-Moves true)).at [] start
