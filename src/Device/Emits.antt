-- ===== src/Device/Emits.antt =====
-- Which calls an action makes, whether it returns or raises: one rule for each way to build an action.
use capybaragram_build.Prelude.{
  Bool, true, false, List, [], ◌∷◌, ◌++◌, ◌≡◌, refl, Option, none, some, every, arith, Result, ok,
  err,
}
use capybaragram_build.Text.{Text, codes}
use capybaragram_build.Device.{
  Failure, called, ill_formed, refused, lift, Event, adb, tool, polled, read_clock, appended, Trace,
  World, Outcome, returned, raised, M, return, raise, handle, catch, finally, from_option, continue,
  ◌>>=◌, emit, require, refuse, when, choose, run, run_tool, log_failure, device, device_only, now,
  poll, from_string,
}

-- `u` is `t` with some more events, each of which passes the test.
pub data Extends (p : Event → Bool) (t : Trace) : Trace → Type 0 where
  same : Extends p t t
  more : {u : Trace} (e : Event) → Extends p t u → p e ≡ true → Extends p t (e ∷ u)

pub Extends-trans :
    (p : Event → Bool) {t u v : Trace} → Extends p t u → Extends p u v → Extends p t v
Extends-trans p h same = h
Extends-trans p h (more e k q) = more e (Extends-trans p h k) q

-- Whatever the outcome, `m` only adds events that pass the test.
pub record Emits {A : Type 0} (p : Event → Bool) (m : M A) : Type 0 where
  pub at : (t : Trace) → Extends p t (m t).1

module _ {A : Type 0} {p : Event → Bool} where
  pub Emits-return : (a : A) → Emits p (return a)
  unfolding return
  Emits-return a = record { at = λ t. same }

  pub Emits-raise : (e : Failure) → Emits p (raise {A = A} e)
  unfolding raise
  Emits-raise e = record { at = λ t. same }

  pub Emits-from_option : (e : Failure) (o : Option A) → Emits p (from_option e o)
  unfolding from_option
  Emits-from_option e none = Emits-raise e
  Emits-from_option e (some a) = Emits-return a

  pub Emits-lift : (r : Result A) → Emits p (lift r)
  unfolding lift
  Emits-lift (ok a) = Emits-return a
  Emits-lift (err e) = Emits-raise (refused e)

  pub Emits-choose : (b : Bool) (m n : M A) → Emits p m → Emits p n → Emits p (choose b m n)
  unfolding choose
  Emits-choose true m n h k = h
  Emits-choose false m n h k = k

  pub Emits-handle :
      (r : Outcome A) (handler : Failure → M A)
      → ((e : Failure) → Emits p (handler e))
      → Emits p (handle r handler)
  unfolding handle
  Emits-handle (returned a) handler h = record { at = λ t. same }
  Emits-handle (raised e) handler h = h e

  pub Emits-catch :
      (m : M A) (handler : Failure → M A)
      → Emits p m
      → ((e : Failure) → Emits p (handler e))
      → Emits p (catch m handler)
  unfolding catch
  Emits-catch m handler h k = record {
    at = λ t. let (r, t') = m t in Extends-trans p (h.at t) ((Emits-handle r handler k).at t');
  }

  pub Emits-finally :
      (m : M A) (last : M (Unit {0})) → Emits p m → Emits p last → Emits p (finally m last)
  unfolding finally
  Emits-finally m last h k = record {
    at = λ t. let (r, t') = m t in Extends-trans p (h.at t) (k.at t');
  }

module _ {A B : Type 0} {p : Event → Bool} where
  Emits-continue :
      (r : Outcome A) (f : A → M B) → ((a : A) → Emits p (f a)) → Emits p (continue r f)
  unfolding continue
  Emits-continue (returned a) f h = h a
  Emits-continue (raised e) f h = record { at = λ t. same }

  pub Emits-bind :
      (m : M A) (f : A → M B) → Emits p m → ((a : A) → Emits p (f a)) → Emits p (m >>= f)
  unfolding ◌>>=◌
  Emits-bind m f h k = record {
    at = λ t. let (r, t') = m t in Extends-trans p (h.at t) ((Emits-continue r f k).at t');
  }

module _ {p : Event → Bool} where
  pub Emits-emit : (e : Event) → p e ≡ true → Emits p (emit e)
  unfolding emit
  Emits-emit e h = record { at = λ t. more e same h }

  pub Emits-require : (b : Bool) (e : Failure) → Emits p (require b e)
  unfolding require
  Emits-require true e = Emits-return tt
  Emits-require false e = Emits-raise e

  pub Emits-refuse : (b : Bool) (e : Failure) → Emits p (refuse b e)
  unfolding refuse
  Emits-refuse true e = Emits-raise e
  Emits-refuse false e = Emits-return tt

  pub Emits-when : (b : Bool) (m : M (Unit {0})) → Emits p m → Emits p (when b m)
  unfolding when
  Emits-when true m h = h
  Emits-when false m h = Emits-return tt

  module _ (w : World) where
    pub Emits-run : (command : List Text) → p (adb command) ≡ true → Emits p (run w command)
    unfolding run
    Emits-run command h = record { at = λ t. more (adb command) same h }

    pub Emits-run_tool :
        (name : Text) (command : List Text)
        → p (tool name command) ≡ true
        → Emits p (run_tool w name command)
    unfolding run_tool
    Emits-run_tool name command h = record { at = λ t. more (tool name command) same h }

    pub Emits-now : p read_clock ≡ true → Emits p (now w)
    unfolding now
    Emits-now h = record { at = λ t. more read_clock same h }

    pub Emits-poll : p polled ≡ true → Emits p (poll w)
    unfolding poll
    Emits-poll h = record { at = λ t. more polled same h }

    pub Emits-from_string : (xml : Text) → Emits p (from_string w xml)
    unfolding from_string
    Emits-from_string xml = Emits-from_option ill_formed (w.parse xml)

    pub Emits-device_only :
        (command : List Text) → p (adb command) ≡ true → Emits p (device_only w command)
    unfolding device_only
    Emits-device_only command h =
        Emits-bind (run w command) _ (Emits-run command h) (λ o. Emits-return o.0)

    Emits-log_failure :
        (command : List Text) (e : Failure)
        → ((line : Text) → p (appended (codes "adb-failure.txt") line) ≡ true)
        → Emits p (log_failure w command e)
    unfolding log_failure
    Emits-log_failure command (called out errors) h =
        Emits-bind _ _ (Emits-emit _ (h _)) (λ u. Emits-raise (called out errors))
    Emits-log_failure command e h = Emits-raise e

    pub Emits-device :
        (command : List Text)
        → p (adb command) ≡ true
        → ((line : Text) → p (appended (codes "adb-failure.txt") line) ≡ true)
        → Emits p (device w command)
    unfolding device
    Emits-device command h k =
        Emits-bind _ _
          (Emits-catch (run w command) (log_failure w command) (Emits-run command h)
            (λ e. Emits-log_failure command e k))
          (λ o. Emits-return o.0)

pub ruleset emits_rules = (
  refl, Emits-return, Emits-raise, Emits-from_option, Emits-lift, Emits-choose, Emits-catch,
  Emits-finally, Emits-bind, Emits-emit, Emits-require, Emits-refuse, Emits-when, Emits-run,
  Emits-run_tool, Emits-now, Emits-poll, Emits-from_string, Emits-device_only, Emits-device,
)
