-- ===== src/Device.antt =====
-- What the emulator scripts ci/android_client_smoke.py, ci/android_sandbox_smoke.py and
-- ci/android_candidate_runtime.py ask of the device and of the machine: `run`, `device`, and the
-- statements around them. An action takes the calls made so far and gives its result, or the exception
-- that it raises, with the calls behind it.
pub mod Emits
pub mod Returns
pub mod Counts
pub mod Bounds
pub mod Screen
pub mod Snapshot
pub mod Tapped
use capybaragram_build.Prelude.{
  ℕ, Bool, true, false, List, [], ◌∷◌, ◌++◌, map, String, Option, none, some, if◌then◌else◌, Error,
  Result, ok, err,
}
use capybaragram_build.Text.{Text, codes}

-- `refused` is an exception of another function of the repository, `called` is `CalledProcessError` with what the command printed, `ill_formed` the `ParseError` of
-- the XML library, `other` an exception that no handler of the scripts names. `stuck` is not of Python: it
-- says that the model of an unbounded loop has come to the end of its fuel.
pub data Failure : Type 0 where
  called : Text → Text → Failure
  timed_out ill_formed stop_iteration index_error other stuck : Failure
  runtime value_error : Text → Failure
  refused : Error → Failure

-- A value of the dictionary `result`.
pub data Value : Type 0 where
  text : Text → Value
  number : ℕ → Value
  flag : Bool → Value
  texts : List Text → Value

-- `adb` is `run([adb,'-s','emulator-5554',...])`, `tool` another program of the SDK, `noted` is
-- `result[key] = value`, `saved` and `appended` are writes to files of the report directory.
pub data Event : Type 0 where
  adb : List Text → Event
  tool : Text → List Text → Event
  started : List Text → Event
  polled read_clock terminated killed waited : Event
  slept : ℕ → Event
  saved appended : Text → Text → Event
  noted : Text → Value → Event

-- The newest event first.
abbrev pub Trace : Type 0
Trace = List Event

-- An element of the hierarchy, and those below it, itself included, as `iter('node')` gives them.
pub record Node : Type 0 where
  pub attributes : List (Text × Text)
  pub inner : List (List (Text × Text))

-- A hierarchy: the tag of its root, and `tree.iter('node')`.
pub record Tree : Type 0 where
  pub tag : Text
  pub nodes : List Node

-- How a command ends: with what it prints, with a failure and what it prints, not in time, or with
-- an exception of another kind.
pub data Reply : Type 0 where
  printed exited : Text → Text → Reply
  late broken : Reply

-- What is not part of the repository, each as a function of the calls before: what a command prints,
-- whether the emulator still runs and ends in time, the clock, the text of the dictionary `result` as
-- JSON; and the XML parser, `str.casefold` and the
-- value of a decimal digit.
pub record World : Type 0 where
  pub answer : Trace → List Text → Reply
  pub tool_answer : Trace → Text → List Text → Reply
  pub running : Trace → Bool
  pub ends : Trace → Bool
  pub clock : Trace → ℕ
  pub report : Trace → Text
  pub parse : Text → Option Tree
  pub casefold : Text → Text
  pub digit : ℕ → Option ℕ

pub data Outcome (A : Type 0) : Type 0 where
  returned : A → Outcome A
  raised : Failure → Outcome A

abbrev pub M : Type 0 → Type 0
M A = Trace → Outcome A × Trace

abbrev pub args : List String → List Text
args words = map codes words

module _ {A : Type 0} where
  unfoldable pub return : A → M A
  return a t = (returned a, t)

  unfoldable pub raise : Failure → M A
  raise e t = (raised e, t)

  unfoldable pub handle : Outcome A → (Failure → M A) → M A
  handle (returned a) handler t = (returned a, t)
  handle (raised e) handler t = handler e t

  -- `try` with a handler that gets every exception, and raises again what it does not name.
  unfoldable pub catch : M A → (Failure → M A) → M A
  unfolding handle
  catch m handler t = let (r, t') = m t in handle r handler t'

  unfoldable pub close : Outcome A → Outcome (Unit {0}) → Outcome A
  close r (returned u) = r
  close r (raised e) = raised e

  -- `try` with `finally`: an exception of the last part takes the place of one of the first.
  unfoldable pub finally : M A → M (Unit {0}) → M A
  unfolding close
  finally m last t = let (r, t') = m t in let (q, t'') = last t' in (close r q, t'')

  -- A call of a function that is no action.
  unfoldable pub lift : Result A → M A
  lift (ok a) = return a
  lift (err e) = raise (refused e)

  unfoldable pub from_option : Failure → Option A → M A
  from_option e none = raise e
  from_option e (some a) = return a

module _ {A B : Type 0} where
  unfoldable pub continue : Outcome A → (A → M B) → M B
  continue (returned a) f t = f a t
  continue (raised e) f t = (raised e, t)

  infixl 5 ◌>>=◌ ◌>>◌
  unfoldable pub ◌>>=◌ : M A → (A → M B) → M B
  unfolding continue
  ◌>>=◌ m f t = let (r, t') = m t in continue r f t'

  abbrev pub ◌>>◌ : M A → M B → M B
  m >> n = m >>= λ _. n

unfoldable pub emit : Event → M (Unit {0})
emit e t = (returned tt, e ∷ t)

unfoldable pub require : Bool → Failure → M (Unit {0})
require true e = return tt
require false e = raise e

unfoldable pub refuse : Bool → Failure → M (Unit {0})
refuse true e = raise e
refuse false e = return tt

unfoldable pub when : Bool → M (Unit {0}) → M (Unit {0})
when true m = m
when false m = return tt

-- `if test: m else: n`
unfoldable pub choose : {A : Type 0} → Bool → M A → M A → M A
choose true m n = m
choose false m n = n

-- `time.sleep(n)`
abbrev pub sleep : ℕ → M (Unit {0})
sleep n = emit (slept n)

-- `result[key] = value`
abbrev pub note : String → Value → M (Unit {0})
note key v = emit (noted (codes key) v)

-- The operation of the log line of a command that failed.
abbrev pub head_of : List Text → Text
head_of [] = []
head_of (a ∷ rest) = a

abbrev pub reply : Reply → Outcome (Text × Text)
reply (printed out errors) = returned (out, errors)
reply (exited out errors) = raised (called out errors)
reply late = raised timed_out
reply broken = raised other

module _ (w : World) where
  -- `run([adb,'-s','emulator-5554',*command],capture_output=True)`: stdout and stderr
  unfoldable pub run : List Text → M (Text × Text)
  run command t = (reply (w.answer t command), adb command ∷ t)

  unfoldable pub run_tool : Text → List Text → M (Text × Text)
  run_tool name command t = (reply (w.tool_answer t name command), tool name command ∷ t)

  -- The handler of `device`, which logs a command that failed.
  unfoldable pub log_failure : List Text → Failure → M (Text × Text)
  log_failure command (called out errors) = do
    emit (
        appended (codes "adb-failure.txt")
          (codes "operation=" ++ head_of command ++ codes "\n" ++ out ++ errors ++ codes "\n"))
    raise (called out errors)
  log_failure command e = raise e

  -- `device(*command)` of the client and sandbox scripts
  unfoldable pub device : List Text → M Text
  device command = do output ← catch (run command) (log_failure command); return output.0

  -- `device(*command)` of the candidate script
  unfoldable pub device_only : List Text → M Text
  device_only command = do output ← run command; return output.0

  -- `time.monotonic()`
  unfoldable pub now : M ℕ
  now t = (returned (w.clock t), read_clock ∷ t)

  -- `process.poll() is None`
  unfoldable pub poll : M Bool
  poll t = (returned (w.running t), polled ∷ t)

  -- `ET.fromstring(xml)`
  unfoldable pub from_string : Text → M Tree
  from_string xml = from_option ill_formed (w.parse xml)
