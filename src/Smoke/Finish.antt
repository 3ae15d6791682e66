-- ===== src/Smoke/Finish.antt =====
-- The `finally` of ci/android_client_smoke.py and ci/android_sandbox_smoke.py: the report, what the
-- device says of a failure, and the end of the emulator.
use capybaragram_build.Prelude.{
  Bool, true, false, not, [], ◌∷◌, List, Option, none, some, if◌then◌else◌,
}
use capybaragram_build.Text.{Text, codes, text_eq}
use capybaragram_build.Device.{
  Failure, called, timed_out, ill_formed, runtime, noted, saved, terminated, killed, waited, text,
  returned, raised, Trace, World, M, args, return, raise, catch, when, ◌>>=◌, ◌>>◌, emit, device,
  poll,
}
use capybaragram_build.Device.Snapshot.{snapshot}

-- `except (TimeoutExpired, CalledProcessError): pass`
unfoldable pub pass : Failure → M (Unit {0})
pass timed_out = return tt
pass (called out errors) = return tt
pass e = raise e

-- `except (TimeoutExpired, CalledProcessError, RuntimeError, ET.ParseError): pass`
unfoldable pub pass_all : Failure → M (Unit {0})
pass_all ill_formed = return tt
pass_all (runtime message) = return tt
pass_all e = pass e

-- `except TimeoutExpired: handler`
unfoldable pub on_timeout : M (Unit {0}) → Failure → M (Unit {0})
on_timeout handler timed_out = handler
on_timeout handler e = raise e

-- `result[key]`, where it is a text
unfoldable pub latest : Text → Trace → Option Text
latest key [] = none
latest key (noted k (text v) ∷ t) = elim (text_eq k key) [ true ↦ some v | false ↦ latest key t ]
latest key (e ∷ t) = latest key t

abbrev equals : Text → Option Text → Bool
equals value none = false
equals value (some v) = text_eq v value

module _ (w : World) where
  -- `result['cold_restart'] == value`
  unfoldable pub restarted : Text → M Bool
  restarted value t = (returned (equals value (latest (codes "cold_restart") t)), t)

  -- `(report/'verification.json').write_text(json.dumps(result,indent=2)+'\n')`
  unfoldable pub save_report : M (Unit {0})
  save_report t = (returned tt, saved (codes "verification.json") (w.report t) ∷ t)

  -- `process.wait(timeout=...)`
  unfoldable pub wait : M (Unit {0})
  wait t = (if w.ends t then returned tt else raised timed_out, waited ∷ t)

  unfoldable pub save_output : Text → List Text → M (Unit {0})
  save_output file command = catch (do output ← device w command; emit (saved file output)) pass

  -- `call` is the script's `device`.
  unfoldable pub stop_emulator : (List Text → M Text) → M (Unit {0})
  stop_emulator call = do
    catch (do output ← call (args ("emu" ∷ "kill" ∷ [])); return tt) pass
    alive ← poll w
    when alive (do emit terminated; catch wait (on_timeout (do emit killed; wait)))

  unfoldable pub finish : M (Unit {0})
  finish = do
    save_report
    save_output (codes "crash-buffer.txt") (args ("logcat" ∷ "-b" ∷ "crash" ∷ "-d" ∷ []))
    save_output (codes "activity-state.txt")
        (args ("shell" ∷ "dumpsys" ∷ "activity" ∷ "activities" ∷ []))
    done ← restarted (codes "PASS")
    when (not done) (catch (do tree ← snapshot w (codes "failure"); return tt) pass_all)
    stop_emulator (device w)
