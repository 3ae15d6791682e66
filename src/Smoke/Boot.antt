-- ===== src/Smoke/Boot.antt =====
-- The wait for the boot of the emulator: `while True` with a deadline of 300 seconds, in
-- ci/android_client_smoke.py, ci/android_sandbox_smoke.py and ci/android_candidate_runtime.py. Each round
-- that goes on sleeps for five seconds, so 62 rounds are enough fuel. The clock counts nanoseconds.
pub mod Timely
pub mod Ends
use capybaragram_build.Prelude.{
  ℕ, zero, suc, ◌+◌, ◌*◌, Bool, true, false, [], ◌∷◌, String, List, ltb,
}
use capybaragram_build.Text.{Text, codes, text_eq}
use capybaragram_build.Text.Lines.{strip}
use capybaragram_build.Device.{
  Failure, called, timed_out, runtime, stuck, World, M, args, return, raise, catch, choose, require,
  refuse, ◌>>=◌, ◌>>◌, emit, sleep, now, poll,
}

abbrev pub second : ℕ
second = 1000000000

-- `except (TimeoutExpired, CalledProcessError): pass`
unfoldable pub not_yet : Failure → M Bool
not_yet timed_out = return false
not_yet (called out errors) = return false
not_yet e = raise e

-- `call` is the script's `device`, and the two messages are the script's own.
module _ (w : World) (call : List Text → M Text) (locale : Text) (stopped late : Text) where
  -- The test of the loop: the second property is asked for only if the first is as it must be.
  unfoldable pub booted : M Bool
  booted = do
    state ← call (args ("shell" ∷ "getprop" ∷ "sys.boot_completed" ∷ []))
    choose (text_eq (strip state) (codes "1"))
        (do
          chosen ← call (args ("shell" ∷ "getprop" ∷ "persist.sys.locale" ∷ []))
          return (text_eq (strip chosen) locale))
        (return false)

  unfoldable pub wait_boot : ℕ → ℕ → M (Unit {0})
  wait_boot zero deadline = raise stuck
  wait_boot (suc fuel) deadline = do
    alive ← poll w
    require alive (runtime stopped)
    done ← catch booted not_yet
    choose done (return tt) (do
      time ← now w
      refuse (ltb deadline time) (runtime late)
      sleep 5
      wait_boot fuel deadline)

  unfoldable pub boot : M (Unit {0})
  boot = do start ← now w; wait_boot 62 (start + 300 * second)
