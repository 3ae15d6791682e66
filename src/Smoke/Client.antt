-- ===== src/Smoke/Client.antt =====
-- ci/android_client_smoke.py: the release client is installed, started from the launcher, shown
-- through its intro to the phone form, and restarted. `session` is the body of its `try`, and `run` adds
-- what stands before it and the `finally`. Not modelled: the directories that it makes before.
pub mod Launcher
pub mod Intro
pub mod Quiet
use capybaragram_build.Prelude.{
  Bool, true, false, ◌&&◌, ◌||◌, [], ◌∷◌, ◌++◌, String, List, Option, none, some, any,
}
use capybaragram_build.Text.{Text, codes, contains, is_prefix}
use capybaragram_build.Text.Lines.{strip}
use capybaragram_build.Device.{
  runtime, saved, text, Outcome, returned, raised, Trace, Tree, World, M, args, return, raise,
  require, refuse, finally, ◌>>=◌, ◌>>◌, emit, sleep, note, device,
}
use capybaragram_build.Device.Screen.{get_or, is_full}
use capybaragram_build.Device.Snapshot.{snapshot}
use capybaragram_build.Smoke.{Setup, in_front, start_command}
use capybaragram_build.Smoke.Finish.{finish, latest}
use capybaragram_build.Smoke.Start.{launch, phone_form}
use capybaragram_build.Smoke.Client.Launcher.{
  app, prepare, ready, install, through_launcher, resolve,
}
use capybaragram_build.Smoke.Client.Intro.{tour}

-- What the client says before Android asks for the phone permission.
abbrev pub rationales : List Text
rationales =
    codes
      "CapybaraGram может подставить номер телефона с SIM-карты. На следующем экране можно запретить доступ и ввести номер самостоятельно."
    ∷ codes
        "CapybaraGram can fill in the phone number from your SIM card. You can deny access on the next screen and enter the number yourself."
    ∷ []

abbrev passed : Option Text → Bool
passed none = false
passed (some value) = is_prefix (codes "PASS") value

-- `result['launcher_entry'].startswith('PASS')`
unfoldable pub launcher_passed : M Bool
launcher_passed t = (returned (passed (latest (codes "launcher_entry") t)), t)

module _ (w : World) (s : Setup) where
  -- The phone form shows no choice of the backend.
  unfoldable pub check_form : Tree → M (Unit {0})
  check_form form = do
    refuse (any (λ n. contains (codes "test backend") (w.casefold (get_or n "text"))) form.nodes)
        (runtime (codes "Release login must not expose the debug test backend option"))
    note "debug_backend_option_absent" (text (codes "PASS (visible phone form)"))
    note "login_screen" (text (codes "PASS (entry fields only; no phone entered)"))

  unfoldable pub restart : Text → M (Unit {0})
  restart component = do
    stopped ← device w (args ("shell" ∷ "am" ∷ "force-stop" ∷ []) ++ app ∷ [])
    started ← device w (start_command component)
    sleep 10
    pid ← device w (args ("shell" ∷ "pidof" ∷ []) ++ app ∷ [])
    require (is_full (strip pid)) (runtime (codes "Client exited after cold restart"))
    hierarchy ← snapshot w (codes "03-cold-restart")
    require (in_front app hierarchy) (runtime (codes "Client UI not foreground after restart"))
    crash ← device w (args ("logcat" ∷ "-b" ∷ "crash" ∷ "-d" ∷ []))
    emit (saved (codes "crash-buffer.txt") crash)
    refuse (contains app crash) (runtime (codes "Client appeared in the crash buffer"))
    note "cold_restart" (text (codes "PASS"))
    entered ← launcher_passed
    require entered (
        runtime (
          codes
            "Startup checks finished, but launcher icon acceptance failed; see launcher diagnostics"))

  -- The body of `try`.
  unfoldable pub session : Text → M (Unit {0})
  session apk = do
    ready w s
    install w s apk
    through_launcher w s
    component ← resolve w s
    onboarding ← launch w app rationales component
    first ← tour w s.locale onboarding
    form ← phone_form w app rationales first
    check_form form
    restart component

  -- The script.
  unfoldable pub run : M (Unit {0})
  run = do apk ← prepare w s; finally (session apk) (finish w)
