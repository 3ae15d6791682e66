-- ===== src/Smoke/Sandbox.antt =====
-- ci/android_sandbox_smoke.py: a sign-up on Telegram's test servers with one reserved test number.
-- `session` is the body of its `try`, and `run` adds what stands before it and the `finally`. Not modelled: the directories
-- that it makes before, and the files that it writes from the manifest before the emulator starts.
pub mod Actions
pub mod Launch
pub mod Number
pub mod Code
pub mod Account
pub mod Reach
pub mod Later
pub mod Typed
use capybaragram_build.Prelude.{ℕ, [], ◌∷◌}
use capybaragram_build.Text.{Text}
use capybaragram_build.Device.{Tree, World, M, return, finally, ◌>>=◌, ◌>>◌}
use capybaragram_build.Smoke.{Setup}
use capybaragram_build.Smoke.Finish.{finish}
use capybaragram_build.Smoke.Sandbox.Launch.{prepare, ready, install, rationale}
use capybaragram_build.Smoke.Sandbox.Actions.{app}
use capybaragram_build.Smoke.Start.{launch, phone_form}
use capybaragram_build.Smoke.Sandbox.Number.{select_backend, enter_number, request_code}
use capybaragram_build.Smoke.Sandbox.Code.{code_screen, enter_digits}
use capybaragram_build.Smoke.Sandbox.Account.{sign_up, account_menu, restart}

module _ (w : World) (s : Setup) where
  -- What follows the selection of the test backend.
  unfoldable pub sign_in : Text → Tree → M (Unit {0})
  sign_in component chosen = do
    entered ← enter_number w s chosen
    response ← request_code w s entered
    code_screen w response
    enter_digits w 5 0
    behind ← sign_up w s
    account_menu w s behind
    restart w s component

  -- From the boot to the phone form, with the component that the launcher starts.
  unfoldable pub reach_form : Text → M (Text × Tree)
  reach_form apk = do
    ready w s
    component ← install w s apk
    hierarchy ← launch w app (rationale ∷ []) component
    form ← phone_form w app (rationale ∷ []) hierarchy
    return (component, form)

  -- The body of `try`.
  unfoldable pub session : Text → M (Unit {0})
  session apk = do
    (component, form) ← reach_form apk
    chosen ← select_backend w s form
    sign_in component chosen

  -- The script.
  unfoldable pub run : M (Unit {0})
  run = do apk ← prepare w s; finally (session apk) (finish w)
