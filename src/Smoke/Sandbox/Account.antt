-- ===== src/Smoke/Sandbox/Account.antt =====
-- The sandbox script from the entered code to its end: the name of the test account, the account
-- menu, and the same account behind a restart.
use capybaragram_build.Prelude.{◌-◌, true, false, ◌&&◌, [], ◌∷◌, ◌++◌, List, any, length, drop}
use capybaragram_build.Text.{Text, codes}
use capybaragram_build.Device.{
  runtime, flag, text, Node, Tree, World, M, args, return, raise, require, refuse, ◌>>=◌, ◌>>◌,
  sleep, note, device,
}
use capybaragram_build.Device.Screen.{get, is, is_in, select, tap, is_given}
use capybaragram_build.Device.Snapshot.{snapshot}
use capybaragram_build.Smoke.{Setup, shows, is_open, start_command}
use capybaragram_build.Smoke.Sandbox.Actions.{
  app, own, only, action, check_server_errors, text_command,
}

-- The control that opens the account menu.
unfoldable pub navigation : Tree → List Node
navigation tree =
    select
      (λ n.
        is n "clickable" (codes "true")
        && is_in n "content-desc" (codes "Open navigation menu" ∷ codes "Open menu" ∷ []))
      (own tree)

-- The two empty fields of a name.
unfoldable pub name_field : List Node → M Node
name_field (a ∷ b ∷ []) = do
  refuse (any (λ n. is_given (get n "text")) (a ∷ b ∷ []))
      (runtime (codes "Expected empty first/last-name fields for fresh test signup"))
  return a
name_field nodes =
    raise (runtime (codes "Expected empty first/last-name fields for fresh test signup"))

module _ (w : World) (s : Setup) where
  -- `'CapyCI'+os.environ['GITHUB_RUN_ID'][-6:]`
  unfoldable pub own_name : Text
  own_name = codes "CapyCI" ++ drop (length s.run_id - 6) s.run_id

  -- The sign-up behind the code; the first hierarchy behind it.
  unfoldable pub sign_up : M Tree
  sign_up = do
    sleep 12
    offered ← snapshot w (codes "07-after-test-code")
    check_server_errors w offered
    require (shows (codes "Your name") (own offered)) (
        runtime
          (codes "A fresh test signup was not offered; do not inspect an existing test account"))
    note "test_code_accepted" (text (codes "PASS (server advanced to fresh signup)"))
    field ← name_field (select is_open (own offered))
    tap w field
    typed ← device w (text_command own_name)
    named ← snapshot w (codes "08-test-name")
    require (shows own_name (own named)) (runtime (codes "Native test name input was not retained"))
    action w named (codes "Done")
    sleep 15
    behind ← snapshot w (codes "09-after-signup")
    check_server_errors w behind
    note "signup_submitted" (flag true)
    return behind

  -- The account menu of a hierarchy shows the account's name.
  unfoldable pub open_menu : Text → Text → Text → Tree → M (Unit {0})
  open_menu missing file hidden tree = do
    control ← only missing (navigation tree)
    tap w control
    sleep 3
    menu ← snapshot w file
    require (shows own_name (own menu)) (runtime hidden)

  unfoldable pub account_menu : Tree → M (Unit {0})
  account_menu tree = do
    open_menu (codes "Expected authenticated navigation control missing; inspect post-signup state")
        (codes "10-test-account-menu") (codes "Fresh test account name not visible in account menu")
        tree
    note "test_server_login"
        (text (codes "PASS (native signup and own account menu observed on Test Backend)"))
    note "production_login_tested" (flag false)

  unfoldable pub restart : Text → M (Unit {0})
  restart component = do
    stopped ← device w (args ("shell" ∷ "am" ∷ "force-stop" ∷ []) ++ app ∷ [])
    started ← device w (start_command component)
    sleep 12
    tree ← snapshot w (codes "11-test-account-restart")
    refuse (shows (codes "Start Messaging") (own tree))
        (runtime (codes "Test account was lost after restart"))
    open_menu (codes "Authenticated navigation missing after restart")
        (codes "12-restarted-account-menu") (codes "Own test account did not survive restart") tree
    note "cold_restart" (text (codes "PASS"))
