-- ===== src/Smoke/Candidate.antt =====
-- ci/android_candidate_runtime.py: the compiled candidate is installed and started; its themes, its
-- phone form and its built-in route are exercised without an account. `session` is the body of its
-- `try`, and `run` adds what stands before it and the `finally`. Not modelled: the directories that it makes
-- before.
pub mod Controls
pub mod Untyped
use capybaragram_build.Prelude.{
  ℕ, zero, suc, ◌+◌, Bool, true, false, not, ◌&&◌, ◌||◌, [], ◌∷◌, ◌++◌, String, List, Option, none,
  some, any,
}
use capybaragram_build.Text.{Text, codes, listed, contains, is_prefix}
use capybaragram_build.Text.Decimal.{decimal}
use capybaragram_build.Text.Lines.{strip, splitlines}
use capybaragram_build.Device.{
  Failure, runtime, started, saved, text, Node, Tree, World, M, args, return, raise, catch, require,
  refuse, finally, choose, when, ◌>>=◌, ◌>>◌, emit, sleep, note, run_tool, device_only,
}
use capybaragram_build.Device.Screen.{get_or, is, is_in, select, is_full}
use capybaragram_build.Smoke.{
  Setup, Script, certificate, is_open, last_line, exact_apk, check_flags, avd_args, emulator_args,
  start_command,
}
use capybaragram_build.Smoke.Boot.{boot}
use capybaragram_build.Smoke.Start.{controllers}
use capybaragram_build.Smoke.Finish.{pass, restarted, save_report, stop_emulator}
use capybaragram_build.Smoke.Client.{rationales}
use capybaragram_build.Smoke.Client.Launcher.{app}
use capybaragram_build.Smoke.Client.Intro.{night, day}
use capybaragram_build.Smoke.Candidate.Controls.{
  own, visible, ordinary, require_readable_dialog, snapshot, tap_only, action, open_connection,
}

abbrev pub script : Script
script = record {
  app = app;
  apk_sha = codes "55be0b59ed089e5867fdc1ed1e6f8fa0ee3b8673dab5f7da38b491f0234a8c2b";
  wrong_apk = codes "Input is not the exact compiled candidate APK.";
  flags = codes "testOnly" ∷ codes "debuggable" ∷ codes "allowBackup" ∷ [];
}

-- `any(n.get('class','').endswith('EditText') and n.get('enabled')=='true' for n in own(tree))`
unfoldable pub has_field : Tree → Bool
has_field tree = any is_open (own tree)

abbrev pub restart_passed : Text
restart_passed = codes "PASS (accountless application only)"

-- `except (CalledProcessError, TimeoutExpired, RuntimeError): pass`
unfoldable pub pass_runtime : Failure → M (Unit {0})
pass_runtime (runtime message) = return tt
pass_runtime e = pass e

module _ (w : World) (s : Setup) where
  unfoldable pub prepare : M Text
  prepare = do
    apk ← exact_apk s script s.apks
    signers ← run_tool w (codes "apksigner") (args ("verify" ∷ "--print-certs" ∷ []) ++ apk ∷ [])
    require (contains (codes "Signer #1 certificate SHA-256 digest: " ++ certificate) signers.0)
        (runtime (codes "APK signer identity differs."))
    dumped ←
        run_tool w (codes "aapt")
          (args ("dump" ∷ "xmltree" ∷ []) ++ apk ∷ codes "AndroidManifest.xml" ∷ [])
    check_flags s dumped.0 script.flags
    made ← run_tool w (codes "avdmanager") (avd_args s "capy-current")
    checked ← run_tool w (codes "emulator") (args ("-accel-check" ∷ []))
    emit (started (emulator_args "capy-current" (codes "ru-RU")))
    return apk

  -- `result[key]=device('shell','getprop',name).strip()`
  unfoldable pub note_property : String → Text → M Text
  note_property key name = do
    value ← device_only w (args ("shell" ∷ "getprop" ∷ []) ++ name ∷ [])
    note key (text (strip value))
    return (strip value)

  -- The boot and the installation; the component that the launcher starts.
  unfoldable pub install : Text → M Text
  install apk = do
    boot w (device_only w) (codes "ru-RU") (codes "Disposable emulator exited before boot.")
        (codes "Disposable emulator boot timed out.")
    sleep 10
    abis ← note_property "abi_list" (codes "ro.product.cpu.abilist")
    bridge ← note_property "native_bridge" (codes "ro.dalvik.vm.native.bridge")
    fingerprint ← note_property "fingerprint" (codes "ro.build.fingerprint")
    require (contains (codes "arm64-v8a") abis)
        (runtime (codes "This emulator does not advertise ARM64 translation."))
    installed ← device_only w (codes "install" ∷ apk ∷ [])
    require (contains (codes "Success") installed)
        (runtime (codes "Ordinary APK installation failed."))
    note "install" (text (codes "PASS"))
    resolved ←
        device_only w
          (args ("shell" ∷ "cmd" ∷ "package" ∷ "resolve-activity" ∷ "--brief" ∷ []) ++ app ∷ [])
    component ← last_line (splitlines (strip resolved))
    require (is_prefix (app ++ codes "/") component)
        (runtime (codes "No current package launcher activity."))
    return component

  -- `device('shell','pidof',PACKAGE).strip()`, as a condition
  unfoldable pub lives : M Bool
  lives = do
    pid ← device_only w (args ("shell" ∷ "pidof" ∷ []) ++ app ∷ [])
    return (is_full (strip pid))

  unfoldable pub launch : Text → M Tree
  launch component = do
    output ← device_only w (start_command component)
    sleep 20
    tree ← snapshot w (codes "01-intro-light")
    alive ← choose (visible tree (codes "CapybaraGram")) lives (return false)
    require alive (runtime (codes "Release client did not open its observed intro."))
    note "launch" (text (codes "PASS"))
    return tree

  unfoldable pub describes : List Text → Tree → Bool
  describes labels tree = any (λ n. listed (w.casefold (get_or n "content-desc")) labels) (own tree)

  -- Both themes, and back; then the button that leads to the phone form.
  unfoldable pub themes : Tree → M Tree
  themes light = do
    action w "content-desc" light night
    sleep 5
    dark ← snapshot w (codes "02-intro-dark")
    require (describes day dark) (runtime (codes "Native theme did not switch to dark."))
    action w "content-desc" dark day
    sleep 5
    again ← snapshot w (codes "03-intro-light-return")
    require (describes night again) (runtime (codes "Native theme did not switch back to light."))
    note "light_dark_intro" (text (codes "PASS (both directions; visual review pending)"))
    action w "text" again (codes "start messaging" ∷ codes "начать общение" ∷ [])
    sleep 5
    snapshot w (codes "04-phone-initial")

  -- The button of the permission controller that denies.
  unfoldable pub denials : Tree → List Node
  denials tree =
      select
        (λ n.
          is_in n "package" controllers
          && (listed (w.casefold (get_or n "text"))
                (codes "deny" ∷ codes "don't allow" ∷ codes "запретить" ∷ codes "не разрешать" ∷ [])
              && is n "clickable" (codes "true")))
        tree.nodes

  unfoldable pub leave_overlay : Tree → M (Unit {0})
  leave_overlay tree =
      choose (any (visible tree) rationales)
        (action w "text" tree (codes "Continue" ∷ codes "Продолжить" ∷ []))
        (tap_only w (codes "Unexpected phone permission overlay; no input entered.")
          (codes "Permission denial control has invalid bounds.")
          (codes "Permission denial control is not visible.") (denials tree))

  -- `for attempt in range(4)`, with the attempts that are left
  unfoldable pub permissions : ℕ → ℕ → Tree → M Tree
  permissions zero attempt tree = return tree
  permissions (suc left) attempt tree = choose (has_field tree) (return tree) (do
    leave_overlay tree
    sleep 3
    next ← snapshot w (codes "04-phone-permission-" ++ decimal (attempt + 1))
    permissions left (attempt + 1) next)

  unfoldable pub phone_form : Tree → M Tree
  phone_form initial = do
    form ← permissions 4 0 initial
    require (has_field form) (runtime (codes "Native phone entry was not exposed."))
    refuse (any (λ n. contains (codes "test backend") (w.casefold (get_or n "text"))) (own form))
        (runtime (codes "Release phone form exposed debug backend selection."))
    note "phone_form" (text (codes "PASS (no phone/code/account entered)"))
    return form

  -- The route of the client is ordinary, is switched on, and is ordinary again.
  unfoldable pub route : Tree → M Tree
  route form = do
    first ← open_connection w form (codes "05-connection-default")
    require (ordinary first) (runtime (codes "Fresh application connection mode was not ordinary."))
    require_readable_dialog first
    note "connection_dialog" (text (codes "PASS (native prelogin dialog, default ordinary route)"))
    action w "text" first (codes "Включить маршрут" ∷ [])
    sleep 12
    phone ← snapshot w (codes "06-route-started-phone")
    ready ← open_connection w phone (codes "07-connection-local-ready")
    require
        (any (λ n. is_prefix (codes "Встроенный маршрут запущен.") (get_or n "text")) (own ready))
        (runtime (codes "Actual ARM64 native tunnel did not report LOCAL_READY."))
    require_readable_dialog ready
    note "arm64_tunnel_local_start"
        (text (codes "PASS (actual production APK, translated ARM64 JNI; loopback readiness only)"))
    action w "text" ready (codes "Обычное подключение" ∷ [])
    sleep 3
    disabled ← snapshot w (codes "08-route-disabled-phone")
    last ← open_connection w disabled (codes "09-connection-disabled")
    require (ordinary last)
        (runtime (codes "Explicit ordinary route did not restore native UI state."))
    require_readable_dialog last
    note "connection_description_fits" (
        text (
          codes
            "PASS (all three initial dialog states non-scrollable at 320dp; account-wide disclosure included)"))
    note "explicit_route_disable" (text (codes "PASS"))
    action w "text" last (codes "Отмена" ∷ codes "Cancel" ∷ [])
    return last

  unfoldable pub restart : Text → M (Unit {0})
  restart component = do
    stopped ← device_only w (args ("shell" ∷ "am" ∷ "force-stop" ∷ []) ++ app ∷ [])
    output ← device_only w (start_command component)
    sleep 10
    tree ← snapshot w (codes "10-cold-restart")
    alive ← lives
    require (alive && is_full (own tree))
        (runtime (codes "Release client exited or lost foreground after restart."))
    crash ← device_only w (args ("logcat" ∷ "-b" ∷ "crash" ∷ "-d" ∷ []))
    emit (saved (codes "crash-buffer.txt") crash)
    refuse (contains app crash) (runtime (codes "Current client appeared in Android crash buffer."))
    note "cold_restart" (text restart_passed)

  -- The body of `try`.
  unfoldable pub session : Text → M (Unit {0})
  session apk = do
    component ← install apk
    intro ← launch component
    initial ← themes intro
    form ← phone_form initial
    dialog ← route form
    restart component

  -- What the `finally` saves of a failure.
  unfoldable pub evidence : M (Unit {0})
  evidence = do
    crash ← device_only w (args ("logcat" ∷ "-b" ∷ "crash" ∷ "-d" ∷ []))
    emit (saved (codes "crash-buffer.txt") crash)
    done ← restarted w restart_passed
    when (not done) (do tree ← snapshot w (codes "failure"); return tt)

  unfoldable pub finish : M (Unit {0})
  finish = do save_report w; catch evidence pass_runtime; stop_emulator w (device_only w)

  -- The script.
  unfoldable pub run : M (Unit {0})
  run = do apk ← prepare; finally (session apk) finish
