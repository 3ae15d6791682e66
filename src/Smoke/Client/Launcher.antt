-- ===== src/Smoke/Client/Launcher.antt =====
-- The client script from the APK to the client's first hierarchy: the installation, and the way
-- through the launcher to the client's icon.
use capybaragram_build.Prelude.{
  ◌+◌, ◌-◌, ◌/◌, Bool, false, not, ◌&&◌, ◌||◌, [], ◌∷◌, ◌++◌, String, List, Option, none, some, any,
  ltb,
}
use capybaragram_build.Text.{Text, codes, contains, is_prefix}
use capybaragram_build.Text.Decimal.{decimal}
use capybaragram_build.Text.Lines.{strip, splitlines}
use capybaragram_build.Device.{
  runtime, started, saved, text, flag, Node, Tree, World, M, args, return, require, from_option,
  choose, ◌>>=◌, ◌>>◌, emit, sleep, note, run_tool, device,
}
use capybaragram_build.Device.Bounds.{Box, box}
use capybaragram_build.Device.Screen.{get_or, is, is_in, first, tap, bounds_of}
use capybaragram_build.Device.Snapshot.{snapshot}
use capybaragram_build.Smoke.{
  Setup, Script, certificate, in_front, shows, last_line, exact_apk, check_flags, avd_args,
  emulator_args,
}
use capybaragram_build.Smoke.Boot.{boot}
use capybaragram_build.Smoke.Start.{note_property}

abbrev pub app : Text
app = codes "org.capybaragram"

abbrev pub script : Script
script = record {
  app = app;
  apk_sha = codes "0f45adefbb1658bf941888f860e015e9730d606ac10568ac428fc0d543f05510";
  wrong_apk = codes "Artifact is not the exact reviewed Android appearance candidate APK";
  flags = codes "testOnly" ∷ codes "debuggable" ∷ codes "allowBackup" ∷ [];
}

abbrev pub launcher : Text
launcher = codes "com.google.android.apps.nexuslauncher"

abbrev pub app_lists : List Text
app_lists = codes "Список приложений" ∷ codes "Apps list" ∷ codes "All apps" ∷ []

unfoldable pub is_app_list : Node → Bool
is_app_list n = is n "package" launcher && is_in n "content-desc" app_lists

unfoldable pub is_live : Node → Bool
is_live n = is n "clickable" (codes "true") && is n "enabled" (codes "true")

unfoldable pub labelled : Tree → Bool
labelled tree = shows (codes "CapybaraGram") tree.nodes

abbrev pub swipe_command : Text → Text → Text → Text → Text → List Text
swipe_command x1 y1 x2 y2 ms =
    args ("shell" ∷ "input" ∷ "swipe" ∷ []) ++ x1 ∷ y1 ∷ x2 ∷ y2 ∷ ms ∷ []

abbrev pub key_command : String → List Text
key_command key = args ("shell" ∷ "input" ∷ "keyevent" ∷ key ∷ [])

module _ (w : World) (s : Setup) where
  unfoldable pub prepare : M Text
  prepare = do
    apk ← exact_apk s script s.apks
    signers ← run_tool w (codes "apksigner") (args ("verify" ∷ "--print-certs" ∷ []) ++ apk ∷ [])
    require (contains (codes "Signer #1 certificate SHA-256 digest: " ++ certificate) signers.0)
        (runtime (codes "APK signing identity differs"))
    dumped ←
        run_tool w (codes "aapt")
          (args ("dump" ∷ "xmltree" ∷ []) ++ apk ∷ codes "AndroidManifest.xml" ∷ [])
    check_flags s dumped.0 script.flags
    made ← run_tool w (codes "avdmanager") (avd_args s "capy-client")
    checked ← run_tool w (codes "emulator") (args ("-accel-check" ∷ []))
    emit (started (emulator_args "capy-client" s.locale))
    return apk

  unfoldable pub ready : M (Unit {0})
  ready = do
    boot w (device w) s.locale (codes "Emulator stopped before boot")
        (codes "Emulator boot timed out")
    sleep 10
    locale ← note_property w "locale" (codes "persist.sys.locale")
    fingerprint ← note_property w "fingerprint" (codes "ro.build.fingerprint")
    abis ← note_property w "abi_list" (codes "ro.product.cpu.abilist")
    bridge ← note_property w "native_bridge" (codes "ro.dalvik.vm.native.bridge")
    require (contains (codes "arm64-v8a") abis)
        (runtime (codes "This emulator image does not advertise ARM64 compatibility"))
    note "test_only_apk" (flag false)

  unfoldable pub install : Text → M (Unit {0})
  install apk = do
    installed ← device w (codes "install" ∷ apk ∷ [])
    emit (saved (codes "install.txt") installed)
    require (contains (codes "Success") installed)
        (runtime (codes "APK installation did not succeed"))
    note "install" (text (codes "PASS"))

  -- The drawer of the launcher, by the control that the home screen shows.
  unfoldable pub open_drawer : M Tree
  open_drawer = do
    pressed ← device w (key_command "KEYCODE_HOME")
    sleep 5
    home ← snapshot w (codes "00-home")
    button ←
        from_option (runtime (codes "Launcher app-list control is not visible"))
          (first (λ n. is_app_list n && is_live n) home.nodes)
    tap w button
    sleep 3
    snapshot w (codes "00-launcher")

  -- The swipe above the dock, where the dock has usable bounds.
  unfoldable pub swipe_from : Tree → Option Box → M Tree
  swipe_from drawer none = return drawer
  swipe_from drawer (some b) =
      let x = decimal ((b.x1 + b.x2) / 2) in
      choose (ltb b.x1 b.x2 && ltb 80 b.y1)
        (do
          swiped ←
              device w (swipe_command x (decimal (b.y1 - 20)) x (decimal (b.y1 / 4)) (codes "250"))
          sleep 3
          snapshot w (codes "00-launcher-after-workspace-swipe"))
        (return drawer)

  unfoldable pub dock_box : Tree → Option Box
  dock_box drawer =
      elim (first
        (λ n. is n "resource-id" (codes "com.google.android.apps.nexuslauncher:id/hotseat"))
        drawer.nodes) [ none ↦ none | some dock ↦ box w.digit (get_or dock "bounds") ]

  unfoldable pub swipe_dock : Tree → M Tree
  swipe_dock drawer = choose (labelled drawer) (return drawer) (swipe_from drawer (dock_box drawer))

  unfoldable pub press_all_apps : Tree → M Tree
  press_all_apps drawer =
      choose (labelled drawer || not (any is_app_list drawer.nodes)) (return drawer) (do
        pressed ← device w (key_command "KEYCODE_ALL_APPS")
        sleep 3
        opened ← snapshot w (codes "00-launcher-after-all-apps-key")
        note "launcher_open_fallback"
            (text (codes "Android KEYCODE_ALL_APPS from observed Pixel home screen"))
        return opened)

  -- The swipe from the control of the launcher behind its restart, if it shows one.
  unfoldable pub swipe_recovered : Tree → Option Node → M Tree
  swipe_recovered drawer none = return drawer
  swipe_recovered drawer (some node) = do
    b ← bounds_of w (codes "Recovered launcher control has invalid bounds") node
    require (ltb b.x1 b.x2 && (ltb b.y1 b.y2 && not (ltb b.y1 100)))
        (runtime (codes "Recovered launcher control is not usable"))
    let x = decimal ((b.x1 + b.x2) / 2)
    swiped ←
        device w
          (swipe_command x (decimal ((b.y1 + b.y2) / 2)) x (decimal (b.y1 / 4)) (codes "600"))
    sleep 5
    opened ← snapshot w (codes "00-launcher-recovered")
    note "launcher_recovery" (
        text (
          codes
            "Restarted only disposable Pixel Launcher once; swiped from freshly observed app-list control"))
    return opened

  unfoldable pub recover : Tree → M Tree
  recover drawer = choose (labelled drawer) (return drawer) (do
    resolved ← device w (
        args (
          "shell" ∷ "cmd" ∷ "package" ∷ "resolve-activity" ∷ "--brief" ∷ "-a"
          ∷ "android.intent.action.MAIN" ∷ "-c" ∷ "android.intent.category.HOME" ∷ []))
    home ← last_line (splitlines (strip resolved))
    choose (is_prefix (launcher ++ codes "/") home)
        (do
          stopped ← device w (args ("shell" ∷ "am" ∷ "force-stop" ∷ []) ++ launcher ∷ [])
          pressed ← device w (key_command "KEYCODE_HOME")
          sleep 10
          recovered ← snapshot w (codes "00-home-recovered")
          swipe_recovered recovered (first (λ n. is_app_list n && is_live n) recovered.nodes))
        (return drawer))

  -- What the launcher shows of the client: its icon is tapped, or the state of the launcher is saved.
  unfoldable pub open_icon : Option Node → M (Unit {0})
  open_icon (some icon) = do
    note "launcher_entry" (text (codes "PASS (label present; icon visual review pending)"))
    tap w icon
    sleep 20
    opened ← snapshot w (codes "00-launcher-icon-opened")
    require (in_front app opened)
        (runtime (codes "Visible launcher icon did not open CapybaraGram"))
    note "launcher_entry" (text (codes "PASS (visible CapybaraGram icon tapped; app UI opened)"))
  open_icon none = do
    note "launcher_entry" (
        text (
          codes
            "FAIL: launcher did not expose CapybaraGram; startup checks continue for diagnosis"))
    input ← device w (args ("shell" ∷ "dumpsys" ∷ "input" ∷ []))
    emit (saved (codes "launcher-input.txt") input)
    window ← device w (args ("shell" ∷ "dumpsys" ∷ "window" ∷ []))
    emit (saved (codes "launcher-window.txt") window)

  unfoldable pub through_launcher : M (Unit {0})
  through_launcher = do
    drawer ← open_drawer
    swiped ← swipe_dock drawer
    pressed ← press_all_apps swiped
    recovered ← recover pressed
    open_icon (
        first (λ n. is n "text" (codes "CapybaraGram") && not (is n "package" app)) recovered.nodes)

  unfoldable pub resolve : M Text
  resolve = do
    resolved ←
        device w
          (args ("shell" ∷ "cmd" ∷ "package" ∷ "resolve-activity" ∷ "--brief" ∷ []) ++ app ∷ [])
    component ← last_line (splitlines (strip resolved))
    require (is_prefix (app ++ codes "/") component)
        (runtime (codes "No package launcher activity"))
    return component
