-- ===== src/Smoke/Sandbox/Launch.antt =====
-- The sandbox script up to its first hierarchy: the exact APK, the emulator, and the installation.
use capybaragram_build.Prelude.{false, ◌||◌, [], ◌∷◌, ◌++◌, List}
use capybaragram_build.Text.{Text, codes, contains, is_prefix, join}
use capybaragram_build.Text.Lines.{strip, splitlines}
use capybaragram_build.Device.{
  runtime, started, saved, text, flag, World, M, args, return, require, ◌>>=◌, ◌>>◌, emit, sleep,
  note, run_tool, device,
}
use capybaragram_build.Device.Screen.{select}
use capybaragram_build.Smoke.{
  Setup, Script, certificate, last_line, exact_apk, check_flags, avd_args, emulator_args,
}
use capybaragram_build.Smoke.Boot.{boot}
use capybaragram_build.Smoke.Start.{note_property}
use capybaragram_build.Smoke.Sandbox.Actions.{app}

abbrev pub script : Script
script = record {
  app = app;
  apk_sha = codes "bc368ad62725fc867e819bbe5655cf8133d7cf5027c0d6fd19aa6130df9d35d8";
  wrong_apk = codes "Artifact is not the exact reviewed Android notes APK";
  flags = codes "testOnly" ∷ [];
}

-- The lines of the manifest that name one of the flags.
unfoldable pub flag_lines : Text → List Text
flag_lines manifest =
    select
      (λ line.
        contains (codes "android:testOnly") line
        || (contains (codes "android:debuggable") line
            || contains (codes "android:allowBackup") line))
      (splitlines manifest)

unfoldable pub rationale : Text
rationale =
    codes
      "Please allow Telegram to receive calls so that we can automatically confirm your phone number."

module _ (w : World) (s : Setup) where
  -- Everything before the `try`, from the APK on; its path.
  unfoldable pub prepare : M Text
  prepare = do
    apk ← exact_apk s script s.apks
    signers ← run_tool w (codes "apksigner") (args ("verify" ∷ "--print-certs" ∷ []) ++ apk ∷ [])
    require (contains (codes "Signer #1 certificate SHA-256 digest: " ++ certificate) signers.0)
        (runtime (codes "APK signing identity differs"))
    dumped ←
        run_tool w (codes "aapt")
          (args ("dump" ∷ "xmltree" ∷ []) ++ apk ∷ codes "AndroidManifest.xml" ∷ [])
    check_flags s dumped.0 script.flags
    emit (saved (codes "preview-manifest-flags.txt") (join (codes "\n") (flag_lines dumped.0)))
    made ← run_tool w (codes "avdmanager") (avd_args s "capy-client")
    checked ← run_tool w (codes "emulator") (args ("-accel-check" ∷ []))
    emit (started (emulator_args "capy-client" s.locale))
    return apk

  -- The boot, the backup manager, and the properties of the emulator.
  unfoldable pub ready : M (Unit {0})
  ready = do
    boot w (device w) s.locale (codes "Emulator stopped before boot")
        (codes "Emulator boot timed out")
    sleep 10
    disabled ← device w (args ("shell" ∷ "bmgr" ∷ "enable" ∷ "false" ∷ []))
    state ← device w (args ("shell" ∷ "bmgr" ∷ "enabled" ∷ []))
    require (contains (codes "disabled") (w.casefold (strip state)))
        (runtime (codes "Disposable emulator backup manager did not disable"))
    note "emulator_backup_manager" (text (strip state))
    locale ← note_property w "locale" (codes "persist.sys.locale")
    fingerprint ← note_property w "fingerprint" (codes "ro.build.fingerprint")
    abis ← note_property w "abi_list" (codes "ro.product.cpu.abilist")
    bridge ← note_property w "native_bridge" (codes "ro.dalvik.vm.native.bridge")
    require (contains (codes "arm64-v8a") abis)
        (runtime (codes "This emulator image does not advertise ARM64 compatibility"))
    note "test_only_apk" (flag false)

  -- The installation; the component that the launcher starts.
  unfoldable pub install : Text → M Text
  install apk = do
    installed ← device w (codes "install" ∷ apk ∷ [])
    emit (saved (codes "install.txt") installed)
    require (contains (codes "Success") installed)
        (runtime (codes "APK installation did not succeed"))
    note "install" (text (codes "PASS"))
    resolved ←
        device w
          (args ("shell" ∷ "cmd" ∷ "package" ∷ "resolve-activity" ∷ "--brief" ∷ []) ++ app ∷ [])
    component ← last_line (splitlines (strip resolved))
    require (is_prefix (app ++ codes "/") component)
        (runtime (codes "No package launcher activity"))
    return component
