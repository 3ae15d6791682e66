-- ===== src/Smoke/Silent.antt =====
-- Actions of the emulator scripts that type no text into the device.
use capybaragram_build.Prelude.{
  ℕ, zero, suc, Bool, true, false, not, ◌&&◌, [], ◌∷◌, List, ◌≡◌, refl,
}
use capybaragram_build.Text.{Text, codes, text_eq}
use capybaragram_build.Device.{
  Failure, called, timed_out, ill_formed, runtime, Event, adb, Node, World, M, device,
}
use capybaragram_build.Device.Emits.{
  Emits, emits_rules, Emits-device, Emits-bind, Emits-lift, same, more,
}
use capybaragram_build.Device.Screen.{tap, tap_with, bounds_of}
use capybaragram_build.Device.Snapshot.{snapshot}
use capybaragram_build.Device.Snapshot.Calls.{Allows, snapshot-Emits}
use capybaragram_build.Smoke.{Setup, Script, last_line, exact_apk, check_flags}
use capybaragram_build.Smoke.Boot.{boot, booted, wait_boot, not_yet}
use capybaragram_build.Smoke.Finish.{
  pass, pass_all, on_timeout, restarted, save_report, wait, save_output, stop_emulator, finish,
}

-- `device('shell','input','text',...)`
unfoldable pub types : Event → Bool
unfolding text_eq
types (adb (a ∷ b ∷ c ∷ rest)) =
    text_eq a (codes "shell") && (text_eq b (codes "input") && text_eq c (codes "text"))
types e = false

abbrev pub silent : Event → Bool
silent e = not (types e)

pub silent-Allows : Allows silent
unfolding types
silent-Allows = record {
  clock = refl;
  sleeps = λ n. refl;
  writes = λ name text. refl;
  logs = λ name text. refl;
  reads = λ remote. refl;
  captures = refl;
}

module _ (w : World) where
  pub snapshot-silent : (name : Text) → Emits silent (snapshot w name)
  unfolding types
  snapshot-silent name = snapshot-Emits w silent silent-Allows (λ remote. refl) name

  pub device-silent :
      (command : List Text) → silent (adb command) ≡ true → Emits silent (device w command)
  unfolding types
  device-silent command h = Emits-device w command h (λ line. refl)

  pub bounds_of-silent : (message : Text) (n : Node) → Emits silent (bounds_of w message n)
  unfolding bounds_of
  bounds_of-silent message n = search emits_rules

  pub tap-silent : (n : Node) → Emits silent (tap w n)
  unfolding tap tap_with types
  tap-silent n = search (emits_rules, bounds_of-silent)

module _ (w : World) where
  pub pass-silent : (e : Failure) → Emits silent (pass e)
  unfolding pass
  pass-silent timed_out = search emits_rules
  pass-silent (called out errors) = search emits_rules
  pass-silent e = search emits_rules

  pub pass_all-silent : (e : Failure) → Emits silent (pass_all e)
  unfolding pass_all
  pass_all-silent ill_formed = search emits_rules
  pass_all-silent (runtime message) = search emits_rules
  pass_all-silent e = pass-silent e

  wait-silent : Emits silent (wait w)
  unfolding wait types
  wait-silent = record { at = λ t. more _ same refl }

  on_timeout-silent :
      (m : M (Unit {0})) (e : Failure) → Emits silent m → Emits silent (on_timeout m e)
  unfolding on_timeout
  on_timeout-silent m timed_out h = h
  on_timeout-silent m e h = search emits_rules

  save_output-silent :
      (file : Text) (command : List Text)
      → silent (adb command) ≡ true
      → Emits silent (save_output w file command)
  unfolding save_output types
  save_output-silent file command h = search (emits_rules, device-silent w, pass-silent)

  pub stop_emulator-silent :
      (call : List Text → M Text)
      → ((command : List Text) → silent (adb command) ≡ true → Emits silent (call command))
      → Emits silent (stop_emulator w call)
  unfolding stop_emulator types
  stop_emulator-silent call each =
      search (emits_rules, each, pass-silent, wait-silent, on_timeout-silent) depth 14

  pub restarted-silent : (value : Text) → Emits silent (restarted w value)
  unfolding restarted
  restarted-silent value = record { at = λ t. same }

  pub save_report-silent : Emits silent (save_report w)
  unfolding save_report types
  save_report-silent = record { at = λ t. more _ same refl }

  pub finish-silent : Emits silent (finish w)
  unfolding finish types
  finish-silent =
      search
        (
          emits_rules,
          device-silent w,
          pass_all-silent,
          save_report-silent,
          save_output-silent,
          restarted-silent,
          snapshot-silent w,
          stop_emulator-silent,
        )
        depth 16

  pub not_yet-silent : (e : Failure) → Emits silent (not_yet e)
  unfolding not_yet
  not_yet-silent timed_out = search emits_rules
  not_yet-silent (called out errors) = search emits_rules
  not_yet-silent e = search emits_rules

  -- `call` is the script's `device`.
  module _ (call : List Text → M Text)
      (each : (command : List Text) → silent (adb command) ≡ true → Emits silent (call command))
      (locale stopped tardy : Text) where
    booted-silent : Emits silent (booted w call locale stopped tardy)
    unfolding booted types
    booted-silent = search (emits_rules, each) depth 10

    wait_boot-silent :
        (fuel deadline : ℕ) → Emits silent (wait_boot w call locale stopped tardy fuel deadline)
    unfolding wait_boot types
    wait_boot-silent zero deadline = search emits_rules
    wait_boot-silent (suc fuel) deadline =
        search (emits_rules, booted-silent, not_yet-silent, wait_boot-silent fuel) depth 14

    pub boot-silent_with : Emits silent (boot w call locale stopped tardy)
    unfolding boot types
    boot-silent_with = search (emits_rules, wait_boot-silent)

  pub boot-silent :
      (locale stopped tardy : Text) → Emits silent (boot w (device w) locale stopped tardy)
  boot-silent locale stopped tardy =
      boot-silent_with (device w) (λ command h. device-silent w command h) locale stopped tardy

pub last_line-silent : (lines : List Text) → Emits silent (last_line lines)
unfolding last_line
last_line-silent [] = search emits_rules
last_line-silent (l ∷ []) = search emits_rules
last_line-silent (l ∷ m ∷ ls) = last_line-silent (m ∷ ls)

pub exact_apk-silent :
    (s : Setup) (script : Script) (apks : List (Text × Text))
    → Emits silent (exact_apk s script apks)
unfolding exact_apk
exact_apk-silent s script [] = search emits_rules
exact_apk-silent s script ((path, raw) ∷ []) = search emits_rules
exact_apk-silent s script (a ∷ b ∷ apks) = search emits_rules

pub check_flags-silent :
    (s : Setup) (manifest : Text) (flags : List Text) → Emits silent (check_flags s manifest flags)
unfolding check_flags
check_flags-silent s manifest [] = search emits_rules
check_flags-silent s manifest (flag ∷ rest) =
    Emits-bind _ _ (Emits-lift _) (λ done. check_flags-silent s manifest rest)

pub ruleset silent_rules = (
  emits_rules, device-silent, snapshot-silent, tap-silent, finish-silent, boot-silent,
  last_line-silent, exact_apk-silent, check_flags-silent,
)
