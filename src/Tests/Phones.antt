-- ===== src/Tests/Phones.antt =====
-- The theorems on the emulator scripts at a device that answers each command with one text.
use capybaragram_build.Prelude.{
  ℕ, ◌+◌, ◌-◌, ◌*◌, ◌≤◌, true, false, ◌&&◌, leb, List, [], ◌∷◌, ◌≢◌, refl, none, some,
  if◌then◌else◌, arith,
}
use capybaragram_build.Text.{Text, codes, text_eq, is_prefix, find, contains}
use capybaragram_build.Text.Decimal.{decimal_from, decimal}
use capybaragram_build.Device.{
  Event, slept, Reply, printed, Node, Tree, World, Trace, raised, stuck, return, raise, handle,
  catch, continue, from_option, ◌>>=◌, emit, require, when, choose, run, log_failure, device, now,
  from_string,
}
use capybaragram_build.Device.Emits.{Extends}
use capybaragram_build.Device.Bounds.{box, number, digits_from, skip, end}
use capybaragram_build.Device.Screen.{attribute, get, get_or, bounds_of, tap_with, tap}
use capybaragram_build.Device.Counts.{counted}
use capybaragram_build.Device.Tapped.{Tapped, tap-Tapped}
use capybaragram_build.Device.Snapshot.{
  read_dump, after_dump, attempt, ordinary, next, attempts, finish, snapshot, png_head,
}
use capybaragram_build.Device.Snapshot.Attempted.{Fresh}
use capybaragram_build.Device.Snapshot.Fresh.{snapshot-Fresh}
use capybaragram_build.Device.Snapshot.Bound.{is_dump, snapshot-dumps}
use capybaragram_build.Smoke.{Setup}
use capybaragram_build.Smoke.Boot
use capybaragram_build.Smoke.Boot.{second}
use capybaragram_build.Smoke.Boot.Timely.{IsTimely}
use capybaragram_build.Smoke.Boot.Ends.{boot-ends}
use capybaragram_build.Smoke.Silent.{silent}
use capybaragram_build.Smoke.Sandbox
use capybaragram_build.Smoke.Sandbox.Typed.{IsGuarded, run-IsGuarded}
use capybaragram_build.Smoke.Untyping.{Untyping, run_script, run_script-silent}

-- A screenshot for `screencap`, a hierarchy for `cat`, and else a certificate.
abbrev phone : List Text → Reply
phone (a ∷ b ∷ c ∷ rest) =
    if text_eq b (codes "screencap")
    then printed png_head []
    else if text_eq b (codes "cat")
    then printed (codes "<hierarchy/>") []
    else printed (codes "1") []
phone command = printed (codes "Success") []

abbrev elapsed : Trace → ℕ
elapsed [] = 0
elapsed (slept n ∷ t) = elapsed t + n * second
elapsed (e ∷ t) = elapsed t + 1

abbrev button : Node
button = record {
  attributes =
      (codes "text", codes "Start Messaging") ∷ (codes "bounds", codes "[0,10][20,40]") ∷ [];
  inner = [];
}

abbrev screen : Tree
screen = record { tag = codes "hierarchy"; nodes = button ∷ [] }

abbrev world : World
world = record {
  answer = λ t command. phone command;
  tool_answer = λ t name command. printed (codes "Signer #1") [];
  running = λ t. true;
  ends = λ t. true;
  clock = elapsed;
  report = λ t. [];
  parse = λ xml. some screen;
  casefold = λ text. text;
  digit = λ c. if leb 48 c && leb c 57 then some (c - 48) else none;
}

abbrev setup : Setup
setup = record {
  apks = (codes "client.apk", codes "PK") ∷ [];
  avds = codes "/tmp/avd";
  locale = codes "en-US";
  run_id = codes "1234567";
  random = 42;
  sha256 = λ raw. raw;
  word = λ c. false;
  lower = λ text. text;
}

-- What `snapshot` has called, and the hierarchy that it gives.
abbrev shot : Trace
shot = (snapshot world (codes "00-home") []).1

snapshot-Fresh_example : (xml : Text) × Fresh world [] shot xml screen
unfolding snapshot finish attempts next ordinary attempt after_dump read_dump catch handle continue
    ◌>>=◌ return raise emit require when choose run log_failure device now from_string from_option
    text_eq is_prefix find contains decimal_from decimal
snapshot-Fresh_example = snapshot-Fresh world (codes "00-home") [] shot screen refl

snapshot-dumps_example : counted is_dump shot ≤ counted is_dump [] + 12
snapshot-dumps_example = snapshot-dumps world (codes "00-home") []

tap-Tapped_example : Tapped world button [] (tap world button []).1
unfolding tap tap_with bounds_of box number digits_from skip end attribute get get_or catch handle
    continue ◌>>=◌ return raise emit require run log_failure device from_option text_eq
tap-Tapped_example = tap-Tapped world button [] (tap world button []).1 refl

timely : IsTimely world
timely = record { grows = step; sleeps = λ t n. omega arith }
  where
    step : (t : Trace) (e : Event) → elapsed t ≤ elapsed (e ∷ t)
    step t (slept n) = omega arith
    step t e = omega arith

boot-ends_example :
    (Boot.boot world (device world) (codes "en-US") (codes "stopped") (codes "late") []).0
    ≢ raised stuck
boot-ends_example = boot-ends world timely (codes "en-US") (codes "stopped") (codes "late") []

run-IsGuarded_example : IsGuarded world (Sandbox.run world setup []).1
run-IsGuarded_example = run-IsGuarded world setup

run_script-silent_example : Extends silent [] (run_script Untyping.candidate world setup []).1
run_script-silent_example = run_script-silent Untyping.candidate world setup []
