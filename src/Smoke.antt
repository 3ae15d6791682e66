-- ===== src/Smoke.antt =====
-- What the emulator scripts share, each with its own copy: the exact APK, the wait for the boot, the
-- installation, and the questions about a hierarchy.
pub mod Boot
pub mod Finish
pub mod Silent
pub mod Start
pub mod Untyping
pub mod Sandbox
pub mod Client
pub mod Candidate
use capybaragram_build.Prelude.{
  ℕ, zero, suc, ◌+◌, ◌*◌, ◌^◌, Bool, true, false, ◌&&◌, List, [], ◌∷◌, ◌++◌, String, Option, none,
  some, any, ltb,
}
use capybaragram_build.Text.{Text, codes, text_eq, listed, contains, is_prefix, is_suffix}
use capybaragram_build.Text.Lines.{strip, splitlines}
use capybaragram_build.Apk.Flags.{require_disabled_flag}
use capybaragram_build.Device.{
  Failure, called, timed_out, index_error, runtime, stuck, Event, started, slept, saved, Value,
  texts, Node, Tree, World, M, args, return, raise, catch, lift, from_option, choose, require,
  refuse, ◌>>=◌, ◌>>◌, emit, sleep, note, run_tool, device, now, poll,
}
use capybaragram_build.Device.Screen.{get_or, is, select}

-- What a script finds on its machine: the APK files below its input directory with their paths, the
-- SDK's and its own directory, the functions of Python's library that it calls, and the environment.
pub record Setup : Type 0 where
  pub apks : List (Text × Text)
  pub avds : Text
  pub locale : Text
  pub run_id : Text
  pub random : ℕ
  pub sha256 : Text → Text
  pub word : ℕ → Bool
  pub lower : Text → Text

-- What differs between the scripts.
pub record Script : Type 0 where
  pub app : Text
  pub apk_sha : Text
  pub wrong_apk : Text
  pub flags : List Text

abbrev pub certificate : Text
certificate = codes "8254ebe4b00d6e4a95ee07dd27a30f8bd95b066b83c72affb39e4d25e7bff282"

-- `[n for n in tree.iter('node') if n.get('package') == PACKAGE]`
unfoldable pub own_nodes : Text → Tree → List Node
own_nodes app tree = select (λ n. is n "package" app) tree.nodes

-- `any(n.get('package') == PACKAGE for n in tree.iter('node'))`
unfoldable pub in_front : Text → Tree → Bool
in_front app tree = any (λ n. is n "package" app) tree.nodes

-- `n.get('class','').endswith('EditText')`
unfoldable pub is_edit : Node → Bool
is_edit n = is_suffix (codes "EditText") (get_or n "class")

-- `n.get('class','').endswith('EditText') and n.get('enabled') == 'true'`
unfoldable pub is_open : Node → Bool
is_open n = is_edit n && is n "enabled" (codes "true")

-- `any(n.get('text') == text for n in nodes)`
unfoldable pub shows : Text → List Node → Bool
shows text nodes = any (λ n. is n "text" text) nodes

-- `xs[-1]`
unfoldable pub last_line : List Text → M Text
last_line [] = raise index_error
last_line (l ∷ []) = return l
last_line (l ∷ m ∷ ls) = last_line (m ∷ ls)

-- The path of the only APK, if its contents are the reviewed ones.
unfoldable pub exact_apk : Setup → Script → List (Text × Text) → M Text
exact_apk s script ((path, raw) ∷ []) = do
  require (text_eq (s.sha256 raw) script.apk_sha) (runtime script.wrong_apk)
  return path
exact_apk s script apks = raise (runtime script.wrong_apk)

unfoldable pub check_flags : Setup → Text → List Text → M (Unit {0})
check_flags s manifest [] = return tt
check_flags s manifest (flag ∷ rest) = do
  lift (require_disabled_flag s.word s.lower manifest flag)
  check_flags s manifest rest

-- The arguments of `avdmanager` and of the emulator, with the name of the virtual device.
abbrev pub avd_args : Setup → String → List Text
avd_args s avd =
    args ("create" ∷ "avd" ∷ "--name" ∷ avd ∷ "--package" ∷ [])
    ++ (args ("system-images;android-30;google_apis;x86_64" ∷ "--path" ∷ [])
        ++ (s.avds ++ codes "/" ++ codes avd ++ codes ".avd") ∷ [])

abbrev pub emulator_args : String → Text → List Text
emulator_args avd locale =
    args (
      "-avd" ∷ avd ∷ "-no-window" ∷ "-no-audio" ∷ "-no-boot-anim" ∷ "-no-snapshot" ∷ "-gpu"
      ∷ "swiftshader_indirect" ∷ "-memory" ∷ "2048" ∷ "-cores" ∷ "2" ∷ "-port" ∷ "5554" ∷ "-accel"
      ∷ "on" ∷ "-change-locale" ∷ [])
    ++ locale ∷ []

abbrev pub start_command : Text → List Text
start_command component = args ("shell" ∷ "am" ∷ "start" ∷ "-W" ∷ "-n" ∷ []) ++ component ∷ []
