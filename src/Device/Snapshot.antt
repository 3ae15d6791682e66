-- ===== src/Device/Snapshot.antt =====
-- `snapshot` of ci/android_client_smoke.py and ci/android_sandbox_smoke.py: up to twelve attempts
-- to dump the UI hierarchy, each to a new path, and a screenshot.
pub mod Calls
pub mod Attempted
pub mod Fresh
pub mod Bound
use capybaragram_build.Prelude.{
  ℕ, zero, suc, ◌+◌, Bool, true, false, [], ◌∷◌, ◌++◌, Option, none, some, leb, List,
}
use capybaragram_build.Text.{Text, codes, text_eq, is_prefix, contains}
use capybaragram_build.Text.Decimal.{decimal}
use capybaragram_build.Device.{
  Failure, called, timed_out, ill_formed, runtime, saved, appended, Tree, World, M, args, return,
  raise, catch, ◌>>=◌, ◌>>◌, emit, require, when, choose, run, device, now, from_string, sleep,
}

-- How an attempt ends: with a hierarchy and its text, with a screen that is not idle, or with one of
-- the exceptions that the loop handles.
pub data Attempt : Type 0 where
  fresh : Text → Tree → Attempt
  busy : Attempt
  failed : Failure → Attempt

-- `except (CalledProcessError, TimeoutExpired, ET.ParseError)`
unfoldable pub ordinary : Failure → M Attempt
ordinary (called out errors) = return (failed (called out errors))
ordinary timed_out = return (failed timed_out)
ordinary ill_formed = return (failed ill_formed)
ordinary e = raise e

-- The signature of a PNG file. A byte of a screenshot is a character of the same number here.
abbrev pub png_head : Text
png_head = 137 ∷ codes "PNG" ++ 13 ∷ 10 ∷ 26 ∷ 10 ∷ []

abbrev pub dump_command : Text → List Text
dump_command remote = args ("shell" ∷ "uiautomator" ∷ "dump" ∷ []) ++ remote ∷ []

abbrev pub cat_command : Text → List Text
cat_command remote = args ("shell" ∷ "cat" ∷ []) ++ remote ∷ []

abbrev pub capture_command : List Text
capture_command = args ("exec-out" ∷ "screencap" ∷ "-p" ∷ [])

-- The path of a dump, by the clock.
abbrev pub remote_at : ℕ → Text
remote_at ns = codes "/sdcard/capy-ui-" ++ decimal ns ++ codes ".xml"

-- What the loop does with the end of an attempt; `again` makes the attempts that are left, with
-- the ordinary failures so far.
unfoldable pub next : (ℕ → M (Option (Text × Tree))) → ℕ → Attempt → M (Option (Text × Tree))
next again failures (fresh xml tree) = return (some (xml, tree))
next again failures busy = again failures
next again failures (failed e) =
    choose (leb 4 (failures + 1)) (return none) (do sleep 2; again (failures + 1))

module _ (w : World) where
  -- What follows a dump that did not find the screen busy.
  unfoldable pub read_dump : Text → M Attempt
  read_dump remote = do
    xml ← device w (cat_command remote)
    tree ← from_string w xml
    require (text_eq tree.tag (codes "hierarchy")) (runtime (codes "Unexpected UI hierarchy root"))
    return (fresh xml tree)

  unfoldable pub after_dump : Text → Bool → M Attempt
  after_dump remote true = do sleep 2; return busy
  after_dump remote false = read_dump remote

  -- The body of `try`.
  unfoldable pub attempt : M Attempt
  attempt = do
    ns ← now w
    (out, errors) ← run w (dump_command (remote_at ns))
    emit (appended (codes "hierarchy-dump.log") (out ++ errors ++ codes "\n"))
    after_dump (remote_at ns) (contains (codes "ERROR: could not get idle state.") (out ++ errors))

  -- The loop, with the attempts that are left; the hierarchy and its text, if one was read.
  unfoldable pub attempts : ℕ → ℕ → M (Option (Text × Tree))
  attempts zero failures = return none
  attempts (suc left) failures = do
    ended ← catch attempt ordinary
    next (attempts left) failures ended

  unfoldable pub finish : Text → Option (Text × Tree) → M Tree
  finish name none = do
    (png, errors) ← run w capture_command
    when (is_prefix png_head png) (emit (saved (name ++ codes "-without-ui.png") png))
    raise (runtime (codes "No fresh UI hierarchy; no coordinates may be reused"))
  finish name (some (xml, tree)) = do
    emit (saved (name ++ codes ".xml") xml)
    (png, errors) ← run w capture_command
    require (is_prefix png_head png) (runtime (codes "Screenshot was not a PNG"))
    emit (saved (name ++ codes ".png") png)
    return tree

  -- `snapshot(name)`
  unfoldable pub snapshot : Text → M Tree
  snapshot name = do found ← attempts 12 0; finish name found
