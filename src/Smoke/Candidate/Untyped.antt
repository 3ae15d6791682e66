-- ===== src/Smoke/Candidate/Untyped.antt =====
-- The candidate script types no text at all.
use capybaragram_build.Prelude.{ℕ, zero, suc, true, [], ◌∷◌, List, String, ◌≡◌, Option, none, some}
use capybaragram_build.Text.{Text}
use capybaragram_build.Device.{
  Failure, called, ill_formed, runtime, adb, Node, Trace, Tree, World, M, device_only,
}
use capybaragram_build.Device.Emits.{Extends, Emits, emits_rules, Emits-device_only}
use capybaragram_build.Device.Screen.{tap_with}
use capybaragram_build.Smoke.{Setup}
use capybaragram_build.Smoke.Silent.{
  types, silent, bounds_of-silent, boot-silent_with, last_line-silent, exact_apk-silent,
  check_flags-silent, save_report-silent, restarted-silent, stop_emulator-silent, pass-silent,
}
use capybaragram_build.Smoke.Candidate.{
  prepare, note_property, install, lives, launch, themes, leave_overlay, permissions, phone_form,
  route, restart, session, pass_runtime, evidence, finish, run,
}
use capybaragram_build.Smoke.Candidate.Controls.{
  unread, read, capture, after_read, snapshot_in, snapshot, tap_only, action, open_connection,
  require_readable_dialog,
}

unread-silent : {A : Type 0} (e : Failure) → Emits silent (unread {A = A} e)
unfolding unread types
unread-silent (called out errors) = search emits_rules
unread-silent ill_formed = search emits_rules
unread-silent e = search emits_rules

pass_runtime-silent : (w : World) (e : Failure) → Emits silent (pass_runtime e)
unfolding pass_runtime
pass_runtime-silent w (runtime message) = search emits_rules
pass_runtime-silent w e = pass-silent w e

dialog-silent : (tree : Tree) → Emits silent (require_readable_dialog tree)
unfolding require_readable_dialog
dialog-silent tree = search emits_rules

module _ (w : World) where
  read-silent : (remote : Text) → Emits silent (read w remote)
  unfolding read types
  read-silent remote = search emits_rules

  capture-silent : (name raw : Text) (tree : Tree) → Emits silent (capture w name raw tree)
  unfolding capture types
  capture-silent name raw tree = search emits_rules depth 14

  after_read-silent :
      (name : Text) (again : M Tree) (o : Option (Text × Tree))
      → Emits silent again
      → Emits silent (after_read w name again o)
  unfolding after_read
  after_read-silent name again none h = h
  after_read-silent name again (some (raw, tree)) h = capture-silent name raw tree

  snapshot_in-silent : (left : ℕ) (name : Text) → Emits silent (snapshot_in w left name)
  unfolding snapshot_in types
  snapshot_in-silent zero name = search emits_rules
  snapshot_in-silent (suc left) name =
      search (emits_rules, read-silent, unread-silent, after_read-silent, snapshot_in-silent left)
        depth 16

  shot-silent : (name : Text) → Emits silent (snapshot w name)
  unfolding snapshot
  shot-silent name = snapshot_in-silent 4 name

  tap_only-silent :
      (m invalid hidden : Text) (nodes : List Node)
      → Emits silent (tap_only w m invalid hidden nodes)
  unfolding tap_only tap_with types
  tap_only-silent m invalid hidden [] = search emits_rules
  tap_only-silent m invalid hidden (n ∷ []) = search (emits_rules, bounds_of-silent)
  tap_only-silent m invalid hidden (a ∷ b ∷ nodes) = search emits_rules

  action-silent :
      (field : String) (tree : Tree) (labels : List Text)
      → Emits silent (action w field tree labels)
  unfolding action
  action-silent field tree labels = search (tap_only-silent)

ruleset candidate_rules = (
  emits_rules, shot-silent, action-silent, tap_only-silent, dialog-silent, last_line-silent,
  exact_apk-silent, check_flags-silent,
)

module _ (w : World) where
  open_connection-silent : (tree : Tree) (name : Text) → Emits silent (open_connection w tree name)
  unfolding open_connection types
  open_connection-silent tree name = search candidate_rules depth 14

  boots-silent :
      (command : List Text) → silent (adb command) ≡ true → Emits silent (device_only w command)
  boots-silent command h = Emits-device_only w command h

module _ (w : World) (s : Setup) where
  prepare-silent : Emits silent (prepare w s)
  unfolding prepare types
  prepare-silent = search candidate_rules depth 30

  note_property-silent : (key : String) (name : Text) → Emits silent (note_property w s key name)
  unfolding note_property types
  note_property-silent key name = search candidate_rules depth 12

  install-silent : (apk : Text) → Emits silent (install w s apk)
  unfolding install types
  install-silent apk =
      search (candidate_rules, note_property-silent, boot-silent_with, boots-silent) depth 36

  lives-silent : Emits silent (lives w s)
  unfolding lives types
  lives-silent = search candidate_rules

  launch-silent : (component : Text) → Emits silent (launch w s component)
  unfolding launch types
  launch-silent component = search (candidate_rules, lives-silent) depth 20

  themes-silent : (tree : Tree) → Emits silent (themes w s tree)
  unfolding themes types
  themes-silent tree = search candidate_rules depth 36

  leave_overlay-silent : (tree : Tree) → Emits silent (leave_overlay w s tree)
  unfolding leave_overlay
  leave_overlay-silent tree = search candidate_rules

  permissions-silent :
      (left attempt : ℕ) (tree : Tree) → Emits silent (permissions w s left attempt tree)
  unfolding permissions types
  permissions-silent zero attempt tree = search emits_rules
  permissions-silent (suc left) attempt tree =
      search (candidate_rules, leave_overlay-silent, permissions-silent left) depth 16

  phone_form-silent : (tree : Tree) → Emits silent (phone_form w s tree)
  unfolding phone_form types
  phone_form-silent tree = search (candidate_rules, permissions-silent) depth 16

  route-silent : (tree : Tree) → Emits silent (route w s tree)
  unfolding route types
  route-silent tree = search (candidate_rules, open_connection-silent) depth 60

  restart-silent : (component : Text) → Emits silent (restart w s component)
  unfolding restart types
  restart-silent component = search (candidate_rules, lives-silent) depth 36

  session-silent : (apk : Text) → Emits silent (session w s apk)
  unfolding session
  session-silent apk =
      search
        (
          emits_rules, install-silent, launch-silent, themes-silent, phone_form-silent,
          route-silent, restart-silent,
        )
        depth 20

  evidence-silent : Emits silent (evidence w s)
  unfolding evidence types
  evidence-silent = search (candidate_rules, restarted-silent) depth 14

  finish-silent : Emits silent (finish w s)
  unfolding finish types
  finish-silent =
      search
        (
          emits_rules,
          save_report-silent,
          evidence-silent,
          pass_runtime-silent w,
          stop_emulator-silent,
          boots-silent,
        )
        depth 14

  -- Whatever the device answers, and however the script ends, it never types text into the device: it
  -- enters no phone number, no code and no account.
  pub run-untyped : (t : Trace) → Extends silent t (run w s t).1
  unfolding run
  run-untyped t =
      let emits : Emits silent (run w s) =
        search (emits_rules, prepare-silent, session-silent, finish-silent) depth 12 in
      emits.at t
