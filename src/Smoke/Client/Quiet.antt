-- ===== src/Smoke/Client/Quiet.antt =====
-- The client script types no text at all.
use capybaragram_build.Prelude.{ℕ, zero, suc, Bool, true, false, [], ◌∷◌, List, Option, none, some}
use capybaragram_build.Text.{Text}
use capybaragram_build.Device.{Node, Trace, Tree, World}
use capybaragram_build.Device.Bounds.{Box}
use capybaragram_build.Device.Emits.{Extends, Emits, emits_rules, same}
use capybaragram_build.Smoke.{Setup}
use capybaragram_build.Smoke.Silent.{types, silent, silent_rules, bounds_of-silent}
use capybaragram_build.Smoke.Start.Silent.{start_rules}
use capybaragram_build.Smoke.Client.{launcher_passed, check_form, restart, session, run}
use capybaragram_build.Smoke.Client.Launcher.{
  prepare, ready, install, open_drawer, swipe_from, swipe_dock, press_all_apps, swipe_recovered,
  recover, open_icon, through_launcher, resolve,
}
use capybaragram_build.Smoke.Client.Intro.{
  require_title, change_theme, swipe_page, turn_pages, turn_back, tour,
}

module _ (w : World) (s : Setup) where
  prepare-silent : Emits silent (prepare w s)
  unfolding prepare types
  prepare-silent = search silent_rules depth 30

  ready-silent : Emits silent (ready w s)
  unfolding ready types
  ready-silent = search (silent_rules, start_rules) depth 30

  install-silent : (apk : Text) → Emits silent (install w s apk)
  unfolding install types
  install-silent apk = search silent_rules depth 30

  open_drawer-silent : Emits silent (open_drawer w s)
  unfolding open_drawer types
  open_drawer-silent = search silent_rules depth 30

  swipe_from-silent : (drawer : Tree) (o : Option Box) → Emits silent (swipe_from w s drawer o)
  unfolding swipe_from types
  swipe_from-silent drawer none = search silent_rules
  swipe_from-silent drawer (some b) = search silent_rules depth 12

  swipe_dock-silent : (drawer : Tree) → Emits silent (swipe_dock w s drawer)
  unfolding swipe_dock
  swipe_dock-silent drawer = search (silent_rules, swipe_from-silent)

  press_all_apps-silent : (drawer : Tree) → Emits silent (press_all_apps w s drawer)
  unfolding press_all_apps types
  press_all_apps-silent drawer = search silent_rules depth 16

  swipe_recovered-silent :
      (drawer : Tree) (o : Option Node) → Emits silent (swipe_recovered w s drawer o)
  unfolding swipe_recovered types
  swipe_recovered-silent drawer none = search silent_rules
  swipe_recovered-silent drawer (some node) = search (silent_rules, bounds_of-silent) depth 20

  recover-silent : (drawer : Tree) → Emits silent (recover w s drawer)
  unfolding recover types
  recover-silent drawer = search (silent_rules, swipe_recovered-silent) depth 20

  open_icon-silent : (o : Option Node) → Emits silent (open_icon w s o)
  unfolding open_icon types
  open_icon-silent none = search silent_rules depth 16
  open_icon-silent (some icon) = search silent_rules depth 16

  through_launcher-silent : Emits silent (through_launcher w s)
  unfolding through_launcher
  through_launcher-silent =
      search
        (
          emits_rules, open_drawer-silent, swipe_dock-silent, press_all_apps-silent, recover-silent,
          open_icon-silent,
        )
        depth 12

  resolve-silent : Emits silent (resolve w s)
  unfolding resolve types
  resolve-silent = search silent_rules depth 12

module _ (w : World) where
  require_title-silent : (tree : Tree) (title : Text) → Emits silent (require_title w tree title)
  unfolding require_title
  require_title-silent tree title = search emits_rules

  change_theme-silent :
      (tree : Tree) (current next : List Text) (file : Text)
      → Emits silent (change_theme w tree current next file)
  unfolding change_theme types
  change_theme-silent tree current next file = search (silent_rules, require_title-silent) depth 16

  swipe_page-forward : (tree : Tree) (forward : Bool) → Emits silent (swipe_page w tree forward)
  unfolding swipe_page types
  swipe_page-forward tree true = search (silent_rules, bounds_of-silent) depth 16
  swipe_page-forward tree false = search (silent_rules, bounds_of-silent) depth 16

  turn_pages-silent :
      (titles : List Text) (index : ℕ) (seen : List Text) (tree : Tree)
      → Emits silent (turn_pages w titles index seen tree)
  unfolding turn_pages types
  turn_pages-silent [] index seen tree = search emits_rules
  turn_pages-silent (title ∷ titles) index seen tree =
      search (silent_rules, swipe_page-forward, require_title-silent, turn_pages-silent titles)
        depth 16

  turn_back-silent : (n : ℕ) (tree : Tree) → Emits silent (turn_back w n tree)
  unfolding turn_back
  turn_back-silent zero tree = search emits_rules
  turn_back-silent (suc n) tree = search (emits_rules, swipe_page-forward, turn_back-silent n)

  tour-silent : (locale : Text) (tree : Tree) → Emits silent (tour w locale tree)
  unfolding tour types
  tour-silent locale tree =
      search
        (
          silent_rules, require_title-silent, change_theme-silent, turn_pages-silent,
          turn_back-silent,
        )
        depth 30

launcher_passed-silent : Emits silent launcher_passed
unfolding launcher_passed
launcher_passed-silent = record { at = λ t. same }

module _ (w : World) (s : Setup) where
  check_form-silent : (form : Tree) → Emits silent (check_form w s form)
  unfolding check_form types
  check_form-silent form = search silent_rules depth 12

  restart-silent : (component : Text) → Emits silent (restart w s component)
  unfolding restart types
  restart-silent component = search (silent_rules, launcher_passed-silent) depth 30

  session-silent : (apk : Text) → Emits silent (session w s apk)
  unfolding session
  session-silent apk =
      search
        (
          silent_rules, start_rules, ready-silent, install-silent, through_launcher-silent,
          resolve-silent, tour-silent, check_form-silent, restart-silent,
        )
        depth 30

  -- Whatever the device answers, and however the script ends, it never types text into the device: it
  -- enters no phone number, no code and no message.
  pub run-silent : (t : Trace) → Extends silent t (run w s t).1
  unfolding run
  run-silent t =
      let emits : Emits silent (run w s) =
        search (silent_rules, prepare-silent, session-silent) depth 12 in
      emits.at t
