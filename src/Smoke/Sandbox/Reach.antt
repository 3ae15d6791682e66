-- ===== src/Smoke/Sandbox/Reach.antt =====
-- The sandbox script types no text before the test backend is selected.
use capybaragram_build.Prelude.{[], ◌∷◌, List}
use capybaragram_build.Text.{Text}
use capybaragram_build.Device.{Node, Tree, World}
use capybaragram_build.Device.Emits.{Emits, emits_rules}
use capybaragram_build.Smoke.{Setup}
use capybaragram_build.Smoke.Silent.{types, silent, silent_rules}
use capybaragram_build.Smoke.Start.Silent.{start_rules}
use capybaragram_build.Smoke.Sandbox.{reach_form}
use capybaragram_build.Smoke.Sandbox.Launch.{prepare, ready, install}
use capybaragram_build.Smoke.Sandbox.Number.{backend, select_backend}
use capybaragram_build.Smoke.Sandbox.Actions.{only}

pub only-silent : (message : Text) (nodes : List Node) → Emits silent (only message nodes)
unfolding only
only-silent message [] = search emits_rules
only-silent message (n ∷ []) = search emits_rules
only-silent message (m ∷ n ∷ nodes) = search emits_rules

pub backend-silent :
    (message state : Text) (tree : Tree) → Emits silent (backend message state tree)
unfolding backend
backend-silent message state tree = search (emits_rules, only-silent)

module _ (w : World) (s : Setup) where
  pub prepare-silent : Emits silent (prepare w s)
  unfolding prepare types
  prepare-silent = search silent_rules depth 30

  ready-silent : Emits silent (ready w s)
  unfolding ready types
  ready-silent = search (silent_rules, start_rules) depth 30

  install-silent : (apk : Text) → Emits silent (install w s apk)
  unfolding install types
  install-silent apk = search silent_rules depth 30

  pub reach_form-silent : (apk : Text) → Emits silent (reach_form w s apk)
  unfolding reach_form
  reach_form-silent apk = search (silent_rules, ready-silent, install-silent, start_rules) depth 20

  pub select_backend-silent : (tree : Tree) → Emits silent (select_backend w s tree)
  unfolding select_backend types
  select_backend-silent tree = search (silent_rules, backend-silent) depth 30
