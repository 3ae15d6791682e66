-- ===== src/Smoke/Start/Silent.antt =====
-- What the client and sandbox scripts share types no text.
use capybaragram_build.Prelude.{ℕ, zero, suc, String, List}
use capybaragram_build.Text.{Text}
use capybaragram_build.Device.{Tree, World}
use capybaragram_build.Device.Emits.{Emits}
use capybaragram_build.Smoke.Silent.{types, silent, silent_rules}
use capybaragram_build.Smoke.Start.{note_property, launch, permissions, phone_form}

module _ (w : World) where
  pub note_property-silent : (key : String) (name : Text) → Emits silent (note_property w key name)
  unfolding note_property types
  note_property-silent key name = search silent_rules depth 12

  module _ (app : Text) (rationales : List Text) where
    pub launch-silent : (component : Text) → Emits silent (launch w app rationales component)
    unfolding launch types
    launch-silent component = search silent_rules depth 30

    permissions-silent :
        (left attempt denials : ℕ) (tree : Tree)
        → Emits silent (permissions w app rationales left attempt denials tree)
    unfolding permissions types
    permissions-silent zero attempt denials tree = search silent_rules
    permissions-silent (suc left) attempt denials tree =
        search (silent_rules, permissions-silent left) depth 30

    pub phone_form-silent : (tree : Tree) → Emits silent (phone_form w app rationales tree)
    unfolding phone_form types
    phone_form-silent tree = search (silent_rules, permissions-silent) depth 30

pub ruleset start_rules = (note_property-silent, launch-silent, phone_form-silent)
