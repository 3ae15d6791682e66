-- ===== src/Smoke/Start.antt =====
-- What the client and sandbox scripts share between the installation and the phone form, each with
-- its own copy: the first start, the onboarding button, and the permissions that are denied.
pub mod Silent
use capybaragram_build.Prelude.{
  ℕ, zero, suc, ◌+◌, Bool, true, false, ◌&&◌, ◌||◌, [], ◌∷◌, ◌++◌, String, List, Option, none, some,
  any, if◌then◌else◌,
}
use capybaragram_build.Text.{Text, codes, listed, contains}
use capybaragram_build.Text.Decimal.{decimal}
use capybaragram_build.Text.Lines.{strip}
use capybaragram_build.Device.{
  runtime, saved, text, number, Node, Tree, World, M, args, return, require, from_option, choose,
  when, ◌>>=◌, ◌>>◌, emit, sleep, note, device,
}
use capybaragram_build.Device.Screen.{get_or, is, is_in, select, first, tap, is_full}
use capybaragram_build.Device.Snapshot.{snapshot}
use capybaragram_build.Smoke.{own_nodes, in_front, is_open, start_command}

abbrev pub controllers : List Text
controllers =
    codes "com.android.permissioncontroller" ∷ codes "com.google.android.permissioncontroller" ∷ []

abbrev pub fields : Text → Tree → List Node
fields app tree = select is_open (own_nodes app tree)

module _ (w : World) where
  -- `result[key] = device('shell','getprop',name).strip()`
  unfoldable pub note_property : String → Text → M Text
  note_property key name = do
    value ← device w (args ("shell" ∷ "getprop" ∷ []) ++ name ∷ [])
    note key (text (strip value))
    return (strip value)

  -- `rationales` are the texts of the client's own explanation.
  module _ (app : Text) (rationales : List Text) where
    -- The first start of the client.
    unfoldable pub launch : Text → M Tree
    launch component = do
      launched ← device w (start_command component)
      emit (saved (codes "launch.txt") launched)
      require
          (contains (codes "Status: ok") launched || contains (codes "Status: timeout") launched)
          (runtime (codes "Launcher rejected the activity start"))
      sleep 20
      pid ← device w (args ("shell" ∷ "pidof" ∷ []) ++ app ∷ [])
      require (is_full (strip pid)) (runtime (codes "Client exited after launch"))
      hierarchy ← snapshot w (codes "01-onboarding")
      require (in_front app hierarchy) (runtime (codes "Client UI is not foreground"))
      note "launch" (text (codes "PASS"))
      return hierarchy

    -- The element that the script taps to get an overlay out of the way, and whether it denies a
    -- permission.
    unfoldable pub overlay_action : Tree → Option Node × Bool
    overlay_action tree =
        if any (λ n. is_in n "text" rationales && is n "package" app) tree.nodes
        then (
          first
              (λ n.
                is n "package" app
                && (is_in n "text" (codes "Continue" ∷ codes "Продолжить" ∷ [])
                    && is n "clickable" (codes "true")))
              tree.nodes,
          false,
        )
        else (
          first
              (λ n.
                is_in n "package" controllers
                && (listed (w.casefold (get_or n "text")) (
                      codes "deny"
                      ∷ codes "don't allow"
                      ∷ codes "запретить"
                      ∷ codes "не разрешать"
                      ∷ [])
                    && is n "clickable" (codes "true")))
              tree.nodes,
          true,
        )

    -- `for attempt in range(4)`, with the attempts that are left and the denials so far.
    unfoldable pub permissions : ℕ → ℕ → ℕ → Tree → M Tree
    permissions zero attempt denials tree = return tree
    permissions (suc left) attempt denials tree =
        choose (is_full (fields app tree)) (return tree) (do
          let (found, denies) = overlay_action tree
          node ←
              from_option
                (runtime (codes "Unexpected overlay blocks phone entry; inspect screenshot")) found
          let total = if denies then denials + 1 else denials
          when denies (note "phone_permission_denials" (number total))
          tap w node
          sleep 3
          next ← snapshot w (codes "02-login-permission-" ++ decimal (attempt + 1))
          permissions left (attempt + 1) total next)

    -- From the onboarding screen to the phone form.
    unfoldable pub phone_form : Tree → M Tree
    phone_form hierarchy = do
      start ← from_option (runtime (codes "Expected onboarding action was not exposed")) (
          first
            (λ n.
              is n "package" app
              && listed (w.casefold (strip (get_or n "text")))
                  (codes "start messaging" ∷ codes "начать общение" ∷ []))
            hierarchy.nodes)
      tap w start
      sleep 5
      login ← snapshot w (codes "02-login")
      note "phone_permission_denials" (number 0)
      form ← permissions 4 0 0 login
      require (is_full (fields app form))
          (runtime (codes "Phone entry fields were not exposed; inspect screenshot"))
      return form
