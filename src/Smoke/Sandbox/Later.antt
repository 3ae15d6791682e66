-- ===== src/Smoke/Sandbox/Later.antt =====
-- The sandbox script only adds to the calls before: nothing of the part behind the selection of the
-- test backend takes one back.
use capybaragram_build.Prelude.{ℕ, zero, suc, [], ◌∷◌, List, refl, Option, none, some}
use capybaragram_build.Text.{Text}
use capybaragram_build.Device.{Node, Tree, World, M, device}
use capybaragram_build.Device.Emits.{Emits, emits_rules, Emits-device, Emits-bind, Emits-return}
use capybaragram_build.Device.Screen.{tap, tap_with, bounds_of}
use capybaragram_build.Device.Snapshot.{snapshot}
use capybaragram_build.Device.Snapshot.Calls.{snapshot-Emits}
use capybaragram_build.Device.Snapshot.Attempted.{anything, anything-Allows}
use capybaragram_build.Smoke.{Setup}
use capybaragram_build.Smoke.Sandbox.{sign_in}
use capybaragram_build.Smoke.Sandbox.Number.{described, enter_number, request_code}
use capybaragram_build.Smoke.Sandbox.Actions.{only, action, input_field, check_server_errors}
use capybaragram_build.Smoke.Sandbox.Code.{
  Found, Key, await_next, await_code, code_screen, placed, enter_digit, enter_digits, second_key,
}
use capybaragram_build.Smoke.Sandbox.Account.{name_field, sign_up, open_menu, account_menu, restart}

second_key-Emits : (keys : List Key) → Emits anything (second_key keys)
unfolding second_key
second_key-Emits [] = search emits_rules
second_key-Emits (a ∷ []) = search emits_rules
second_key-Emits (a ∷ b ∷ keys) = search emits_rules

only-Emits : (message : Text) (nodes : List Node) → Emits anything (only message nodes)
unfolding only
only-Emits message [] = search emits_rules
only-Emits message (n ∷ []) = search emits_rules
only-Emits message (m ∷ n ∷ nodes) = search emits_rules

name_field-Emits : (nodes : List Node) → Emits anything (name_field nodes)
unfolding name_field
name_field-Emits [] = search emits_rules
name_field-Emits (a ∷ []) = search emits_rules
name_field-Emits (a ∷ b ∷ []) = search emits_rules
name_field-Emits (a ∷ b ∷ c ∷ nodes) = search emits_rules

module _ (w : World) where
  shot-Emits : (name : Text) → Emits anything (snapshot w name)
  shot-Emits name = snapshot-Emits w anything anything-Allows (λ remote. refl) name

  command-Emits : (command : List Text) → Emits anything (device w command)
  command-Emits command = Emits-device w command refl (λ line. refl)

  bounds_of-Emits : (message : Text) (n : Node) → Emits anything (bounds_of w message n)
  unfolding bounds_of
  bounds_of-Emits message n = search emits_rules

  tap-Emits : (n : Node) → Emits anything (tap w n)
  unfolding tap tap_with
  tap-Emits n = search (emits_rules, bounds_of-Emits, command-Emits)

ruleset later_rules = (emits_rules, shot-Emits, command-Emits, tap-Emits, only-Emits)

module _ (w : World) where
  action-Emits : (tree : Tree) (label : Text) → Emits anything (action w tree label)
  unfolding action
  action-Emits tree label = search later_rules

  input_field-Emits :
      (tree : Tree) (description value : Text)
      → Emits anything (input_field w tree description value)
  unfolding input_field
  input_field-Emits tree description value = search later_rules depth 16

  check-Emits : (tree : Tree) → Emits anything (check_server_errors w tree)
  unfolding check_server_errors
  check-Emits tree = search later_rules

  await_next-Emits :
      (again : Found → Tree → M Found) (attempt : ℕ) (found : Found) (tree : Tree) (o : Option Node)
      → ((f : Found) (t : Tree) → Emits anything (again f t))
      → Emits anything (await_next w again attempt found tree o)
  unfolding await_next
  await_next-Emits again attempt found tree (some node) h = search (later_rules, h) depth 16
  await_next-Emits again attempt found tree none h = search (later_rules, h) depth 16

  await_code-Emits :
      (left attempt : ℕ) (found : Found) (tree : Tree)
      → Emits anything (await_code w left attempt found tree)
  unfolding await_code
  await_code-Emits zero attempt found tree = search emits_rules
  await_code-Emits (suc left) attempt found tree =
      search (emits_rules, check-Emits, await_next-Emits, await_code-Emits left)

  code_screen-Emits : (tree : Tree) → Emits anything (code_screen w tree)
  unfolding code_screen
  code_screen-Emits tree = search (emits_rules, await_code-Emits) depth 16

  placed-Emits : (nodes : List Node) → Emits anything (placed w nodes)
  unfolding placed
  placed-Emits [] = search emits_rules
  placed-Emits (n ∷ ns) =
      Emits-bind _ _ (bounds_of-Emits w _ n)
        (λ b. Emits-bind _ _ (placed-Emits ns) (λ rest. Emits-return ((n, b) ∷ rest)))

  enter_digit-Emits : (index : ℕ) → Emits anything (enter_digit w index)
  unfolding enter_digit
  enter_digit-Emits index = search (later_rules, placed-Emits, second_key-Emits) depth 24

  enter_digits-Emits : (left index : ℕ) → Emits anything (enter_digits w left index)
  unfolding enter_digits
  enter_digits-Emits zero index = search emits_rules
  enter_digits-Emits (suc left) index =
      search (emits_rules, enter_digit-Emits, enter_digits-Emits left)

module _ (w : World) (s : Setup) where
  described-Emits :
      (description : Text) (tree : Tree) → Emits anything (described w s description tree)
  unfolding described
  described-Emits description tree = search emits_rules

  enter_number-Emits : (tree : Tree) → Emits anything (enter_number w s tree)
  unfolding enter_number
  enter_number-Emits tree = search (later_rules, input_field-Emits, described-Emits) depth 24

  request_code-Emits : (tree : Tree) → Emits anything (request_code w s tree)
  unfolding request_code
  request_code-Emits tree = search (later_rules, action-Emits) depth 24

  sign_up-Emits : Emits anything (sign_up w s)
  unfolding sign_up
  sign_up-Emits = search (later_rules, action-Emits, check-Emits, name_field-Emits) depth 36

  open_menu-Emits :
      (missing file hidden : Text) (tree : Tree)
      → Emits anything (open_menu w s missing file hidden tree)
  unfolding open_menu
  open_menu-Emits missing file hidden tree = search later_rules depth 16

  account_menu-Emits : (tree : Tree) → Emits anything (account_menu w s tree)
  unfolding account_menu
  account_menu-Emits tree = search (emits_rules, open_menu-Emits)

  restart-Emits : (component : Text) → Emits anything (restart w s component)
  unfolding restart
  restart-Emits component = search (later_rules, open_menu-Emits) depth 24

  pub sign_in-Emits :
      (component : Text) (chosen : Tree) → Emits anything (sign_in w s component chosen)
  unfolding sign_in
  sign_in-Emits component chosen =
      search
        (
          emits_rules, enter_number-Emits, request_code-Emits, code_screen-Emits,
          enter_digits-Emits, sign_up-Emits, account_menu-Emits, restart-Emits,
        )
        depth 16
