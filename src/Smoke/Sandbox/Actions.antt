-- ===== src/Smoke/Sandbox/Actions.antt =====
-- What the sandbox script does to the elements of a hierarchy: `action`, `input_field` and
-- `check_server_errors` of ci/android_sandbox_smoke.py.
use capybaragram_build.Prelude.{ℕ, Bool, ◌&&◌, ◌||◌, [], ◌∷◌, ◌++◌, List, any, every, leb, map}
use capybaragram_build.Text.{Text, codes, contains, join}
use capybaragram_build.Device.{
  runtime, Node, Tree, World, M, args, return, raise, require, ◌>>=◌, ◌>>◌, device, refuse,
}
use capybaragram_build.Device.Screen.{get, get_or, is, select, tap, is_given, is_full}
use capybaragram_build.Smoke.{own_nodes, is_edit}

abbrev pub app : Text
app = codes "org.capybaragram.preview.beta"

-- `own_nodes(tree)`
abbrev pub own : Tree → List Node
own tree = own_nodes app tree

-- `if len(choices) != 1: raise RuntimeError(message)`, and the choice
unfoldable pub only : Text → List Node → M Node
only message (n ∷ []) = return n
only message nodes = raise (runtime message)

-- `re.fullmatch(r'[0-9A-Za-z]+',value)`
unfoldable pub is_plain_char : ℕ → Bool
is_plain_char c = (leb 48 c && leb c 57) || ((leb 65 c && leb c 90) || (leb 97 c && leb c 122))

unfoldable pub is_plain : Text → Bool
is_plain value = is_full value && every is_plain_char value

abbrev pub text_command : Text → List Text
text_command value = args ("shell" ∷ "input" ∷ "text" ∷ []) ++ value ∷ []

module _ (w : World) where
  unfoldable pub action : Tree → Text → M (Unit {0})
  action tree label = do
    node ← only (codes "Expected one observed action: " ++ label) (
        select
          (λ n. is n "clickable" (codes "true") && (is n "text" label || is n "content-desc" label))
          (own tree))
    tap w node

  unfoldable pub input_field : Tree → Text → Text → M (Unit {0})
  input_field tree description value = do
    node ← only (codes "Expected one empty " ++ description ++ codes " field") (
        select
          (λ n. is_edit n && (is n "content-desc" description && is n "enabled" (codes "true")))
          (own tree))
    refuse (is_given (get node "text"))
        (runtime (codes "Expected one empty " ++ description ++ codes " field"))
    require (is_plain value) (runtime (codes "Only controlled test input is allowed"))
    tap w node
    output ← device w (text_command value)
    return tt

  unfoldable pub server_errors : List Text
  server_errors =
      codes "too many attempts"
      ∷ codes "flood_wait"
      ∷ codes "phone_number_flood"
      ∷ codes "phone number banned"
      ∷ []

  unfoldable pub check_server_errors : Tree → M (Unit {0})
  check_server_errors tree =
      let texts = w.casefold (join (codes " ") (map (λ n. get_or n "text") (own tree))) in
      refuse (any (λ label. contains label texts) server_errors) (
        runtime (
          codes
            "Telegram reported a rate limit or rejection; stop without retrying or changing numbers"))
