-- ===== src/Smoke/Candidate/Controls.antt =====
-- `snapshot`, `own`, `visible`, `action`, `open_connection`, `ordinary` and
-- `require_readable_dialog` of ci/android_candidate_runtime.py.
use capybaragram_build.Prelude.{
  ℕ, zero, suc, Bool, false, ◌&&◌, [], ◌∷◌, ◌++◌, String, List, Option, none, some, any, map,
}
use capybaragram_build.Text.{Text, codes, text_eq, listed, is_prefix, is_suffix, contains, join}
use capybaragram_build.Text.Decimal.{decimal}
use capybaragram_build.Device.{
  Failure, called, ill_formed, runtime, saved, Node, Tree, World, M, return, raise, catch, require,
  choose, ◌>>=◌, ◌>>◌, emit, sleep, run, device_only, now, from_string,
}
use capybaragram_build.Device.Screen.{get_or, is, select, tap_with, attribute}
use capybaragram_build.Device.Snapshot.{png_head, dump_command, cat_command, capture_command}
use capybaragram_build.Smoke.{own_nodes, shows}
use capybaragram_build.Smoke.Client.Launcher.{app}

abbrev pub own : Tree → List Node
own tree = own_nodes app tree

-- `visible(tree,text)`
unfoldable pub visible : Tree → Text → Bool
visible tree text = shows text (own tree)

-- `except (CalledProcessError, ET.ParseError): time.sleep(2); continue`, where `again` goes on
unfoldable pub unread : {A : Type 0} → Failure → M (Option A)
unread (called out errors) = do sleep 2; return none
unread ill_formed = do sleep 2; return none
unread e = raise e

-- The texts of the labels, as the message of a refusal has them; Python's order of a set is open.
abbrev pub missing : List Text → Text
missing labels =
    codes "Expected one currently observed native control: " ++ join (codes ", ") labels

unfoldable pub ordinary : Tree → Bool
ordinary tree =
    any (λ n. is_prefix (codes "Обычное подключение: напрямую, через VPN") (get_or n "text"))
      (own tree)

abbrev pub text_of : List (Text × Text) → Text
text_of attributes = elim (attribute (codes "text") attributes) [ none ↦ [] | some v ↦ v ]

-- `[n for n in own(tree) if n.get('class','').endswith('ScrollView') and any(...)]`
unfoldable pub panels : Tree → List Node
panels tree =
    select
      (λ n.
        is_suffix (codes "ScrollView") (get_or n "class")
        && any (λ c. contains (codes "Режим общий для всех аккаунтов.") (text_of c)) n.inner)
      (own tree)

-- `if len(panels)!=1 or panels[0].get('scrollable')!='false': raise`
unfoldable pub one_still : List Node → Bool
one_still (panel ∷ []) = is panel "scrollable" (codes "false")
one_still nodes = false

unfoldable pub require_readable_dialog : Tree → M (Unit {0})
require_readable_dialog tree =
    require (one_still (panels tree))
      (runtime (codes "Connection disclosure still requires scrolling at the tested 320dp width."))

module _ (w : World) where
  unfoldable pub read : Text → M (Option (Text × Tree))
  read remote = do
    raw ← device_only w (cat_command remote)
    tree ← from_string w raw
    return (some (raw, tree))

  unfoldable pub capture : Text → Text → Tree → M Tree
  capture name raw tree = do
    require (text_eq tree.tag (codes "hierarchy"))
        (runtime (codes "Unexpected native hierarchy root."))
    (png, errors) ← run w capture_command
    require (is_prefix png_head png) (runtime (codes "Native capture is not a PNG."))
    emit (saved (name ++ codes ".xml") raw)
    emit (saved (name ++ codes ".png") png)
    return tree

  -- What an attempt does behind the dump; `again` makes the attempts that are left.
  unfoldable pub after_read : Text → M Tree → Option (Text × Tree) → M Tree
  after_read name again none = again
  after_read name again (some (raw, tree)) = capture name raw tree

  -- `snapshot(name)`, with the attempts that are left
  unfoldable pub snapshot_in : ℕ → Text → M Tree
  snapshot_in zero name =
      raise (runtime (codes "No fresh native UI hierarchy; no coordinates are reused."))
  snapshot_in (suc left) name = do
    ns ← now w
    let remote = codes "/sdcard/capy-current-" ++ decimal ns ++ codes ".xml"
    response ← device_only w (dump_command remote)
    choose (contains (codes "ERROR:") response) (do sleep 2; snapshot_in left name)
        (do found ← catch (read remote) unread; after_read name (snapshot_in left name) found)

  unfoldable pub snapshot : Text → M Tree
  snapshot name = snapshot_in 4 name

  -- `tap` of the only choice
  unfoldable pub tap_only : Text → Text → Text → List Node → M (Unit {0})
  tap_only none_or_many invalid hidden (node ∷ []) = tap_with w (device_only w) invalid hidden node
  tap_only none_or_many invalid hidden nodes = raise (runtime none_or_many)

  -- `action(tree,labels,description)`; `field` is 'text' or 'content-desc'
  unfoldable pub action : String → Tree → List Text → M (Unit {0})
  action field tree labels =
      tap_only (missing labels) (codes "Observed control has invalid bounds.")
        (codes "Observed control is not visible.")
        (select
          (λ n.
            listed (w.casefold (get_or n field)) (map w.casefold labels)
            && is n "enabled" (codes "true"))
          (own tree))

  unfoldable pub open_connection : Tree → Text → M Tree
  open_connection tree name = do
    action "text" tree (codes "Подключение" ∷ codes "Connection" ∷ [])
    sleep 2
    dialog ← snapshot name
    require (visible dialog (codes "CapybaraGram · Подключение"))
        (runtime (codes "Expected native CapybaraGram connection dialog."))
    return dialog
