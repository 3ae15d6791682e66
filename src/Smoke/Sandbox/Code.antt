-- ===== src/Smoke/Sandbox/Code.antt =====
-- The sandbox script from the request of the code to the code's five digits, which the client's own
-- keypad enters.
use capybaragram_build.Prelude.{
  ℕ, zero, suc, ◌+◌, Bool, false, not, ◌&&◌, ◌||◌, [], ◌∷◌, ◌++◌, List, Option, none, some, any,
  leb, ltb, length, ◌==◌, if◌then◌else◌,
}
use capybaragram_build.Text.{Text, codes, text_eq, listed}
use capybaragram_build.Text.Decimal.{decimal}
use capybaragram_build.Device.{
  runtime, text, Node, Tree, World, M, return, raise, require, refuse, choose, ◌>>=◌, ◌>>◌, sleep,
  note, index_error,
}
use capybaragram_build.Device.Bounds.{Box}
use capybaragram_build.Device.Screen.{
  get, get_or, is, is_in, select, first, tap, is_full, is_given, bounds_of,
}
use capybaragram_build.Device.Snapshot.{snapshot}
use capybaragram_build.Smoke.{shows, is_edit}
use capybaragram_build.Smoke.Sandbox.Actions.{own, check_server_errors}
use capybaragram_build.Smoke.Start.{controllers}

unfoldable pub call_rationale : Text
call_rationale =
    codes
      "Please allow Telegram to receive calls and read the call log so that we can automatically enter your code for you."

-- `[n for n in own_nodes(tree) if n.get('class','').endswith('EditText')]`
abbrev pub code_fields : Tree → List Node
code_fields tree = select is_edit (own tree)

-- What the loop has found: the fields of the last hierarchy that it looked at, and whether that
-- is the screen for a code.
pub record Found : Type 0 where
  pub boxes : List Node
  pub is_code_screen : Bool

-- An item of a list, with its bounds.
abbrev pub Key : Type 0
Key = Node × Box

-- `keys.sort(key=lambda n:(bounds(n)[1],bounds(n)[0]))`: a stable sort by insertion from the right
unfoldable pub before : Key → Key → Bool
before a b = ltb a.1.y1 b.1.y1 || ((a.1.y1 == b.1.y1) && leb a.1.x1 b.1.x1)

unfoldable pub insert : Key → List Key → List Key
insert k [] = k ∷ []
insert k (l ∷ ls) = let rest = insert k ls in if before k l then k ∷ l ∷ ls else l ∷ rest

unfoldable pub sort : List Key → List Key
sort [] = []
sort (k ∷ ks) = insert k (sort ks)

-- `rows.setdefault(bounds(key)[1],[]).append(key)`, and the sizes of the rows; `add` counts one
-- more key at a height.
unfoldable pub add : ℕ → List (ℕ × ℕ) → List (ℕ × ℕ)
add y [] = (y, 1) ∷ []
add y ((z, n) ∷ rows) = let rest = add y rows in if y == z then (z, n + 1) ∷ rows else (z, n) ∷ rest

unfoldable pub rows_from : List (ℕ × ℕ) → List Key → List (ℕ × ℕ)
rows_from rows [] = rows
rows_from rows (k ∷ ks) = rows_from (add k.1.y1 rows) ks

-- `[len(row) for row in rows.values()] == [3,3,3,1]`
unfoldable pub is_keypad : List (ℕ × ℕ) → Bool
is_keypad ((a, k) ∷ (b, l) ∷ (c, m) ∷ (d, n) ∷ []) =
    (k == 3) && ((l == 3) && ((m == 3) && (n == 1)))
is_keypad rows = false

-- `'2'*n`
unfoldable pub twos : ℕ → Text
twos zero = []
twos (suc n) = 50 ∷ twos n

unfoldable pub joined_texts : List Node → Text
joined_texts [] = []
joined_texts (n ∷ ns) = get_or n "text" ++ joined_texts ns

-- `keys[1]`
unfoldable pub second_key : List Key → M Node
second_key (a ∷ b ∷ ks) = return b.0
second_key ks = raise index_error

module _ (w : World) where
  -- The element that gets a permission question out of the way.
  unfoldable pub permission_action : Tree → Option Node
  permission_action tree =
      if shows call_rationale (own tree)
      then first (λ n. is n "text" (codes "Continue") && is n "clickable" (codes "true")) (own tree)
      else first
          (λ n.
            is_in n "package" controllers
            && (listed (w.casefold (get_or n "text")) (codes "deny" ∷ codes "don't allow" ∷ [])
                && is n "clickable" (codes "true")))
          tree.nodes

  -- A round of the loop behind the check for errors; `again` makes the rounds that are left.
  unfoldable pub await_next : (Found → Tree → M Found) → ℕ → Found → Tree → Option Node → M Found
  await_next again attempt found tree (some node) = do
    tap w node
    sleep 4
    next ← snapshot w (codes "06-extra-permission-" ++ decimal (attempt + 1))
    again found next
  await_next again attempt found tree none =
      let boxes = code_fields tree in
      let is_code_screen = shows (codes "Enter code") (own tree) in
      let now_found : Found = record { boxes = boxes; is_code_screen = is_code_screen } in
      choose (is_code_screen && (length boxes == 5)) (return now_found) (do
        sleep 5
        next ← snapshot w (codes "06-code-wait-" ++ decimal (attempt + 1))
        again now_found next)

  -- `for attempt in range(10)`, with the attempts that are left and what was found so far.
  unfoldable pub await_code : ℕ → ℕ → Found → Tree → M Found
  await_code zero attempt found tree = return found
  await_code (suc left) attempt found tree = do
    check_server_errors w tree
    await_next (await_code left (attempt + 1)) attempt found tree (permission_action tree)

  unfoldable pub code_screen : Tree → M (Unit {0})
  code_screen tree = do
    found ← await_code 10 0 (record { boxes = []; is_code_screen = false }) tree
    require (found.is_code_screen && is_full found.boxes)
        (runtime (codes "Expected native test-code input did not appear; inspect server response"))
    note "test_code_request"
        (text (codes "native code input observed after optional phone permissions denied"))
    refuse (any (λ n. is_given (get n "text") || is n "password" (codes "true")) found.boxes)
        (runtime (codes "Unexpected code input state"))

  -- The keys with their bounds; a key without is refused.
  unfoldable pub placed : List Node → M (List Key)
  placed [] = return []
  placed (n ∷ ns) = do
    b ← bounds_of w (codes "Keyboard control has invalid bounds") n
    rest ← placed ns
    return ((n, b) ∷ rest)

  -- One digit, behind those that are entered.
  unfoldable pub enter_digit : ℕ → M (Unit {0})
  enter_digit index = do
    tree ← snapshot w (codes "07-code-digit-" ++ decimal index)
    let boxes = code_fields tree
    require ((length boxes == 5) && text_eq (joined_texts boxes) (twos index))
        (runtime (codes "Unexpected native test-code prefix; stop without resubmitting"))
    keys ← placed (
        select
          (λ n.
            is n "class" (codes "android.view.View")
            && (is n "clickable" (codes "true")
                && (is n "enabled" (codes "true")
                    && (not (is_given (get n "text")) && not (is_given (get n "content-desc"))))))
          (own tree))
    let sorted = sort keys
    require (length sorted == 10) (runtime (codes "Observed numeric keyboard differs"))
    require (is_keypad (rows_from [] sorted))
        (runtime (codes "Observed numeric keypad is not the source-defined 3/3/3/1 grid"))
    key ← second_key sorted
    tap w key
    sleep 1

  -- `for digit_index in range(5)`, with the digits that are left.
  unfoldable pub enter_digits : ℕ → ℕ → M (Unit {0})
  enter_digits zero index = return tt
  enter_digits (suc left) index = do enter_digit index; enter_digits left (index + 1)
