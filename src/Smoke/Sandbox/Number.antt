-- ===== src/Smoke/Sandbox/Number.antt =====
-- The sandbox script from the phone form to the request of a code: the test backend, the reserved
-- number, and the two confirmations.
use capybaragram_build.Prelude.{
  ℕ, Bool, true, false, ◌&&◌, ◌++◌, List, none, some, every, leb, ltb, length, drop, ◌==◌,
  if◌then◌else◌,
}
use capybaragram_build.Text.{Text, codes, text_eq, is_prefix}
use capybaragram_build.Text.Decimal.{decimal}
use capybaragram_build.Device.{
  runtime, stop_iteration, text, Node, Tree, World, M, return, require, from_option, ◌>>=◌, ◌>>◌,
  sleep, note,
}
use capybaragram_build.Device.Screen.{get_or, is, select, first, tap}
use capybaragram_build.Device.Snapshot.{snapshot}
use capybaragram_build.Smoke.{Setup}
use capybaragram_build.Smoke.Sandbox.Actions.{own, only, action, input_field}

-- `[n for n in own_nodes(tree) if n.get('text') == 'Test Backend' and n.get('checkable') == 'true']`
unfoldable pub backends : Tree → List Node
backends tree =
    select (λ n. is n "text" (codes "Test Backend") && is n "checkable" (codes "true")) (own tree)

-- The selector, if it is the only one and its check is as it must be.
unfoldable pub backend : Text → Text → Tree → M Node
backend message state tree = do
  node ← only message (backends tree)
  require (is node "checked" state) (runtime message)
  return node

-- `f'{n:04d}'` of a number below 10,000
unfoldable pub padded : ℕ → Text
padded n =
    if ltb n 10
    then codes "000" ++ decimal n
    else if ltb n 100
    then codes "00" ++ decimal n
    else if ltb n 1000
    then codes "0" ++ decimal n
    else decimal n

unfoldable pub is_ascii_digit : ℕ → Bool
is_ascii_digit c = leb 48 c && leb c 57

-- `re.fullmatch(r'999662[0-9]{4}',number)`
unfoldable pub is_reserved : Text → Bool
is_reserved number =
    is_prefix (codes "999662") number
    && ((length number == 10) && every is_ascii_digit (drop 6 number))

module _ (w : World) (s : Setup) where
  -- `re.sub(r'\D','',value)`
  unfoldable pub digits_of : Text → Text
  digits_of value = select (λ c. elim (w.digit c) [ none ↦ false | some d ↦ true ]) value

  -- The test backend is selected, and seen to be.
  unfoldable pub select_backend : Tree → M Tree
  select_backend form = do
    node ←
        backend (codes "Expected an unchecked native test-backend selector on the fresh preview")
          (codes "false") form
    tap w node
    sleep 10
    chosen ← snapshot w (codes "03-test-backend")
    checked ←
        backend (codes "Native test-backend selection was not confirmed; no number entered")
          (codes "true") chosen
    note "test_backend_selected" (text (codes "PASS"))
    return chosen

  unfoldable pub suffix : Text
  suffix = padded s.random

  unfoldable pub test_phone : Text
  test_phone = codes "999662" ++ suffix

  -- `next(n for n in own_nodes(tree) if n.get('content-desc') == description)`
  unfoldable pub described : Text → Tree → M Node
  described description tree =
      from_option stop_iteration (first (λ n. is n "content-desc" description) (own tree))

  -- The number is entered, and what the form shows is compared with it.
  unfoldable pub enter_number : Tree → M Tree
  enter_number chosen = do
    input_field w chosen (codes "Country code") (codes "999")
    with_country ← snapshot w (codes "04-test-country")
    input_field w with_country (codes "Phone number") (codes "662" ++ suffix)
    entered ← snapshot w (codes "04-test-number")
    country ← described (codes "Country code") entered
    phone ← described (codes "Phone number") entered
    let displayed = digits_of (get_or country "text" ++ get_or phone "text")
    require (text_eq displayed test_phone && is_reserved displayed)
        (runtime (codes "Displayed test number differs; no request sent"))
    return entered

  -- The two confirmations that make the client ask for a code.
  unfoldable pub request_code : Tree → M Tree
  request_code entered = do
    action w entered (codes "Done")
    sleep 3
    confirmation ← snapshot w (codes "05-number-confirmation")
    action w confirmation (codes "Yes")
    note "test_phone_confirmation"
        (text (codes "confirmed on selected Test Backend; code request not yet observed"))
    sleep 12
    snapshot w (codes "06-code-response")
