-- ===== src/Device/Screen.antt =====
-- The elements of a UI hierarchy, and `tap` of ci/android_client_smoke.py and
-- ci/android_sandbox_smoke.py: an element is tapped at the middle of its bounds.
use capybaragram_build.Prelude.{
  ◌+◌, ◌/◌, Bool, true, false, ◌&&◌, List, [], ◌∷◌, ◌++◌, String, Option, none, some, ltb,
  if◌then◌else◌,
}
use capybaragram_build.Text.{Text, codes, text_eq, listed}
use capybaragram_build.Device.Bounds.{Box, box}
use capybaragram_build.Text.Decimal.{decimal}
use capybaragram_build.Device.{
  Node, World, M, runtime, return, from_option, require, device, args, ◌>>=◌, ◌>>◌,
}

unfoldable pub attribute : Text → List (Text × Text) → Option Text
unfolding text_eq
attribute key [] = none
attribute key ((k, v) ∷ rest) = elim (text_eq key k) [ true ↦ some v | false ↦ attribute key rest ]

-- `node.get(key)`
unfoldable pub get : Node → String → Option Text
unfolding attribute
get node key = attribute (codes key) node.attributes

-- `node.get(key, '')`
unfoldable pub get_or : Node → String → Text
unfolding get
get_or node key = elim (get node key) [ none ↦ [] | some v ↦ v ]

abbrev pub equals : Option Text → Text → Bool
equals none text = false
equals (some v) text = text_eq v text

-- `node.get(key) == text`
unfoldable pub is : Node → String → Text → Bool
unfolding get text_eq
is node key text = equals (get node key) text

abbrev pub among : Option Text → List Text → Bool
among none texts = false
among (some v) texts = listed v texts

-- `node.get(key) in texts`
unfoldable pub is_in : Node → String → List Text → Bool
unfolding get listed
is_in node key texts = among (get node key) texts

-- `[n for n in nodes if test]`
unfoldable pub select : {A : Type 0} → (A → Bool) → List A → List A
select test [] = []
select test (n ∷ ns) = let rest = select test ns in if test n then n ∷ rest else rest

-- `next((n for n in nodes if test), None)`
unfoldable pub first : {A : Type 0} → (A → Bool) → List A → Option A
first test [] = none
first test (n ∷ ns) = elim (test n) [ true ↦ some n | false ↦ first test ns ]

-- `value or not value` of a list, a string or None, as a condition
abbrev pub is_full : {A : Type 0} → List A → Bool
is_full [] = false
is_full (x ∷ xs) = true

abbrev pub is_given : Option Text → Bool
is_given none = false
is_given (some v) = is_full v

-- The middle of a box: `str((x1+x2)//2),str((y1+y2)//2)`.
abbrev pub middle : Box → Text × Text
middle b = (decimal ((b.x1 + b.x2) / 2), decimal ((b.y1 + b.y2) / 2))

abbrev pub tap_command : Text → Text → List Text
tap_command x y = args ("shell" ∷ "input" ∷ "tap" ∷ []) ++ x ∷ y ∷ []

module _ (w : World) where
  -- The bounds of a node, or the refusal that it has none.
  unfoldable pub bounds_of : Text → Node → M Box
  bounds_of invalid node = from_option (runtime invalid) (box w.digit (get_or node "bounds"))

  -- `tap`, with the device call and the two messages of the script.
  unfoldable pub tap_with : (List Text → M Text) → Text → Text → Node → M (Unit {0})
  tap_with call invalid hidden node = do
    b ← bounds_of invalid node
    require (ltb b.x1 b.x2 && ltb b.y1 b.y2) (runtime hidden)
    output ← call (tap_command (middle b).0 (middle b).1)
    return tt

  -- `tap(node)` of the client and sandbox scripts
  unfoldable pub tap : Node → M (Unit {0})
  tap node =
      tap_with (device w) (codes "Observed action has no valid bounds")
        (codes "Observed action is not visible") node
