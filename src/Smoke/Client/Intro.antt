-- ===== src/Smoke/Client/Intro.antt =====
-- The client script's tour of the intro: both themes, and the pages forth and back.
use capybaragram_build.Prelude.{
  ℕ, zero, suc, ◌+◌, ◌-◌, ◌/◌, Bool, true, false, ◌&&◌, [], ◌∷◌, ◌++◌, List, any, leb,
  if◌then◌else◌,
}
use capybaragram_build.Text.{Text, codes, text_eq, listed, is_suffix}
use capybaragram_build.Text.Decimal.{decimal}
use capybaragram_build.Device.{
  runtime, text, texts, Node, Tree, World, M, return, require, from_option, ◌>>=◌, ◌>>◌, sleep,
  note, device,
}
use capybaragram_build.Device.Screen.{get_or, is, first, tap, bounds_of}
use capybaragram_build.Device.Snapshot.{snapshot}
use capybaragram_build.Smoke.Client.Launcher.{app, swipe_command}

-- `descriptions['switch to night theme']`, in lower case
abbrev pub night : List Text
night = codes "switch to night theme" ∷ codes "переключить на ночную тему" ∷ []

abbrev pub day : List Text
day = codes "switch to day theme" ∷ codes "переключить на дневную тему" ∷ []

abbrev pub russian : List Text
russian =
    codes "Всё под рукой"
    ∷ codes "Ответ без спешки"
    ∷ codes "Каждому своё"
    ∷ codes "Знакомые папки"
    ∷ codes "Как вам удобно"
    ∷ []

abbrev pub english : List Text
english =
    codes "Keep the context"
    ∷ codes "Prepare your reply"
    ∷ codes "Separate accounts"
    ∷ codes "Familiar folders"
    ∷ codes "Make it yours"
    ∷ []

abbrev pub first_title : Text
first_title = codes "CapybaraGram"

-- `a+(b-a)//n`, also where `b` is less than `a`: the division rounds down
unfoldable pub along : ℕ → ℕ → ℕ → ℕ
along a b n = if leb a b then a + (b - a) / n else a - (a - b + (n - 1)) / n

-- `b-(b-a)//n`
unfoldable pub before_end : ℕ → ℕ → ℕ → ℕ
before_end a b n = if leb a b then b - (b - a) / n else b + (a - b + (n - 1)) / n

module _ (w : World) where
  unfoldable pub require_title : Tree → Text → M (Unit {0})
  require_title tree title =
      require (any (λ n. is n "package" app && is n "text" title) tree.nodes)
        (runtime (codes "Expected visible intro page: " ++ title))

  unfoldable pub describes : List Text → Node → Bool
  describes labels n = listed (w.casefold (get_or n "content-desc")) labels

  unfoldable pub change_theme : Tree → List Text → List Text → Text → M Tree
  change_theme tree current next file = do
    node ←
        from_option (runtime (codes "Observed theme toggle is missing"))
          (first (λ n. is n "package" app && describes current n) tree.nodes)
    tap w node
    sleep 5
    changed ← snapshot w file
    require (any (describes next) changed.nodes)
        (runtime (codes "Theme toggle did not change state"))
    require_title changed first_title
    return changed

  unfoldable pub swipe_page : Tree → Bool → M (Unit {0})
  swipe_page tree forward = do
    pager ← from_option (runtime (codes "Observed intro pager is missing")) (
        first (λ n. is n "package" app && is_suffix (codes ".ViewPager") (get_or n "class"))
          tree.nodes)
    b ← bounds_of w (codes "Intro pager has invalid bounds") pager
    let left = decimal (along b.x1 b.x2 6)
    let right = decimal (before_end b.x1 b.x2 6)
    let y = decimal (along b.y1 b.y2 2)
    swiped ← device w (
        if forward
        then swipe_command right y left y (codes "350")
        else swipe_command left y right y (codes "350"))
    sleep 2

  -- `for index,title in enumerate(titles[1:],2)`, with the titles that are left and those seen.
  unfoldable pub turn_pages : List Text → ℕ → List Text → Tree → M Tree
  turn_pages [] index seen tree = return tree
  turn_pages (title ∷ titles) index seen tree = do
    swipe_page tree true
    page ← snapshot w (codes "01-page-" ++ decimal index)
    require_title page title
    note "intro_pages" (texts (seen ++ title ∷ []))
    turn_pages titles (index + 1) (seen ++ title ∷ []) page

  -- `for _ in range(n): swipe_page(hierarchy,False)`
  unfoldable pub turn_back : ℕ → Tree → M (Unit {0})
  turn_back zero tree = return tt
  turn_back (suc n) tree = do swipe_page tree false; turn_back n tree

  -- The whole tour, from the first hierarchy of the client.
  unfoldable pub tour : Text → Tree → M Tree
  tour locale onboarding = do
    require_title onboarding first_title
    dark ← change_theme onboarding night day (codes "01-theme-dark")
    light ← change_theme dark day night (codes "01-theme-light")
    note "theme_switch" (text (codes "PASS (both directions; visual review pending)"))
    note "intro_pages" (texts (first_title ∷ []))
    last ←
        turn_pages (if text_eq locale (codes "ru-RU") then russian else english) 2
          (first_title ∷ []) light
    turn_back 5 last
    returned ← snapshot w (codes "01-return-first")
    require_title returned first_title
    note "intro_return" (text (codes "PASS"))
    return returned
