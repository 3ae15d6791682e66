-- ===== src/Folders/AndroidCallbacks.antt =====
-- ci/folders/prepare_android_callbacks.py: keep each remote-folder request's completion callback
-- local to that request.
pub mod Localized
use capybaragram_build.Prelude.{
  Bool, [], ◌∷◌, ◌++◌, ◌-◌, ◌==◌, ◌≡◌, take, drop, Result, ok, value_error, ◌>>=◌, ◌>>◌, require,
  refuse, refuse-eq-ok, >>=-eq-ok, arith, refl, false, Error, subst, sym,
}
use capybaragram_build.Text.{Text, codes, block, count, replace_all, replace_first, contains}
use capybaragram_build.Text.Occurs.{apart}
use capybaragram_build.Text.Split.{IsFree}
use capybaragram_build.Text.Replace.{replace_all-IsFree}
use capybaragram_build.Text.Slice.{index, index_from, contains-IsFree}
use capybaragram_build.Checkout.{Checkout}
use capybaragram_build.Folders.{Pins, Messages, plan_one, run_one, android_sha}

abbrev pub name : Text
name = codes "TMessagesProj/src/main/java/org/telegram/messenger/MessagesController.java"

abbrev pub callback : Text
callback = codes "onLoadedRemoteFilters"

abbrev pub declaration : Text
declaration = codes "    private Utilities.Callback<Boolean> onLoadedRemoteFilters;"

-- The next field behind the section.
abbrev pub next_field : Text
next_field = codes "    private boolean loggedDeviceStats;"

abbrev pub assignment : Text
assignment = block (
    "        if (whenDone != null) {" ∷ "            onLoadedRemoteFilters = whenDone;"
    ∷ "        }" ∷ "" ∷ [])

abbrev pub completion : Text
completion = codes "                        onLoadedRemoteFilters = null;"

-- `section.replace('onLoadedRemoteFilters', 'whenDone')`
unfoldable pub rename : Text → Text
rename section = replace_all callback (codes "whenDone") section

-- The section with its declaration taken out, then without the assignment, then without the
-- three resets.
unfoldable pub undeclared : Text → Text
undeclared section = replace_first (declaration ++ block ("" ∷ "" ∷ "" ∷ [])) [] section

unfoldable pub unassigned : Text → Text
unfolding undeclared
unassigned section = replace_first assignment [] (undeclared section)

unfoldable pub uncompleted : Text → Text
unfolding unassigned
uncompleted section = replace_all (completion ++ block ("" ∷ "" ∷ [])) [] (unassigned section)

-- The rewriting of the section between the declaration and the next field.
unfoldable pub localize : Text → Result Text
unfolding rename uncompleted
localize section = do
  require (count assignment (undeclared section) == 1)
      (value_error "Callback assignment anchor differs")
  require (count completion (unassigned section) == 3)
      (value_error "Callback completion anchors differ")
  ok (rename (uncompleted section))

unfoldable pub transform : Text → Result Text
unfolding localize
transform text = do
  start ← index declaration text
  end ← index_from next_field text start
  section ← localize (take (end - start) (drop start text))
  refuse (contains callback (take start text ++ drop end text))
      (value_error "Unexpected shared callback reference outside reviewed methods")
  ok (take start text ++ (section ++ drop end text))

abbrev pub messages : Messages
messages = record {
  unsafe = "Unsafe Android source path";
  source = "Pinned Android callback source differs";
  output = "Callback output differs";
}

unfoldable pub plan : (Text → Text) → Pins → Checkout → Bool → Result Text
unfolding transform
plan sha256 pins c check = plan_one sha256 messages name transform pins c check

unfoldable pub run : (Text → Text) → Pins → Checkout → Bool → Result Checkout
unfolding transform
run sha256 pins c check =
    run_one sha256 android_sha (value_error "Wrong Android revision") messages name transform pins c
      check
