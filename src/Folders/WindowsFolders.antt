-- ===== src/Folders/WindowsFolders.antt =====
-- ci/folders/prepare_windows_folders.py: keep native Windows folders until the server has deleted them.
use capybaragram_build.Prelude.{ℕ, Bool, List, [], ◌∷◌, Result, value_error}
use capybaragram_build.Text.{Text, codes, block}
use capybaragram_build.Checkout.{Checkout}
use capybaragram_build.Patch.{Edit, edit, exchange, apply}
use capybaragram_build.Folders.{Pins, Messages, windows_sha, plan_one, run_one}

abbrev pub name : Text
name = codes "Telegram/SourceFiles/api/api_chat_filters_remove_manager.cpp"

-- `once`
unfoldable pub once : Text → Text → Text → ℕ → Result Text
once = exchange "Windows folder anchor differs"

unfoldable pub edits : List Edit
edits =
    edit (codes "#include \"ui/ui_utility.h\"")
      (block ("#include \"ui/ui_utility.h\"" ∷ "#include \"ui/toast/toast.h\"" ∷ []))
    ∷ edit
        (block (
          "\tsession->data().chatsFilters().apply(MTP_updateDialogFilter("
          ∷ "\t\tMTP_flags(MTPDupdateDialogFilter::Flag(0))," ∷ "\t\tMTP_int(filterId),"
          ∷ "\t\tMTPDialogFilter()));" ∷ []))
        (block (
          "\tconst auto removed = [=] {"
          ∷ "\t\tsession->data().chatsFilters().apply(MTP_updateDialogFilter("
          ∷ "\t\t\tMTP_flags(MTPDupdateDialogFilter::Flag(0))," ∷ "\t\t\tMTP_int(filterId),"
          ∷ "\t\t\tMTPDialogFilter()));" ∷ "\t};" ∷ "\tconst auto failed = [] {"
          ∷ "\t\tUi::Toast::Show(Lang::Id().startsWith(u\"ru\"_q)"
          ∷ "\t\t\t? u\"Не удалось удалить папку. Попробуйте ещё раз.\"_q"
          ∷ "\t\t\t: u\"Could not remove the folder. Please try again.\"_q);" ∷ "\t};" ∷ []))
    ∷ edit (block ("\t\t\tMTPDialogFilter()" ∷ "\t\t)).send();" ∷ [])) (
        block (
          "\t\t\tMTPDialogFilter()" ∷ "\t\t)).done([=](const MTPBool &result) {"
          ∷ "\t\t\tif (mtpIsTrue(result)) {" ∷ "\t\t\t\tremoved();" ∷ "\t\t\t} else {"
          ∷ "\t\t\t\tfailed();" ∷ "\t\t\t}" ∷ "\t\t}).fail(failed).send();" ∷ []))
    ∷ edit
        (block (
          "\t\t)).done([=](const MTPUpdates &result) {" ∷ "\t\t\tapi->applyUpdates(result);"
          ∷ "\t\t}).send();" ∷ []))
        (block (
          "\t\t)).done([=](const MTPUpdates &result) {" ∷ "\t\t\tapi->applyUpdates(result);"
          ∷ "\t\t\tremoved();" ∷ "\t\t}).fail(failed).send();" ∷ []))
    ∷ []

unfoldable pub transform : Text → Result Text
unfolding once edits
transform text = apply once edits text

abbrev pub messages : Messages
messages = record {
  unsafe = "Unsafe folder source path";
  source = "Pinned Windows folder source differs";
  output = "Windows folder output differs";
}

unfoldable pub plan : (Text → Text) → Pins → Checkout → Bool → Result Text
unfolding transform
plan sha256 pins c check = plan_one sha256 messages name transform pins c check

unfoldable pub run : (Text → Text) → Pins → Checkout → Bool → Result Checkout
unfolding transform
run sha256 pins c check =
    run_one sha256 windows_sha (value_error "Wrong Windows revision") messages name transform pins c
      check
