-- ===== src/Folders/Bulk.antt =====
-- ci/folders/prepare_windows_bulk.py: drain failed bulk folder requests, and do not continue after a rejection.
use capybaragram_build.Prelude.{ℕ, Bool, List, [], ◌∷◌, Result, value_error}
use capybaragram_build.Text.{Text, codes, block}
use capybaragram_build.Checkout.{Checkout}
use capybaragram_build.Patch.{Edit, edit, exchange, apply}
use capybaragram_build.Folders.{Pins, Messages, windows_sha, plan_one, run_one}

abbrev pub name : Text
name = codes "Telegram/SourceFiles/settings/sections/settings_folders.cpp"

-- `once`
unfoldable pub once : Text → Text → Text → ℕ → Result Text
once = exchange "Bulk folder anchor differs"

unfoldable pub edits : List Edit
edits =
    edit (codes "#include \"lang/lang_keys.h\"")
      (block ("#include \"lang/lang_keys.h\"" ∷ "#include \"ui/toast/toast.h\"" ∷ []))
    ∷ edit
        (block (
          "\t\t\tconst auto checkFinished = [=] {" ∷ "\t\t\t\tif (ids->empty() && next) {"
          ∷ "\t\t\t\t\tAssert(updated.id() != 0);" ∷ "\t\t\t\t\tnext(updated);" ∷ "\t\t\t\t}"
          ∷ "\t\t\t};" ∷ []))
        (block (
          "\t\t\tstruct CapySaveState { bool failed = false; bool finished = false; };"
          ∷ "\t\t\tconst auto capySave = std::make_shared<CapySaveState>();"
          ∷ "\t\t\tconst auto checkFinished = [=] {"
          ∷ "\t\t\t\tif (!ids->empty() || capySave->finished) {" ∷ "\t\t\t\t\treturn;" ∷ "\t\t\t\t}"
          ∷ "\t\t\t\tcapySave->finished = true;" ∷ "\t\t\t\tfilters->reload();"
          ∷ "\t\t\t\tif (capySave->failed) {"
          ∷ "\t\t\t\t\tUi::Toast::Show(Lang::Id().startsWith(u\"ru\"_q)"
          ∷ "\t\t\t\t\t\t? u\"Не все изменения папок сохранены. Проверьте папки и повторите попытку.\"_q"
          ∷ "\t\t\t\t\t\t: u\"Some folder changes were not saved. Check your folders and try again.\"_q);"
          ∷ "\t\t\t\t} else if (next) {" ∷ "\t\t\t\t\tAssert(updated.id() != 0);"
          ∷ "\t\t\t\t\tnext(updated);" ∷ "\t\t\t\t}" ∷ "\t\t\t};" ∷ []))
    ∷ edit
        (block (
          "\t\t\t\t\t\t\tsession->api().applyUpdates(result);" ∷ "\t\t\t\t\t\t}"
          ∷ "\t\t\t\t\t\tids->remove(id);" ∷ []))
        (block (
          "\t\t\t\t\t\t\tsession->api().applyUpdates(result);"
          ∷ "\t\t\t\t\t\t} else if constexpr (std::is_same_v<"
          ∷ "\t\t\t\t\t\t\t\tstd::decay_t<decltype(result)>, MTPBool>) {"
          ∷ "\t\t\t\t\t\t\tif (!mtpIsTrue(result)) {" ∷ "\t\t\t\t\t\t\t\tcapySave->failed = true;"
          ∷ "\t\t\t\t\t\t\t}" ∷ "\t\t\t\t\t\t}" ∷ "\t\t\t\t\t\tids->remove(id);" ∷ []))
    ∷ edit (codes "\t\t\t\t\t}).afterRequest(previousId).send();") (
        block (
          "\t\t\t\t\t}).fail([=](const MTP::Error &, mtpRequestId id) {"
          ∷ "\t\t\t\t\t\tcapySave->failed = true;" ∷ "\t\t\t\t\t\tids->remove(id);"
          ∷ "\t\t\t\t\t\tcheckFinished();" ∷ "\t\t\t\t\t}).afterRequest(previousId).send();" ∷ []))
    ∷ []

unfoldable pub transform : Text → Result Text
unfolding once edits
transform text = apply once edits text

abbrev pub messages : Messages
messages = record {
  unsafe = "Unsafe source path";
  source = "Pinned bulk folder source differs";
  output = "Bulk folder output differs";
}

unfoldable pub plan : (Text → Text) → Pins → Checkout → Bool → Result Text
unfolding transform
plan sha256 pins c check = plan_one sha256 messages name transform pins c check

unfoldable pub run : (Text → Text) → Pins → Checkout → Bool → Result Checkout
unfolding transform
run sha256 pins c check =
    run_one sha256 windows_sha (value_error "Wrong Windows revision") messages name transform pins c
      check
