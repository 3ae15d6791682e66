-- ===== src/Folders/Reconcile.antt =====
-- ci/folders/prepare_windows_reconcile.py: reload the folder state of the server in place of stale snapshots.
use capybaragram_build.Prelude.{ℕ, Bool, List, [], ◌∷◌, Result, err, value_error, if◌then◌else◌}
use capybaragram_build.Text.{Text, codes, block, text_eq}
use capybaragram_build.Checkout.{Checkout}
use capybaragram_build.Patch.{Edit, edit, exchange, apply}
use capybaragram_build.Folders.{Manifest, plan_files, run_files}

abbrev pub box_file : Text
box_file = codes "Telegram/SourceFiles/boxes/choose_filter_box.cpp"

abbrev pub data_file : Text
data_file = codes "Telegram/SourceFiles/data/data_chat_filters.cpp"

abbrev pub header_file : Text
header_file = codes "Telegram/SourceFiles/data/data_chat_filters.h"

abbrev pub files : List Text
files = box_file ∷ data_file ∷ header_file ∷ []

unfoldable pub once : Text → Text → Text → ℕ → Result Text
once = exchange "Folder reconcile anchor differs"

unfoldable pub box_edits : List Edit
box_edits =
    edit (codes "\t\thistory->session().api().request(MTPmessages_UpdateDialogFilter(") (
      block (
        "\t\tconst auto capyUpdateFinished = [=](bool accepted) {"
        ∷ "\t\t\thistory->owner().chatsFilters().reload();" ∷ "\t\t\tif (!accepted) {"
        ∷ "\t\t\t\tUi::Toast::Show(Lang::Id().startsWith(u\"ru\"_q)"
        ∷ "\t\t\t\t\t? u\"Не удалось изменить папку. Попробуйте ещё раз.\"_q"
        ∷ "\t\t\t\t\t: u\"Could not update folder. Please try again.\"_q);" ∷ "\t\t\t}"
        ∷ "\t\t\treturn accepted;" ∷ "\t\t};"
        ∷ "\t\thistory->session().api().request(MTPmessages_UpdateDialogFilter(" ∷ []))
    ∷ edit
        (block (
          "\t\t\t// Revert filter on fail." ∷ "\t\t\thistory->owner().chatsFilters().set(was);"
          ∷ []))
        (block (
          "\t\t\t// A late failure must not restore a snapshot over a newer edit."
          ∷ "\t\t\tcapyUpdateFinished(false);" ∷ []))
    ∷ edit (codes "\t\t)).done([=, chat = history->peer->name(), name = filter.title()] {") (
        block (
          "\t\t)).done([=, chat = history->peer->name(), name = filter.title()](const MTPBool &result) {"
          ∷ "\t\t\tif (!capyUpdateFinished(mtpIsTrue(result))) {" ∷ "\t\t\t\treturn;" ∷ "\t\t\t}"
          ∷ []))
    ∷ []

unfoldable pub header_edits : List Edit
header_edits =
    edit (codes "\tbool _reloading = false;")
      (block ("\tbool _reloading = false;" ∷ "\tbool _capyReloadPending = false;" ∷ []))
    ∷ []

unfoldable pub data_edits : List Edit
data_edits =
    edit (block ("void ChatFilters::reload() {" ∷ "\t_reloading = true;" ∷ [])) (
      block (
        "void ChatFilters::reload() {" ∷ "\tif (_loadRequestId) {"
        ∷ "\t\t_capyReloadPending = true;" ∷ "\t}" ∷ "\t_reloading = true;" ∷ []))
    ∷ edit
        (block (
          "\tapi.request(_loadRequestId).cancel();"
          ∷ "\t_loadRequestId = api.request(MTPmessages_GetDialogFilters(" ∷ []))
        (block (
          "\tapi.request(_loadRequestId).cancel();" ∷ "\t_capyReloadPending = false;"
          ∷ "\t_loadRequestId = api.request(MTPmessages_GetDialogFilters(" ∷ []))
    ∷ edit
        (block (
          "\t\t_tagsEnabled = result.data().is_tags_enabled();"
          ∷ "\t\treceived(result.data().vfilters().v);" ∷ "\t\t_loadRequestId = 0;" ∷ []))
        (block (
          "\t\t// Clear before received(), which may synchronously request a new load."
          ∷ "\t\t_loadRequestId = 0;" ∷ "\t\t_tagsEnabled = result.data().is_tags_enabled();"
          ∷ "\t\treceived(result.data().vfilters().v);" ∷ "\t\tif (_capyReloadPending) {"
          ∷ "\t\t\t_capyReloadPending = false;" ∷ "\t\t\treload();" ∷ "\t\t}" ∷ []))
    ∷ edit
        (block (
          "\t\tif (_reloading) {" ∷ "\t\t\t_reloading = false;" ∷ "\t\t\t_listChanged.fire({});"
          ∷ "\t\t}" ∷ "\t}).send();" ∷ []))
        (block (
          "\t\tif (_reloading) {" ∷ "\t\t\t_reloading = false;" ∷ "\t\t\t_listChanged.fire({});"
          ∷ "\t\t}" ∷ "\t\tif (_capyReloadPending) {" ∷ "\t\t\t_capyReloadPending = false;"
          ∷ "\t\t\treload();" ∷ "\t\t}" ∷ "\t}).send();" ∷ []))
    ∷ edit (codes "#include \"apiwrap.h\"") (
        block (
          "#include \"apiwrap.h\"" ∷ "#include \"lang/lang_keys.h\""
          ∷ "#include \"ui/toast/toast.h\"" ∷ []))
    ∷ edit (codes "\tapply(MTP_updateDialogFilterOrder(wrapped));") (
        block (
          "\tconst auto capyOrderFinished = [=](mtpRequestId requestId, bool accepted) {"
          ∷ "\t\tif (requestId != _saveOrderRequestId) {" ∷ "\t\t\treturn;" ∷ "\t\t}"
          ∷ "\t\t_saveOrderRequestId = 0;" ∷ "\t\t_saveOrderAfterId = 0;" ∷ "\t\treload();"
          ∷ "\t\tif (!accepted) {" ∷ "\t\t\tUi::Toast::Show(Lang::Id().startsWith(u\"ru\"_q)"
          ∷ "\t\t\t\t? u\"Не удалось сохранить порядок папок. Попробуйте ещё раз.\"_q"
          ∷ "\t\t\t\t: u\"Could not save folder order. Please try again.\"_q);" ∷ "\t\t}" ∷ "\t};"
          ∷ "\tapply(MTP_updateDialogFilterOrder(wrapped));" ∷ []))
    ∷ edit (codes "\t)).afterRequest(_saveOrderAfterId).send();") (
        block (
          "\t)).done([=](const MTPBool &result, mtpRequestId id) {"
          ∷ "\t\tcapyOrderFinished(id, mtpIsTrue(result));"
          ∷ "\t}).fail([=](const MTP::Error &, mtpRequestId id) {"
          ∷ "\t\tcapyOrderFinished(id, false);" ∷ "\t}).afterRequest(_saveOrderAfterId).send();"
          ∷ []))
    ∷ []

unfoldable pub transform : Text → Text → Result Text
unfolding once box_edits header_edits data_edits text_eq
transform name text =
    if text_eq name box_file
    then apply once box_edits text
    else if text_eq name header_file
    then apply once header_edits text
    else if text_eq name data_file
    then apply once data_edits text
    else err (value_error "Unexpected source")

unfoldable pub plan : (Text → Text) → Manifest → Checkout → Bool → Result (List (Text × Text))
unfolding transform
plan sha256 hashes c check = plan_files sha256 files transform hashes c check

unfoldable pub run : (Text → Text) → Manifest → Checkout → Bool → Result Checkout
unfolding transform
run sha256 hashes c check = run_files sha256 files transform hashes c check
