-- ===== src/Folders/Mutations.antt =====
-- ci/folders/prepare_windows_mutations.py: reconcile failed folder edits and pinned-chat updates with
-- the state of the server.
use capybaragram_build.Prelude.{
  ℕ, Bool, List, [], ◌∷◌, ◌++◌, map, Result, err, value_error, if◌then◌else◌,
}
use capybaragram_build.Text.{Text, codes, block, text_eq, replace_all, join, newline}
use capybaragram_build.Text.Lines.{splitlines, lstrip}
use capybaragram_build.Checkout.{Checkout}
use capybaragram_build.Patch.{Edit, edit, exchange, apply}
use capybaragram_build.Folders.{Manifest, plan_files, run_files}

abbrev pub edit_box : Text
edit_box = codes "Telegram/SourceFiles/boxes/filters/edit_filter_box.cpp"

abbrev pub api_filters : Text
api_filters = codes "Telegram/SourceFiles/api/api_chat_filters.cpp"

abbrev pub files : List Text
files = edit_box ∷ api_filters ∷ []

unfoldable pub once : Text → Text → Text → ℕ → Result Text
once = exchange "Folder mutation anchor differs"

-- The texts that differ between the two files.
pub record Place : Type 0 where
  pub marker : Text
  pub indent : Text
  pub ending : Text
  pub replacement : Text

abbrev box_place : Place
box_place = record {
  marker = codes "\t\tconst auto tl = result.tl();";
  indent = codes "\t\t";
  ending = block ("\t\t\ttl" ∷ "\t\t)).send();" ∷ []);
  replacement = block ("\t\t\ttl" ∷ "" ∷ []);
}

abbrev api_place : Place
api_place = record {
  marker = codes "\tconst auto &order = session->data().pinnedChatsOrder(filterId);";
  indent = codes "\t";
  ending = block ("\t\tfilter.tl()" ∷ "\t)).send();" ∷ []);
  replacement = block ("\t\tfilter.tl()" ∷ "" ∷ []);
}

-- `fail`
abbrev fail : Text
fail = block (
    "const auto capyFailed = [=] {" ∷ "    session->data().chatsFilters().reload();"
    ∷ "    Ui::Toast::Show(Lang::Id().startsWith(u\"ru\"_q)"
    ∷ "        ? u\"Не удалось сохранить изменения папки. Попробуйте ещё раз.\"_q"
    ∷ "        : u\"Could not save folder changes. Please try again.\"_q);" ∷ "};" ∷ [])

-- `native(block)`: each line indented, and its groups of four spaces made tabs.
native : Text → Text → Text
unfolding splitlines replace_all join
native indent text =
    join newline
      (map (λ line. indent ++ replace_all (codes "    ") (codes "\t") line) (splitlines text))

-- `callback`, before its `lstrip`
abbrev callback : Text
callback = block (
    " )).done([=](const MTPBool &result) {" ∷ "    if (mtpIsTrue(result)) {"
    ∷ "        session->data().chatsFilters().reload();" ∷ "    } else {" ∷ "        capyFailed();"
    ∷ "    }" ∷ "}).fail(capyFailed).send();" ∷ [])

-- The callback of the edit box names its result differently and goes on to `next`.
box_callback : Text
unfolding replace_all lstrip
box_callback =
    replace_all (codes "        session->data().chatsFilters().reload();")
      (block (
        "        session->data().chatsFilters().reload();" ∷ "        if (next) {"
        ∷ "            next(result);" ∷ "        }" ∷ []))
      (replace_all (codes "mtpIsTrue(result)") (codes "mtpIsTrue(response)") (
        replace_all (codes "const MTPBool &result") (codes "const MTPBool &response")
          (lstrip callback)))

fail_edit : Place → Edit
unfolding native
fail_edit place = edit place.marker (native place.indent fail ++ (newline ++ place.marker))

ending_edit : Place → Text → Edit
unfolding native
ending_edit place text = edit place.ending (place.replacement ++ native place.indent text)

unfoldable pub box_edits : List Edit
unfolding fail_edit ending_edit box_callback
box_edits =
    edit (codes "#include \"ui/rect.h\"")
      (block ("#include \"ui/rect.h\"" ∷ "#include \"ui/toast/toast.h\"" ∷ []))
    ∷ fail_edit box_place
    ∷ edit (codes "\tconst auto doneCallback = [=](const Data::ChatFilter &result) {") (
        block (
          "\tconst auto saveFilter = [=](" ∷ "\t\t\tconst Data::ChatFilter &result,"
          ∷ "\t\t\tFn<void(Data::ChatFilter)> next) {" ∷ []))
    ∷ edit (block ("\tconst auto saveAnd = [=](" ∷ "" ∷ [])) (
        block (
          "\tconst auto doneCallback = [=](const Data::ChatFilter &data) {"
          ∷ "\t\tsaveFilter(data, {});" ∷ "\t};" ∷ "\tconst auto saveAnd = [=](" ∷ "" ∷ []))
    ∷ edit (block ("\t\tdoneCallback(data);" ∷ "\t\tnext(data);" ∷ []))
        (codes "\t\tsaveFilter(data, std::move(next));")
    ∷ ending_edit box_place box_callback
    ∷ []

unfoldable pub api_edits : List Edit
unfolding fail_edit ending_edit lstrip
api_edits = fail_edit api_place ∷ ending_edit api_place (lstrip callback) ∷ []

unfoldable pub transform : Text → Text → Result Text
unfolding once box_edits api_edits text_eq
transform name text =
    if text_eq name edit_box
    then apply once box_edits text
    else if text_eq name api_filters
    then apply once api_edits text
    else err (value_error "Unexpected folder source")

unfoldable pub plan : (Text → Text) → Manifest → Checkout → Bool → Result (List (Text × Text))
unfolding transform
plan sha256 hashes c check = plan_files sha256 files transform hashes c check

unfoldable pub run : (Text → Text) → Manifest → Checkout → Bool → Result Checkout
unfolding transform
run sha256 hashes c check = run_files sha256 files transform hashes c check
