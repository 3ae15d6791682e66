-- ===== src/Tests/Scripts.antt =====
-- The theorems on the folder, account and host scripts, each at a text that holds the script's anchors.
use capybaragram_build.Prelude.{true, List, [], ◌∷◌, ◌++◌, All, ◌≡◌, ◌⊎◌, refl, some}
use capybaragram_build.Text.{
  Text, codes, block, is_prefix, replace_all, pieces_from, count, join, text_eq, listed, find,
  replace_first, contains,
}
use capybaragram_build.Text.Occurs.{Occurs}
use capybaragram_build.Text.Split.{IsFree}
use capybaragram_build.Text.Slice.{index, index_from}
use capybaragram_build.Patch.{Edit, apply, exchange, exchange_at}
use capybaragram_build.Folders.Effects.{
  reconcile_edits, OneFile, one_transform, one_edits, one_file-Occurs, SeveralFiles,
  several_transform, several_files, several_edits, several_files-Occurs,
}
use capybaragram_build.Folders.Reconcile
use capybaragram_build.Folders.Bulk
use capybaragram_build.Folders.AndroidCallbacks
use capybaragram_build.Folders.AndroidCallbacks.Localized.{Localized, transform-Localized}
use capybaragram_build.Accounts.Windows
use capybaragram_build.Accounts.Windows.Capacity.{header_capacity, cut_keeps}
use capybaragram_build.Hosts.{row}
use capybaragram_build.Hosts.Archive
use capybaragram_build.Hosts.Notes
use capybaragram_build.Hosts.Voice
use capybaragram_build.Hosts.Effects.{
  Tabled, tabled_transform, table_of, tabled-Occurs, archive-Occurs, notes-Occurs,
}
use capybaragram_build.Tests.{value_of, anchors}

abbrev bulk_text : Text
bulk_text = anchors Bulk.edits

one_file-Occurs_example : All (λ e. Occurs e.new (value_of (Bulk.transform bulk_text))) Bulk.edits
unfolding is_prefix count pieces_from replace_all join exchange apply Bulk.edits Bulk.once
    Bulk.transform one_transform one_edits
one_file-Occurs_example =
    one_file-Occurs OneFile.bulk bulk_text (value_of (Bulk.transform bulk_text)) refl

abbrev header_text : Text
header_text = codes "private:\n\tbool _reloading = false;\n"

abbrev header_out : Text
header_out = codes "private:\n\tbool _reloading = false;\n\tbool _capyReloadPending = false;\n"

several_files-Occurs_example :
    (listed Reconcile.header_file Reconcile.files ≡ true)
    × All (λ e. Occurs e.new header_out) (reconcile_edits Reconcile.header_file)
unfolding is_prefix count pieces_from replace_all join exchange apply text_eq Reconcile.header_edits
    Reconcile.once Reconcile.transform several_transform several_files several_edits
several_files-Occurs_example =
    several_files-Occurs SeveralFiles.reconcile Reconcile.header_file header_text header_out refl

abbrev voice_host : Text
voice_host = codes "Telegram/SourceFiles/core/application.h"

abbrev voice_text : Text
voice_text = anchors Voice.Edits.application_h_edits

abbrev voice_out : Text
voice_out = value_of (Voice.transform voice_host voice_text)

tabled-Occurs_example :
    (es : List Edit) × (row voice_host Voice.Edits.table ≡ some es)
    × All (λ e. Occurs e.new voice_out) es
unfolding is_prefix count pieces_from replace_all join exchange_at apply text_eq row
    Voice.Edits.application_h_edits Voice.Edits.table Voice.replace Voice.transform tabled_transform
    table_of
tabled-Occurs_example = tabled-Occurs Tabled.voice voice_host voice_text voice_out refl

abbrev archive_host : Text
archive_host = codes "Telegram/SourceFiles/main/main_domain.cpp"

abbrev archive_text : Text
archive_text = anchors Archive.Edits.main_domain_cpp_edits

abbrev archive_out : Text
archive_out = value_of (Archive.transform archive_host archive_text)

archive-Occurs_example :
    ((es : List Edit) × (row archive_host Archive.Edits.table ≡ some es)
      × All (λ e. Occurs e.new archive_out) es)
    ⊎ ((es : List Edit) × (row archive_host Archive.Edits.checked ≡ some es)
        × (archive_out ≡ archive_text))
unfolding is_prefix count pieces_from replace_all join exchange_at apply text_eq row
    Archive.Edits.main_domain_cpp_edits Archive.Edits.table Archive.replace Archive.transform
archive-Occurs_example = archive-Occurs archive_host archive_text archive_out refl

abbrev notes_host : Text
notes_host = codes "Telegram/SourceFiles/main/main_domain.cpp"

abbrev notes_text : Text
notes_text = anchors Notes.Edits.main_domain_cpp_edits

abbrev notes_out : Text
notes_out = value_of (Notes.transform notes_host notes_text)

notes-Occurs_example :
    (es : List Edit) × (row notes_host Notes.Edits.table ≡ some es)
    × All (λ e. Occurs e.new notes_out) es
unfolding is_prefix count pieces_from replace_all join exchange_at apply text_eq row
    Notes.Edits.main_domain_cpp_edits Notes.Edits.table Notes.replace Notes.transform
notes-Occurs_example = notes-Occurs notes_host notes_text notes_out refl refl

abbrev domain_text : Text
domain_text = anchors Windows.header_edits

abbrev domain_out : Text
domain_out = value_of (Windows.transform Windows.domain_header domain_text)

header_capacity_example :
    Occurs (codes "static constexpr auto kMaxAccounts = 10;") domain_out
    × Occurs (codes "static constexpr auto kPremiumMaxAccounts = kMaxAccounts;") domain_out
    × IsFree (codes "static constexpr auto kMaxAccounts = 3;") domain_out
    × IsFree (codes "static constexpr auto kPremiumMaxAccounts = 6;") domain_out
unfolding is_prefix count pieces_from replace_all join exchange apply text_eq Windows.header_edits
    Windows.replace Windows.transform
header_capacity_example = header_capacity domain_text domain_out refl

abbrev cut_text : Text
cut_text = codes "a<b>c"

cut_keeps_example :
    (before : Text) × (gone : Text) × (behind : Text) × (cut_text
      ≡ before ++ (gone ++ (codes ">" ++ behind)))
    × (codes "a+>c" ≡ before ++ (codes "+" ++ (codes ">" ++ behind)))
    × ((tail : Text) × (gone ++ (codes ">" ++ behind) ≡ codes "<" ++ tail))
unfolding is_prefix count pieces_from find index Windows.cut
cut_keeps_example =
    cut_keeps "anchors" "order" (codes "<") (codes ">") (codes "+") cut_text (codes "a+>c") refl

abbrev callback_text : Text
callback_text = block (
    "    private Utilities.Callback<Boolean> onLoadedRemoteFilters;" ∷ ""
    ∷ "        if (whenDone != null) {" ∷ "            onLoadedRemoteFilters = whenDone;"
    ∷ "        }" ∷ "                        onLoadedRemoteFilters = null;"
    ∷ "                        onLoadedRemoteFilters = null;"
    ∷ "                        onLoadedRemoteFilters = null;"
    ∷ "    private boolean loggedDeviceStats;" ∷ [])

abbrev callback_out : Text
callback_out = value_of (AndroidCallbacks.transform callback_text)

transform-Localized_example :
    (before : Text) × (old : Text) × (section : Text) × (behind : Text) × (callback_text
      ≡ before ++ (old ++ behind))
    × (callback_out ≡ before ++ (section ++ behind))
    × ((tail : Text) × (old ++ behind ≡ AndroidCallbacks.declaration ++ tail))
    × ((tail : Text) × (behind ≡ AndroidCallbacks.next_field ++ tail))
    × Localized old section
    × IsFree AndroidCallbacks.callback section
    × IsFree AndroidCallbacks.callback (before ++ behind)
unfolding is_prefix count pieces_from replace_all join find index index_from replace_first contains
    AndroidCallbacks.rename AndroidCallbacks.undeclared AndroidCallbacks.unassigned
    AndroidCallbacks.uncompleted AndroidCallbacks.localize AndroidCallbacks.transform
transform-Localized_example = transform-Localized callback_text callback_out refl
