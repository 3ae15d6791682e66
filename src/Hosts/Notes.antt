-- ===== src/Hosts/Notes.antt =====
-- ci/windows-notes/windows_notes_patch.py: private notes and templates in the native Windows client.
pub mod Edits
use capybaragram_build.Prelude.{
  ℕ, ◌+◌, Bool, true, false, List, [], ◌∷◌, ◌++◌, Option, none, some, take, drop, length, Result,
  ok, err, Error, value_error, ◌>>=◌, from_option,
}
use capybaragram_build.Text.{Text, codes, text_eq, find}
use capybaragram_build.Checkout.{Checkout}
use capybaragram_build.Patch.{Edit, exchange_at, apply}
use capybaragram_build.Hosts
use capybaragram_build.Hosts.{row, Manifest, Messages}
use capybaragram_build.Hosts.Notes.Edits.{
  table, account_header, account_first, account_private, account_last,
}

abbrev pub files : List Text
files =
    codes "Telegram/CMakeLists.txt"
    ∷ codes "Telegram/SourceFiles/core/application.h"
    ∷ codes "Telegram/SourceFiles/core/application.cpp"
    ∷ codes "Telegram/SourceFiles/main/main_account.h"
    ∷ codes "Telegram/SourceFiles/main/main_account.cpp"
    ∷ codes "Telegram/SourceFiles/main/main_domain.cpp"
    ∷ codes "Telegram/SourceFiles/window/window_peer_menu.cpp"
    ∷ codes "Telegram/SourceFiles/history/history_widget.cpp"
    ∷ codes "Telegram/SourceFiles/history/view/history_view_top_bar_widget.h"
    ∷ codes "Telegram/SourceFiles/history/view/history_view_top_bar_widget.cpp"
    ∷ codes "Telegram/SourceFiles/history/view/history_view_chat_section.cpp"
    ∷ codes "Telegram/SourceFiles/history/view/controls/history_view_compose_controls.h"
    ∷ codes "Telegram/SourceFiles/history/view/controls/history_view_compose_controls.cpp"
    ∷ []

unfoldable pub replace : Text → Text → Text → ℕ → Result Text
replace = exchange_at "Windows notes anchor count differs: " 90

abbrev pub unexpected : Error
unexpected = value_error "Unexpected Windows notes target"

-- `before, after = text.split('private:', 1)`, which fails where there is nothing to split at.
unfoldable pub split_private : Text → Result (Text × Text)
unfolding find
split_private text = do
  at ←
      from_option (value_error "not enough values to unpack (expected 2, got 1)")
        (find (codes "private:") text)
  ok (take at text, drop (at + length (codes "private:")) text)

unfoldable pub transform_account : Text → Result Text
unfolding replace split_private account_first account_private account_last
transform_account text = do
  edited ← apply replace account_first text
  (before, after) ← split_private edited
  behind ← apply replace account_private after
  apply replace account_last (before ++ (codes "private:" ++ behind))

unfoldable pub transform : Text → Text → Result Text
unfolding replace table row transform_account text_eq
transform name text = elim (text_eq name account_header) [
  | true ↦ transform_account text
  | false ↦ from_option unexpected (row name table) >>= λ edits. apply replace edits text
]
