-- ===== src/Hosts/ReadMode.antt =====
-- ci/windows-read-mode/prepare_windows_read_mode.py: the per-account read gate in the native Windows client.
pub mod Edits
use capybaragram_build.Prelude.{
  ℕ, ◌+◌, Bool, true, false, List, [], ◌∷◌, ◌++◌, Option, none, some, take, drop, length, Result,
  ok, err, Error, value_error, ◌>>=◌, from_option,
}
use capybaragram_build.Text.{Text, codes, text_eq, find}
use capybaragram_build.Checkout.{Checkout}
use capybaragram_build.Patch.{Edit, exchange_at, apply}
use capybaragram_build.Hosts
use capybaragram_build.Hosts.{row, Manifest, Messages}
use capybaragram_build.Hosts.ReadMode.Edits.{table}

abbrev pub files : List Text
files =
    codes "Telegram/CMakeLists.txt"
    ∷ codes "Telegram/SourceFiles/mtproto/mtp_instance.h"
    ∷ codes "Telegram/SourceFiles/mtproto/mtp_instance.cpp"
    ∷ codes "Telegram/SourceFiles/main/main_session_settings.h"
    ∷ codes "Telegram/SourceFiles/main/main_session_settings.cpp"
    ∷ codes "Telegram/SourceFiles/main/main_session.cpp"
    ∷ codes "Telegram/SourceFiles/main/main_account.cpp"
    ∷ codes "Telegram/SourceFiles/window/window_peer_menu.cpp"
    ∷ codes "Telegram/SourceFiles/history/view/history_view_top_bar_widget.cpp"
    ∷ codes "Telegram/SourceFiles/data/data_histories.cpp"
    ∷ codes "Telegram/SourceFiles/data/data_replies_list.cpp"
    ∷ codes "Telegram/SourceFiles/data/data_saved_sublist.cpp"
    ∷ []

unfoldable pub replace : Text → Text → Text → ℕ → Result Text
replace = exchange_at "Windows read-mode anchor differs: " 90

abbrev pub unexpected : Error
unexpected = value_error "Unexpected Windows read-mode target"

unfoldable pub transform : Text → Text → Result Text
unfolding replace table row
transform name text = from_option unexpected (row name table) >>= λ edits. apply replace edits text
