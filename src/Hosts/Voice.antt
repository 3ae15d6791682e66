-- ===== src/Hosts/Voice.antt =====
-- ci/windows-voice/prepare_windows_voice.py: offline transcription in the native Windows client.
pub mod Edits
use capybaragram_build.Prelude.{
  ℕ, ◌+◌, Bool, true, false, List, [], ◌∷◌, ◌++◌, Option, none, some, take, drop, length, Result,
  ok, err, Error, value_error, ◌>>=◌, from_option,
}
use capybaragram_build.Text.{Text, codes, text_eq, find}
use capybaragram_build.Checkout.{Checkout}
use capybaragram_build.Patch.{Edit, exchange_at, apply}
use capybaragram_build.Hosts
use capybaragram_build.Hosts.{row, Manifest, Messages}
use capybaragram_build.Hosts.Voice.Edits.{table}

abbrev pub files : List Text
files =
    codes "Telegram/CMakeLists.txt"
    ∷ codes "Telegram/SourceFiles/core/application.h"
    ∷ codes "Telegram/SourceFiles/core/application.cpp"
    ∷ codes "Telegram/SourceFiles/history/view/history_view_context_menu.cpp"
    ∷ []

unfoldable pub replace : Text → Text → Text → ℕ → Result Text
replace = exchange_at "Windows voice anchor differs: " 80

abbrev pub unexpected : Error
unexpected = value_error "Unexpected native host"

unfoldable pub transform : Text → Text → Result Text
unfolding replace table row
transform name text = from_option unexpected (row name table) >>= λ edits. apply replace edits text
