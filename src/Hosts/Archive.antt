-- ===== src/Hosts/Archive.antt =====
-- ci/windows-archive/prepare_windows_archive.py: the message archive in the native Windows client.
pub mod Edits
use capybaragram_build.Prelude.{
  ℕ, ◌+◌, Bool, true, false, List, [], ◌∷◌, ◌++◌, Option, none, some, take, drop, length, Result,
  ok, err, Error, value_error, ◌>>=◌, from_option,
}
use capybaragram_build.Text.{Text, codes, text_eq, find}
use capybaragram_build.Checkout.{Checkout}
use capybaragram_build.Patch.{Edit, exchange_at, apply}
use capybaragram_build.Hosts
use capybaragram_build.Hosts.{row, Manifest, Messages}
use capybaragram_build.Hosts.Archive.Edits.{table, checked}

abbrev pub files : List Text
files =
    codes "Telegram/CMakeLists.txt"
    ∷ codes "Telegram/SourceFiles/core/application.h"
    ∷ codes "Telegram/SourceFiles/core/application.cpp"
    ∷ codes "Telegram/SourceFiles/main/main_account.h"
    ∷ codes "Telegram/SourceFiles/main/main_account.cpp"
    ∷ codes "Telegram/SourceFiles/main/main_domain.cpp"
    ∷ codes "Telegram/SourceFiles/main/main_session_settings.h"
    ∷ codes "Telegram/SourceFiles/main/main_session_settings.cpp"
    ∷ codes "Telegram/SourceFiles/window/window_peer_menu.cpp"
    ∷ codes "Telegram/SourceFiles/history/view/history_view_top_bar_widget.cpp"
    ∷ codes "Telegram/SourceFiles/data/data_session.cpp"
    ∷ codes "Telegram/SourceFiles/history/history_item.cpp"
    ∷ codes "Telegram/SourceFiles/media/view/media_view_overlay_widget.cpp"
    ∷ codes "Telegram/SourceFiles/chat_helpers/ttl_media_layer_widget.cpp"
    ∷ codes "Telegram/SourceFiles/ffmpeg/ffmpeg_utility.cpp"
    ∷ codes "Telegram/SourceFiles/media/streaming/media_streaming_file.cpp"
    ∷ codes "Telegram/SourceFiles/media/streaming/media_streaming_loader_local.cpp"
    ∷ []

unfoldable pub replace : Text → Text → Text → ℕ → Result Text
replace = exchange_at "Windows archive anchor differs: " 90

abbrev pub unexpected : Error
unexpected = value_error "Unexpected native archive host"

-- The replacements whose results are dropped: the text goes through as it is.
unfoldable pub check_all : List Edit → Text → Result Text
unfolding replace
check_all [] text = ok text
check_all (e ∷ es) text = replace text e.old e.new e.times >>= λ changed. check_all es text

unfoldable pub transform : Text → Text → Result Text
unfolding replace table checked row check_all
transform name text = elim (row name table) [
  | some edits ↦ apply replace edits text
  | none ↦ from_option unexpected (row name checked) >>= λ edits. check_all edits text
]

-- The paths of the payloads in the tree, and in ci/windows-archive.
abbrev pub added : List (Text × Text)
added =
    (codes "Telegram/SourceFiles/capybara/archive_store.h", codes "archive_store.h")
    ∷ (codes "Telegram/SourceFiles/capybara/archive_store.cpp", codes "archive_store.cpp")
    ∷ (codes "Telegram/SourceFiles/capybara/archive_worker.h", codes "archive_worker.h")
    ∷ (codes "Telegram/SourceFiles/capybara/archive_worker.cpp", codes "archive_worker.cpp")
    ∷ (codes "Telegram/SourceFiles/capybara/verified_input.h", codes "verified_input.h")
    ∷ (codes "Telegram/SourceFiles/capybara/verified_input.cpp", codes "verified_input.cpp")
    ∷ (codes "Telegram/SourceFiles/capybara/capy_archive_ui.h", codes "capy_archive_ui.h")
    ∷ (codes "Telegram/SourceFiles/capybara/capy_archive_ui.cpp", codes "capy_archive_ui.cpp")
    ∷ (codes "Telegram/SourceFiles/capybara/capy_archive_bridge.h", codes "capy_archive_bridge.h")
    ∷ (
      codes "Telegram/SourceFiles/capybara/capy_archive_bridge.cpp",
      codes "capy_archive_bridge.cpp",
    )
    ∷ (
      codes "Telegram/SourceFiles/capybara/capy_archive_settings.h",
      codes "capy_archive_settings.h",
    )
    ∷ (
      codes "Telegram/SourceFiles/capybara/capy_archive_settings_test.cpp",
      codes "capy_archive_settings_test.cpp",
    )
    ∷ (codes "Telegram/SourceFiles/capybara/capy_archive_player.h", codes "capy_archive_player.h")
    ∷ (
      codes "Telegram/SourceFiles/capybara/capy_archive_player.cpp",
      codes "capy_archive_player.cpp",
    )
    ∷ []

abbrev pub messages : Messages
messages = record {
  allowlist = "Windows archive allowlist differs";
  host_escapes = "Archive source path escapes checkout";
  host_input = "Native archive input changed: ";
  host_output = "Native archive transformation differs: ";
  payload_escapes = "Archive payload path escapes package";
  payload_input = "Native archive payload changed: ";
  target_escapes = "Installed archive path escapes checkout";
  installed = "Installed archive payload changed: ";
  overwrite = "Refusing to overwrite existing archive payload";
}

unfoldable pub plan :
    (Text → Text) → Manifest → Checkout → Checkout → Bool → Result (List (Text × Text))
unfolding transform Hosts.plan
plan sha256 hashes c payloads check =
    Hosts.plan sha256 messages transform hashes c payloads check files added

unfoldable pub run : (Text → Text) → Manifest → Checkout → Checkout → Bool → Result Checkout
unfolding transform Hosts.run
run sha256 hashes c payloads check =
    Hosts.run sha256 messages transform hashes c payloads check
      (value_error "Wrong Desktop source revision") files added
