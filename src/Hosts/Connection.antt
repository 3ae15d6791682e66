-- ===== src/Hosts/Connection.antt =====
-- ci/windows-connection-native/prepare_windows_connection.py: the memory-only connection in the native Windows client.
pub mod Edits
use capybaragram_build.Prelude.{
  ℕ, ◌+◌, Bool, true, false, List, [], ◌∷◌, ◌++◌, Option, none, some, take, drop, length, Result,
  ok, err, Error, value_error, ◌>>=◌, from_option,
}
use capybaragram_build.Text.{Text, codes, text_eq, find}
use capybaragram_build.Checkout.{Checkout}
use capybaragram_build.Patch.{Edit, exchange_at, apply}
use capybaragram_build.Hosts
use capybaragram_build.Hosts.{row, Manifest, Messages}
use capybaragram_build.Hosts.Connection.Edits.{table}

abbrev pub files : List Text
files =
    codes "Telegram/CMakeLists.txt"
    ∷ codes "Telegram/SourceFiles/core/application.h"
    ∷ codes "Telegram/SourceFiles/core/application.cpp"
    ∷ codes "Telegram/SourceFiles/mtproto/session.cpp"
    ∷ codes "Telegram/SourceFiles/core/proxy_rotation_manager.cpp"
    ∷ codes "Telegram/SourceFiles/window/window_peer_menu.cpp"
    ∷ codes "Telegram/SourceFiles/intro/intro_widget.h"
    ∷ codes "Telegram/SourceFiles/intro/intro_widget.cpp"
    ∷ []

unfoldable pub replace : Text → Text → Text → ℕ → Result Text
replace = exchange_at "Connection anchor differs: " 90

abbrev pub unexpected : Error
unexpected = value_error "Unexpected connection host"

unfoldable pub transform : Text → Text → Result Text
unfolding replace table row
transform name text = from_option unexpected (row name table) >>= λ edits. apply replace edits text

-- The paths of the payloads in the tree, and in ci.
abbrev pub added : List (Text × Text)
added =
    (
      codes "Telegram/SourceFiles/capybara/capy_connection_service.h",
      codes "windows-connection-native/capy_connection_service.h",
    )
    ∷ (
      codes "Telegram/SourceFiles/capybara/capy_connection_service.cpp",
      codes "windows-connection-native/capy_connection_service.cpp",
    )
    ∷ (
      codes "Telegram/SourceFiles/capybara/capy_connection_ui.h",
      codes "windows-connection-native/capy_connection_ui.h",
    )
    ∷ (
      codes "Telegram/SourceFiles/capybara/capy_connection_ui.cpp",
      codes "windows-connection-native/capy_connection_ui.cpp",
    )
    ∷ (
      codes "Telegram/SourceFiles/capybara/connection_worker.h",
      codes "windows-connection/connection_worker.h",
    )
    ∷ (
      codes "Telegram/SourceFiles/capybara/connection_worker.cpp",
      codes "windows-connection/connection_worker.cpp",
    )
    ∷ (codes "Telegram/SourceFiles/capybara/native_api.h", codes "connection/native_api.h")
    ∷ []

abbrev pub messages : Messages
messages = record {
  allowlist = "Native connection inventory differs";
  host_escapes = "Native connection host escapes checkout";
  host_input = "Native connection input changed: ";
  host_output = "Native connection output changed: ";
  payload_escapes = "Native connection payload escapes CI package";
  payload_input = "Native connection payload changed: ";
  target_escapes = "Native connection destination escapes checkout";
  installed = "Installed native connection payload changed: ";
  overwrite = "Native connection payload already exists";
}

unfoldable pub plan :
    (Text → Text) → Manifest → Checkout → Checkout → Bool → Result (List (Text × Text))
unfolding transform Hosts.plan
plan sha256 hashes c payloads check =
    Hosts.plan sha256 messages transform hashes c payloads check files added

unfoldable pub run : (Text → Text) → Manifest → Checkout → Checkout → Bool → Result Checkout
unfolding transform Hosts.run
run sha256 hashes c payloads check =
    Hosts.run sha256 messages transform hashes c payloads check
      (value_error "Wrong native Telegram revision") files added
