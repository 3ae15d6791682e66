-- ===== src/Hosts/Archive/Edits.antt =====
-- ci/windows-archive/prepare_windows_archive.py: the replacements in each host file.
use capybaragram_build.Prelude.{List, [], ◌∷◌}
use capybaragram_build.Text.{Text, codes, block}
use capybaragram_build.Patch.{Edit, edit, edit_times}

unfoldable pub cmakelists_txt_edits : List Edit
cmakelists_txt_edits =
    edit (block ("        ${src_loc}/capybara/capy_voice_ui.cpp" ∷ "" ∷ [])) (
      block (
        "        ${src_loc}/capybara/archive_store.cpp"
        ∷ "        ${src_loc}/capybara/archive_store.h"
        ∷ "        ${src_loc}/capybara/archive_worker.cpp"
        ∷ "        ${src_loc}/capybara/archive_worker.h"
        ∷ "        ${src_loc}/capybara/verified_input.cpp"
        ∷ "        ${src_loc}/capybara/verified_input.h"
        ∷ "        ${src_loc}/capybara/capy_archive_ui.cpp"
        ∷ "        ${src_loc}/capybara/capy_archive_ui.h"
        ∷ "        ${src_loc}/capybara/capy_archive_bridge.cpp"
        ∷ "        ${src_loc}/capybara/capy_archive_bridge.h"
        ∷ "        ${src_loc}/capybara/capy_archive_settings.h"
        ∷ "        ${src_loc}/capybara/capy_archive_player.cpp"
        ∷ "        ${src_loc}/capybara/capy_archive_player.h"
        ∷ "        ${src_loc}/capybara/capy_voice_ui.cpp" ∷ "" ∷ []))
    ∷ edit
        (block (
          "        ${src_loc}/capybara/vault_store.cpp"
          ∷ "        ${src_loc}/capybara/vault_registry.cpp" ∷ []))
        (block (
          "        ${src_loc}/capybara/archive_store.cpp"
          ∷ "        ${src_loc}/capybara/archive_worker.cpp"
          ∷ "        ${src_loc}/capybara/verified_input.cpp"
          ∷ "        ${src_loc}/capybara/vault_store.cpp"
          ∷ "        ${src_loc}/capybara/vault_registry.cpp" ∷ []))
    ∷ edit (codes "    add_executable(capy-auth-test EXCLUDE_FROM_ALL") (
        block (
          "    add_executable(capy-archive-settings-test EXCLUDE_FROM_ALL"
          ∷ "        ${src_loc}/capybara/capy_archive_settings_test.cpp)"
          ∷ "    init_target(capy-archive-settings-test)"
          ∷ "    target_link_libraries(capy-archive-settings-test PRIVATE desktop-app::external_qt)"
          ∷ "    set_source_files_properties(${src_loc}/capybara/capy_archive_settings_test.cpp"
          ∷ "        PROPERTIES SKIP_PRECOMPILE_HEADERS ON)"
          ∷ "    set_target_properties(capy-archive-settings-test PROPERTIES"
          ∷ "        RUNTIME_OUTPUT_DIRECTORY \"${CMAKE_BINARY_DIR}/capy-tests\")"
          ∷ "    add_executable(capy-auth-test EXCLUDE_FROM_ALL" ∷ []))
    ∷ []

unfoldable pub application_h_edits : List Edit
application_h_edits =
    edit (codes "namespace Capy::Voice { class Worker; }") (
      block (
        "namespace Capy::Archive { class Worker; }" ∷ "namespace Capy::Voice { class Worker; }"
        ∷ []))
    ∷ edit (codes "\t[[nodiscard]] Capy::Voice::Worker &capyVoiceWorker();") (
        block (
          "\t[[nodiscard]] Capy::Archive::Worker &capyArchiveWorker();"
          ∷ "\t[[nodiscard]] Capy::Voice::Worker &capyVoiceWorker();" ∷ []))
    ∷ edit (codes "\tstd::unique_ptr<Capy::Voice::Worker> _capyVoiceWorker;") (
        block (
          "\tstd::unique_ptr<Capy::Archive::Worker> _capyArchiveWorker;"
          ∷ "\tstd::unique_ptr<Capy::Voice::Worker> _capyVoiceWorker;" ∷ []))
    ∷ []

unfoldable pub application_cpp_edits : List Edit
application_cpp_edits =
    edit (codes "#include \"capybara/vault_worker.h\"") (
      block
        ("#include \"capybara/vault_worker.h\"" ∷ "#include \"capybara/archive_worker.h\"" ∷ []))
    ∷ edit_times (codes "\tif (_capyVaultWorker) _capyVaultWorker->setLocked(true);")
        (block (
          "\tif (_capyArchiveWorker) _capyArchiveWorker->setLocked(true);"
          ∷ "\tif (_capyVaultWorker) _capyVaultWorker->setLocked(true);" ∷ []))
        2
    ∷ edit (codes "\tif (_capyVaultWorker) _capyVaultWorker->setLocked(false);") (
        block (
          "\tif (_capyArchiveWorker) _capyArchiveWorker->setLocked(false);"
          ∷ "\tif (_capyVaultWorker) _capyVaultWorker->setLocked(false);" ∷ []))
    ∷ edit (codes "Capy::Vault::Worker &Application::capyVaultWorker() {") (
        block (
          "Capy::Archive::Worker &Application::capyArchiveWorker() {"
          ∷ "\tif (!_capyArchiveWorker) {"
          ∷ "\t\t_capyArchiveWorker = std::make_unique<Capy::Archive::Worker>("
          ∷ "\t\t\tstd::filesystem::path((cWorkingDir() + u\"tdata/capybara-archive\"_q).toStdWString()),"
          ∷ "\t\t\tMain::Domain::kMaxAccounts,"
          ∷ "\t\t\t[](std::function<void()> callback) { crl::on_main(std::move(callback)); });"
          ∷ "\t\t_capyArchiveWorker->setLocked(passcodeLocked());" ∷ "\t}"
          ∷ "\treturn *_capyArchiveWorker;" ∷ "}" ∷ ""
          ∷ "Capy::Vault::Worker &Application::capyVaultWorker() {" ∷ []))
    ∷ []

unfoldable pub main_account_h_edits : List Edit
main_account_h_edits =
    edit (codes "#include \"capybara/vault_worker.h\"") (
      block
        ("#include \"capybara/vault_worker.h\"" ∷ "#include \"capybara/archive_worker.h\"" ∷ []))
    ∷ edit (codes "\t[[nodiscard]] const Capy::Vault::Worker::Handle &capyVaultHandle() const {") (
        block (
          "\t[[nodiscard]] const Capy::Archive::Worker::Handle &capyArchiveHandle() const {"
          ∷ "\t\treturn _capyArchiveHandle;" ∷ "\t}"
          ∷ "\t[[nodiscard]] const Capy::Vault::Worker::Handle &capyVaultHandle() const {" ∷ []))
    ∷ edit (codes "\tCapy::Vault::Worker::Handle _capyVaultHandle;") (
        block (
          "\tCapy::Vault::Worker::Handle _capyVaultHandle;"
          ∷ "\tCapy::Archive::Worker::Handle _capyArchiveHandle;" ∷ []))
    ∷ []

unfoldable pub main_account_cpp_edits : List Edit
main_account_cpp_edits =
    edit (codes "\t_sessionValue = _session.get();") (
      block (
        "\t_capyArchiveHandle = Core::App().capyArchiveWorker().attach("
        ∷ "\t\t_capyAccountIndex, _session->uniqueId(), freshLogin, _capyAuthorization);"
        ∷ "\tCore::App().capyArchiveWorker().setEnabled("
        ∷ "\t\t_capyArchiveHandle, _session->settings().capyArchiveEnabled());"
        ∷ "\t_sessionValue = _session.get();" ∷ []))
    ∷ edit (block ("void Account::destroySession(DestroyReason reason) {" ∷ "" ∷ [])) (
        block (
          "void Account::destroySession(DestroyReason reason) {" ∷ "\tif (_capyArchiveHandle) {"
          ∷ "\t\tCore::App().capyArchiveWorker().detach("
          ∷ "\t\t\t_capyArchiveHandle, reason == DestroyReason::LoggedOut);"
          ∷ "\t\t_capyArchiveHandle.reset();" ∷ "\t}" ∷ "" ∷ []))
    ∷ []

unfoldable pub main_domain_cpp_edits : List Edit
main_domain_cpp_edits =
    edit (block ("void Domain::resetWithForgottenPasscode() {" ∷ "" ∷ [])) (
      block (
        "void Domain::resetWithForgottenPasscode() {"
        ∷ "\tCore::App().capyArchiveWorker().forgetAll();" ∷ "" ∷ []))
    ∷ []

unfoldable pub main_session_settings_h_edits : List Edit
main_session_settings_h_edits =
    edit (codes "\tvoid setCapySilentRead(bool value)") (
      block (
        "\tvoid setCapyArchiveEnabled(bool value) { _capyArchiveEnabled = value; }"
        ∷ "\t[[nodiscard]] bool capyArchiveEnabled() const { return _capyArchiveEnabled; }"
        ∷ "\tvoid setCapySilentRead(bool value)" ∷ []))
    ∷ edit (codes "\tbool _capySilentRead = false;")
        (block ("\tbool _capySilentRead = false;" ∷ "\tbool _capyArchiveEnabled = false;" ∷ []))
    ∷ []

unfoldable pub main_session_settings_cpp_edits : List Edit
main_session_settings_cpp_edits =
    edit (codes "#include \"main/main_session_settings.h\"") (
      block (
        "#include \"main/main_session_settings.h\""
        ∷ "#include \"capybara/capy_archive_settings.h\"" ∷ []))
    ∷ edit (codes "\tsize += 3 * sizeof(qint32); // Capy extension tag, version, silent-read") (
        block (
          "\tsize += Capy::ArchiveSettings::SerializedSize;"
          ∷ "\tsize += 3 * sizeof(qint32); // Capy extension tag, version, silent-read" ∷ []))
    ∷ edit
        (codes "\t\tstream << qint32(0x43524731) << qint32(1) << qint32(_capySilentRead ? 1 : 0);")
        (block (
          "\t\tstream << qint32(0x43524731) << qint32(1) << qint32(_capySilentRead ? 1 : 0);"
          ∷ "\t\tCapy::ArchiveSettings::Write(stream, _capyArchiveEnabled);" ∷ []))
    ∷ edit (codes "\tbool capySilentRead = false;")
        (block ("\tbool capySilentRead = false;" ∷ "\tbool capyArchiveEnabled = false;" ∷ []))
    ∷ edit
        (block
          ("\t\t\t&& capyTag == 0x43524731 && capyVersion == 1 && capyValue == 1);" ∷ "\t}" ∷ []))
        (block (
          "\t\t\t&& capyTag == 0x43524731 && capyVersion == 1 && capyValue == 1);"
          ∷ "\t\tif (stream.status() == QDataStream::Ok && capyTag == 0x43524731"
          ∷ "\t\t\t&& capyVersion == 1 && (capyValue == 0 || capyValue == 1)) {"
          ∷ "\t\t\tcapyArchiveEnabled = Capy::ArchiveSettings::Read(stream);" ∷ "\t\t}" ∷ "\t}"
          ∷ []))
    ∷ edit (codes "\t_capySilentRead = capySilentRead;") (
        block (
          "\t_capySilentRead = capySilentRead;" ∷ "\t_capyArchiveEnabled = capyArchiveEnabled;"
          ∷ []))
    ∷ []

unfoldable pub window_peer_menu_cpp_edits : List Edit
window_peer_menu_cpp_edits =
    edit (codes "#include \"capybara/capy_read_mode_ui.h\"") (
      block (
        "#include \"capybara/capy_read_mode_ui.h\"" ∷ "#include \"capybara/capy_archive_ui.h\""
        ∷ []))
    ∷ edit (codes "\tCapy::AddReadModeAction(controller, request, callback);") (
        block (
          "\tCapy::AddReadModeAction(controller, request, callback);"
          ∷ "\tCapy::AddArchiveAction(controller, request, callback);" ∷ []))
    ∷ []

unfoldable pub history_view_top_bar_widget_cpp_edits : List Edit
history_view_top_bar_widget_cpp_edits =
    edit (codes "#include \"capybara/capy_read_mode_ui.h\"") (
      block (
        "#include \"capybara/capy_read_mode_ui.h\"" ∷ "#include \"capybara/capy_archive_ui.h\""
        ∷ []))
    ∷ edit (codes "\tCapy::AddReadModeAction(_controller, _activeChat, addAction);") (
        block (
          "\tCapy::AddReadModeAction(_controller, _activeChat, addAction);"
          ∷ "\tCapy::AddArchiveAction(_controller, _activeChat, addAction);" ∷ []))
    ∷ edit (codes "u\"CapybaraGram · Notes / Templates / Silent reading\"_q")
        (codes "u\"CapybaraGram · Notes / Templates / Silent reading / Archive\"_q")
    ∷ edit (codes "u\"CapybaraGram · Заметки / Шаблоны / Нечиталка\"_q")
        (codes "u\"CapybaraGram · Заметки / Шаблоны / Нечиталка / Архив\"_q")
    ∷ []

unfoldable pub data_session_cpp_edits : List Edit
data_session_cpp_edits =
    edit (codes "#include \"data/data_session.h\"") (
      block
        ("#include \"data/data_session.h\"" ∷ "#include \"capybara/capy_archive_bridge.h\"" ∷ []))
    ∷ edit (codes "\tif (existing->isLocalUpdateMedia() && data.type() == mtpc_message) {") (
        block (
          "\tCapy::CaptureArchive(existing, Capy::Archive::Reason::Edited);"
          ∷ "\tif (existing->isLocalUpdateMedia() && data.type() == mtpc_message) {" ∷ []))
    ∷ edit_times
        (block
          ("\tif (!toDestroy.empty()) {" ∷ "\t\tnotifyItemsAboutToBeDestroyed(toDestroy);" ∷ []))
        (block (
          "\tif (!toDestroy.empty()) {" ∷ "\t\tfor (const auto &item : toDestroy) {"
          ∷ "\t\t\tCapy::CaptureArchive(item, Capy::Archive::Reason::Deleted);" ∷ "\t\t}"
          ∷ "\t\tnotifyItemsAboutToBeDestroyed(toDestroy);" ∷ []))
        2
    ∷ edit
        (block ("\tif (!expired.empty()) {" ∷ "\t\tnotifyItemsAboutToBeDestroyed(expired);" ∷ []))
        (block (
          "\tif (!expired.empty()) {" ∷ "\t\tfor (const auto &item : expired) {"
          ∷ "\t\t\tCapy::CaptureArchive(item, Capy::Archive::Reason::Expired);" ∷ "\t\t}"
          ∷ "\t\tnotifyItemsAboutToBeDestroyed(expired);" ∷ []))
    ∷ []

unfoldable pub history_item_cpp_edits : List Edit
history_item_cpp_edits =
    edit (codes "#include \"history/history_item.h\"") (
      block (
        "#include \"history/history_item.h\"" ∷ "#include \"capybara/capy_archive_bridge.h\"" ∷ []))
    ∷ edit
        (block (
          "\tif (!media || !media->ttlSeconds()) {" ∷ "\t\treturn;" ∷ "\t}"
          ∷ "\tunarmMediaDestroy();" ∷ []))
        (block (
          "\tif (!media || !media->ttlSeconds()) {" ∷ "\t\treturn;" ∷ "\t}"
          ∷ "\tCapy::CaptureArchive(this, Capy::Archive::Reason::Expired);"
          ∷ "\tunarmMediaDestroy();" ∷ []))
    ∷ []

unfoldable pub media_view_overlay_widget_cpp_edits : List Edit
media_view_overlay_widget_cpp_edits =
    edit (codes "#include \"media/view/media_view_overlay_widget.h\"") (
      block (
        "#include \"media/view/media_view_overlay_widget.h\""
        ∷ "#include \"capybara/capy_archive_bridge.h\"" ∷ []))
    ∷ edit
        (block (
          "\t} else if (item->isIncomingUnreadMedia()) {"
          ∷ "\t\titem->history()->session().api().markContentsRead(item);" ∷ []))
        (block (
          "\t} else if (item->isIncomingUnreadMedia()) {"
          ∷ "\t\tCapy::CaptureArchive(item, Capy::Archive::Reason::Expired);"
          ∷ "\t\titem->history()->session().api().markContentsRead(item);" ∷ []))
    ∷ []

unfoldable pub ttl_media_layer_widget_cpp_edits : List Edit
ttl_media_layer_widget_cpp_edits =
    edit (codes "#include \"chat_helpers/ttl_media_layer_widget.h\"") (
      block (
        "#include \"chat_helpers/ttl_media_layer_widget.h\""
        ∷ "#include \"capybara/capy_archive_bridge.h\"" ∷ []))
    ∷ edit
        (block (
          "\t\tnot_null<HistoryItem*> item) {" ∷ "\tconst auto parent = controller->content();"
          ∷ []))
        (block (
          "\t\tnot_null<HistoryItem*> item) {"
          ∷ "\tCapy::CaptureArchive(item, Capy::Archive::Reason::Expired);"
          ∷ "\tconst auto parent = controller->content();" ∷ []))
    ∷ []

unfoldable pub ffmpeg_utility_cpp_checks : List Edit
ffmpeg_utility_cpp_checks =
    edit (codes "\tav_opt_set(format, \"protocol_whitelist\", \"\", 0);")
      (codes "\tav_opt_set(format, \"protocol_whitelist\", \"\", 0);")
    ∷ edit (codes "\tRestrictToCustomIO(result);") (codes "\tRestrictToCustomIO(result);")
    ∷ []

unfoldable pub media_streaming_file_cpp_checks : List Edit
media_streaming_file_cpp_checks =
    edit (codes "\tauto format = FFmpeg::MakeFormatPointer(")
      (codes "\tauto format = FFmpeg::MakeFormatPointer(")
    ∷ []

unfoldable pub media_streaming_loader_local_cpp_checks : List Edit
media_streaming_loader_local_cpp_checks =
    edit (codes "\tauto device = std::make_unique<QBuffer>();")
      (codes "\tauto device = std::make_unique<QBuffer>();")
    ∷ []

-- The files that are only checked for an anchor.
unfoldable pub checked : List (Text × List Edit)
unfolding ffmpeg_utility_cpp_checks media_streaming_file_cpp_checks
    media_streaming_loader_local_cpp_checks
checked =
    (codes "Telegram/SourceFiles/ffmpeg/ffmpeg_utility.cpp", ffmpeg_utility_cpp_checks)
    ∷ (
      codes "Telegram/SourceFiles/media/streaming/media_streaming_file.cpp",
      media_streaming_file_cpp_checks,
    )
    ∷ (
      codes "Telegram/SourceFiles/media/streaming/media_streaming_loader_local.cpp",
      media_streaming_loader_local_cpp_checks,
    )
    ∷ []

-- The edits of each file.
unfoldable pub table : List (Text × List Edit)
unfolding cmakelists_txt_edits application_h_edits application_cpp_edits main_account_h_edits
    main_account_cpp_edits main_domain_cpp_edits main_session_settings_h_edits
    main_session_settings_cpp_edits window_peer_menu_cpp_edits history_view_top_bar_widget_cpp_edits
    data_session_cpp_edits history_item_cpp_edits media_view_overlay_widget_cpp_edits
    ttl_media_layer_widget_cpp_edits
table =
    (codes "Telegram/CMakeLists.txt", cmakelists_txt_edits)
    ∷ (codes "Telegram/SourceFiles/core/application.h", application_h_edits)
    ∷ (codes "Telegram/SourceFiles/core/application.cpp", application_cpp_edits)
    ∷ (codes "Telegram/SourceFiles/main/main_account.h", main_account_h_edits)
    ∷ (codes "Telegram/SourceFiles/main/main_account.cpp", main_account_cpp_edits)
    ∷ (codes "Telegram/SourceFiles/main/main_domain.cpp", main_domain_cpp_edits)
    ∷ (codes "Telegram/SourceFiles/main/main_session_settings.h", main_session_settings_h_edits)
    ∷ (codes "Telegram/SourceFiles/main/main_session_settings.cpp", main_session_settings_cpp_edits)
    ∷ (codes "Telegram/SourceFiles/window/window_peer_menu.cpp", window_peer_menu_cpp_edits)
    ∷ (
      codes "Telegram/SourceFiles/history/view/history_view_top_bar_widget.cpp",
      history_view_top_bar_widget_cpp_edits,
    )
    ∷ (codes "Telegram/SourceFiles/data/data_session.cpp", data_session_cpp_edits)
    ∷ (codes "Telegram/SourceFiles/history/history_item.cpp", history_item_cpp_edits)
    ∷ (
      codes "Telegram/SourceFiles/media/view/media_view_overlay_widget.cpp",
      media_view_overlay_widget_cpp_edits,
    )
    ∷ (
      codes "Telegram/SourceFiles/chat_helpers/ttl_media_layer_widget.cpp",
      ttl_media_layer_widget_cpp_edits,
    )
    ∷ []
