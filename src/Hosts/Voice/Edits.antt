-- ===== src/Hosts/Voice/Edits.antt =====
-- ci/windows-voice/prepare_windows_voice.py: the replacements in each host file.
use capybaragram_build.Prelude.{List, [], ◌∷◌}
use capybaragram_build.Text.{Text, codes, block}
use capybaragram_build.Patch.{Edit, edit}

unfoldable pub cmakelists_txt_edits : List Edit
cmakelists_txt_edits =
    edit (block ("        ${src_loc}/capybara/capy_read_mode_ui.cpp" ∷ "" ∷ [])) (
      block (
        "        ${src_loc}/capybara/capy_voice_ui.cpp"
        ∷ "        ${src_loc}/capybara/capy_voice_ui.h"
        ∷ "        ${src_loc}/capybara/capy_read_mode_ui.cpp" ∷ "" ∷ []))
    ∷ edit (codes "    target_link_libraries(Telegram PRIVATE crypt32 bcrypt)") (
        block (
          "    set(CAPY_WHISPER_SOURCE \"$ENV{CAPY_WINDOWS_WHISPER_SOURCE}\")"
          ∷ "    set(CAPY_VOICE_EMBEDDED ON)"
          ∷ "    add_subdirectory(${src_loc}/capybara/offline_voice capy-offline-voice)"
          ∷ "    add_library(capy_windows_voice STATIC"
          ∷ "        ${src_loc}/capybara/voice_worker.cpp"
          ∷ "        ${src_loc}/capybara/voice_decoder.cpp)" ∷ "    init_target(capy_windows_voice)"
          ∷ "    target_include_directories(capy_windows_voice PUBLIC ${src_loc}/capybara)"
          ∷ "    target_link_libraries(capy_windows_voice PUBLIC capy_offline_voice"
          ∷ "        desktop-app::external_qt desktop-app::lib_ffmpeg)"
          ∷ "    set_source_files_properties(${src_loc}/capybara/voice_worker.cpp"
          ∷ "        ${src_loc}/capybara/voice_decoder.cpp PROPERTIES SKIP_PRECOMPILE_HEADERS ON)"
          ∷ "    target_link_libraries(Telegram PRIVATE crypt32 bcrypt capy_windows_voice)" ∷ []))
    ∷ []

unfoldable pub application_h_edits : List Edit
application_h_edits =
    edit (codes "namespace Capy::Vault {")
      (block ("namespace Capy::Voice { class Worker; }" ∷ "" ∷ "namespace Capy::Vault {" ∷ []))
    ∷ edit (codes "\t[[nodiscard]] Capy::Vault::Worker &capyVaultWorker();") (
        block (
          "\t[[nodiscard]] Capy::Voice::Worker &capyVoiceWorker();"
          ∷ "\t[[nodiscard]] Capy::Vault::Worker &capyVaultWorker();" ∷ []))
    ∷ edit (codes "\tstd::unique_ptr<Capy::Vault::Worker> _capyVaultWorker;") (
        block (
          "\tstd::unique_ptr<Capy::Voice::Worker> _capyVoiceWorker;"
          ∷ "\tstd::unique_ptr<Capy::Vault::Worker> _capyVaultWorker;" ∷ []))
    ∷ []

unfoldable pub application_cpp_edits : List Edit
application_cpp_edits =
    edit (codes "#include \"capybara/vault_worker.h\"")
      (block ("#include \"capybara/vault_worker.h\"" ∷ "#include \"capybara/voice_worker.h\"" ∷ []))
    ∷ edit (block ("Application::~Application() {" ∷ "" ∷ [])) (
        block (
          "Application::~Application() {"
          ∷ "\t_capyVoiceWorker.reset(); // cancel/join before Qt/window teardown" ∷ "" ∷ []))
    ∷ edit (codes "Capy::Vault::Worker &Application::capyVaultWorker() {") (
        block (
          "Capy::Voice::Worker &Application::capyVoiceWorker() {" ∷ "    if (!_capyVoiceWorker) {"
          ∷ "        _capyVoiceWorker = std::make_unique<Capy::Voice::Worker>("
          ∷ "            (cWorkingDir() + u\"tdata/capybara-speech\"_q).toUtf8().toStdString(),"
          ∷ "            [](std::function<void()> callback) { crl::on_main(std::move(callback)); });"
          ∷ "    }" ∷ "    return *_capyVoiceWorker;" ∷ "}" ∷ ""
          ∷ "Capy::Vault::Worker &Application::capyVaultWorker() {" ∷ []))
    ∷ []

unfoldable pub history_view_context_menu_cpp_edits : List Edit
history_view_context_menu_cpp_edits =
    edit (codes "#include \"history/view/history_view_context_menu.h\"") (
      block (
        "#include \"history/view/history_view_context_menu.h\""
        ∷ "#include \"capybara/capy_voice_ui.h\"" ∷ []))
    ∷ edit (codes "\tAddSaveDocumentAction(menu, item, document, list);") (
        block (
          "\tCapy::AddVoiceAction(menu, document, item, controller);"
          ∷ "\tAddSaveDocumentAction(menu, item, document, list);" ∷ []))
    ∷ []

-- The edits of each file.
unfoldable pub table : List (Text × List Edit)
unfolding cmakelists_txt_edits application_h_edits application_cpp_edits
    history_view_context_menu_cpp_edits
table =
    (codes "Telegram/CMakeLists.txt", cmakelists_txt_edits)
    ∷ (codes "Telegram/SourceFiles/core/application.h", application_h_edits)
    ∷ (codes "Telegram/SourceFiles/core/application.cpp", application_cpp_edits)
    ∷ (
      codes "Telegram/SourceFiles/history/view/history_view_context_menu.cpp",
      history_view_context_menu_cpp_edits,
    )
    ∷ []
