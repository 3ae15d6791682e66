-- ===== src/Hosts/Notes/Edits.antt =====
-- ci/windows-notes/windows_notes_patch.py: the replacements in each host file.
use capybaragram_build.Prelude.{List, [], ◌∷◌}
use capybaragram_build.Text.{Text, codes, block}
use capybaragram_build.Patch.{Edit, edit}

unfoldable pub cmakelists_txt_edits : List Edit
cmakelists_txt_edits =
    edit (block ("get_filename_component(res_loc Resources REALPATH)" ∷ "" ∷ [])) (
      block (
        "get_filename_component(res_loc Resources REALPATH)" ∷ "" ∷ "if (WIN32)"
        ∷ "    target_sources(Telegram PRIVATE" ∷ "        ${src_loc}/capybara/vault_store.cpp"
        ∷ "        ${src_loc}/capybara/vault_store.h"
        ∷ "        ${src_loc}/capybara/vault_registry.cpp"
        ∷ "        ${src_loc}/capybara/vault_registry.h"
        ∷ "        ${src_loc}/capybara/vault_worker.cpp"
        ∷ "        ${src_loc}/capybara/vault_worker.h"
        ∷ "        ${src_loc}/capybara/capy_notes_ui.cpp"
        ∷ "        ${src_loc}/capybara/capy_notes_ui.h"
        ∷ "        ${src_loc}/capybara/capy_authorization.h" ∷ "    )"
        ∷ "    # Plain Win32 storage units do not consume Telegram's Qt precompiled header."
        ∷ "    # They inherit the same /EHsc and static MSVC runtime as the Telegram target."
        ∷ "    set_source_files_properties(" ∷ "        ${src_loc}/capybara/vault_store.cpp"
        ∷ "        ${src_loc}/capybara/vault_registry.cpp"
        ∷ "        ${src_loc}/capybara/vault_worker.cpp"
        ∷ "        PROPERTIES SKIP_PRECOMPILE_HEADERS ON" ∷ "    )"
        ∷ "    target_link_libraries(Telegram PRIVATE crypt32 bcrypt)"
        ∷ "    add_executable(capy-auth-test EXCLUDE_FROM_ALL"
        ∷ "        ${src_loc}/capybara/capy_authorization_test.cpp)"
        ∷ "    init_target(capy-auth-test)"
        ∷ "    target_link_libraries(capy-auth-test PRIVATE desktop-app::external_qt)"
        ∷ "    set_target_properties(capy-auth-test PROPERTIES"
        ∷ "        RUNTIME_OUTPUT_DIRECTORY \"${CMAKE_BINARY_DIR}/capy-tests\")" ∷ "endif()" ∷ ""
        ∷ []))
    ∷ []

unfoldable pub application_h_edits : List Edit
application_h_edits =
    edit (block ("namespace Core {" ∷ "" ∷ [])) (
      block (
        "namespace Capy::Vault {" ∷ "class Worker;" ∷ "} // namespace Capy::Vault" ∷ ""
        ∷ "namespace Core {" ∷ "" ∷ []))
    ∷ edit (codes "\tvoid lockByPasscode();") (
        block (
          "\t[[nodiscard]] Capy::Vault::Worker &capyVaultWorker();" ∷ "\tvoid lockByPasscode();"
          ∷ []))
    ∷ edit (codes "\tconst std::unique_ptr<Main::Domain> _domain;") (
        block (
          "\t// Domain accounts must be destroyed while this worker is still alive."
          ∷ "\tstd::unique_ptr<Capy::Vault::Worker> _capyVaultWorker;"
          ∷ "\tconst std::unique_ptr<Main::Domain> _domain;" ∷ []))
    ∷ []

unfoldable pub application_cpp_edits : List Edit
application_cpp_edits =
    edit (codes "#include \"core/application.h\"")
      (block ("#include \"core/application.h\"" ∷ "#include \"capybara/vault_worker.h\"" ∷ []))
    ∷ edit (block ("Application::~Application() {" ∷ "" ∷ [])) (
        block (
          "Application::~Application() {"
          ∷ "\tif (_capyVaultWorker) _capyVaultWorker->setLocked(true);" ∷ "" ∷ []))
    ∷ edit (block ("void Application::lockByPasscode() {" ∷ "" ∷ [])) (
        block (
          "Capy::Vault::Worker &Application::capyVaultWorker() {" ∷ "\tif (!_capyVaultWorker) {"
          ∷ "\t\t_capyVaultWorker = std::make_unique<Capy::Vault::Worker>("
          ∷ "\t\t\tstd::filesystem::path((cWorkingDir() + u\"tdata/capybara-vault\"_q).toStdWString()),"
          ∷ "\t\t\tMain::Domain::kMaxAccounts," ∷ "\t\t\t[](std::function<void()> callback) {"
          ∷ "\t\t\t\tcrl::on_main(std::move(callback));" ∷ "\t\t\t});"
          ∷ "\t\t_capyVaultWorker->setLocked(passcodeLocked());" ∷ "\t}"
          ∷ "\treturn *_capyVaultWorker;" ∷ "}" ∷ "" ∷ "void Application::lockByPasscode() {"
          ∷ "\tif (_capyVaultWorker) _capyVaultWorker->setLocked(true);" ∷ "" ∷ []))
    ∷ edit (block ("\t_passcodeLock = false;" ∷ "" ∷ [])) (
        block (
          "\tif (_capyVaultWorker) _capyVaultWorker->setLocked(false);" ∷ "\t_passcodeLock = false;"
          ∷ "" ∷ []))
    ∷ []

unfoldable pub main_account_cpp_edits : List Edit
main_account_cpp_edits =
    edit (codes "#include \"main/main_account.h\"") (
      block (
        "#include \"main/main_account.h\"" ∷ "#include \"capybara/capy_authorization.h\""
        ∷ "#include <stdexcept>" ∷ []))
    ∷ edit (block (": _domain(domain)" ∷ "" ∷ []))
        (block (": _capyAccountIndex(index)" ∷ ", _domain(domain)" ∷ "" ∷ []))
    ∷ edit (codes "\t\tsettings ? std::move(settings) : std::make_unique<SessionSettings>());") (
        block (
          "\t\tsettings ? std::move(settings) : std::make_unique<SessionSettings>()," ∷ "\t\ttrue);"
          ∷ []))
    ∷ edit (block ("\t\tstreamVersion," ∷ "\t\tstd::move(settings));" ∷ []))
        (block ("\t\tstreamVersion," ∷ "\t\tstd::move(settings)," ∷ "\t\tfalse);" ∷ []))
    ∷ edit
        (block (
          "void Account::createSession(" ∷ "\t\tconst MTPUser &user," ∷ "\t\tQByteArray serialized,"
          ∷ "\t\tint streamVersion," ∷ "\t\tstd::unique_ptr<SessionSettings> settings) {" ∷ []))
        (block (
          "void Account::createSession(" ∷ "\t\tconst MTPUser &user," ∷ "\t\tQByteArray serialized,"
          ∷ "\t\tint streamVersion," ∷ "\t\tstd::unique_ptr<SessionSettings> settings,"
          ∷ "\t\tbool freshLogin) {" ∷ []))
    ∷ edit (codes "\t_session = std::make_unique<Session>(this, user, std::move(settings));") (
        block (
          "\t// Rotate before constructing or exposing a fresh Telegram session. Persist"
          ∷ "\t// this identity inside the same encrypted blob as its MTP authorization."
          ∷ "\tif (freshLogin) {" ∷ "\t\ttry { _capyAuthorization = Capy::Vault::Store::NewId(); }"
          ∷ "\t\tcatch (const std::exception &) { _capyAuthorization.clear(); }" ∷ "\t}"
          ∷ "\t_session = std::make_unique<Session>(this, user, std::move(settings));" ∷ []))
    ∷ edit (codes "\t\t\twriteKeys(stream, keysToDestroy);") (
        block (
          "\t\t\twriteKeys(stream, keysToDestroy);"
          ∷ "\t\t\tCapy::Authorization::Write(stream, _capyAuthorization);" ∷ []))
    ∷ edit (block ("\tQDataStream stream(serialized);" ∷ "" ∷ [])) (
        block (
          "\t_capyAuthorization.clear(); // malformed new metadata must never restore old notes"
          ∷ "\tQDataStream stream(serialized);" ∷ "" ∷ []))
    ∷ edit (codes "\treadKeys(_mtpKeysToDestroy);") (
        block (
          "\treadKeys(_mtpKeysToDestroy);"
          ∷ "\t_capyAuthorization = Capy::Authorization::Read(stream);" ∷ []))
    ∷ edit (codes "\t_sessionValue = _session.get();") (
        block (
          "\t_capyVaultHandle = Core::App().capyVaultWorker().attach("
          ∷ "\t\t_capyAccountIndex, _session->uniqueId(), freshLogin, _capyAuthorization);"
          ∷ "\t_sessionValue = _session.get();" ∷ []))
    ∷ edit (block ("void Account::destroySession(DestroyReason reason) {" ∷ "" ∷ [])) (
        block (
          "void Account::destroySession(DestroyReason reason) {" ∷ "\tif (_capyVaultHandle) {"
          ∷ "\t\tCore::App().capyVaultWorker().detach("
          ∷ "\t\t\t_capyVaultHandle, reason == DestroyReason::LoggedOut);"
          ∷ "\t\t_capyVaultHandle.reset();" ∷ "\t}" ∷ "" ∷ []))
    ∷ []

unfoldable pub main_domain_cpp_edits : List Edit
main_domain_cpp_edits =
    edit (block ("void Domain::resetWithForgottenPasscode() {" ∷ "" ∷ [])) (
      block (
        "void Domain::resetWithForgottenPasscode() {"
        ∷ "\tCore::App().capyVaultWorker().forgetAll();" ∷ "" ∷ []))
    ∷ []

unfoldable pub window_peer_menu_cpp_edits : List Edit
window_peer_menu_cpp_edits =
    edit (codes "#include \"window/window_peer_menu.h\"") (
      block
        ("#include \"window/window_peer_menu.h\"" ∷ "#include \"capybara/capy_notes_ui.h\"" ∷ []))
    ∷ edit (codes "\tFiller(controller, request, callback).fill();") (
        block (
          "\tFiller(controller, request, callback).fill();"
          ∷ "\tCapy::AddNoteAction(controller, request, callback);" ∷ []))
    ∷ []

unfoldable pub history_view_top_bar_widget_h_edits : List Edit
history_view_top_bar_widget_h_edits =
    edit (codes "\tvoid showPeerMenu();") (
      block (
        "\tvoid showPeerMenu();" ∷ "\tvoid setCapyDraftInserter(Fn<bool(QString)> insert) {"
        ∷ "\t\t_capyDraftInserter = std::move(insert);" ∷ "\t}" ∷ []))
    ∷ edit (codes "\tbase::unique_qptr<Ui::PopupMenu> _menu;") (
        block (
          "\tbase::unique_qptr<Ui::PopupMenu> _menu;" ∷ "\tFn<bool(QString)> _capyDraftInserter;"
          ∷ "\tuint64 _capyContextEpoch = 0;" ∷ []))
    ∷ []

unfoldable pub history_view_top_bar_widget_cpp_edits : List Edit
history_view_top_bar_widget_cpp_edits =
    edit (codes "#include \"history/view/history_view_top_bar_widget.h\"") (
      block (
        "#include \"history/view/history_view_top_bar_widget.h\""
        ∷ "#include \"capybara/capy_notes_ui.h\"" ∷ "#include <QPointer>" ∷ []))
    ∷ edit (block ("\t_sendAction = sendAction;" ∷ "" ∷ [])) (
        block (
          "\tif (_activeChat != activeChat) ++_capyContextEpoch;" ∷ "\t_sendAction = sendAction;"
          ∷ "" ∷ []))
    ∷ edit (codes "\tWindow::FillDialogsEntryMenu(_controller, _activeChat, addAction);") (
        block (
          "\tWindow::FillDialogsEntryMenu(_controller, _activeChat, addAction);"
          ∷ "\tif (_capyDraftInserter) {" ∷ "\t\tconst auto weak = QPointer<TopBarWidget>(this);"
          ∷ "\t\tconst auto epoch = _capyContextEpoch;"
          ∷ "\t\tCapy::AddTemplatesAction(_controller, _activeChat, [weak, epoch](QString text) {"
          ∷ "\t\t\treturn weak && weak->_capyContextEpoch == epoch"
          ∷ "\t\t\t\t&& weak->_capyDraftInserter"
          ∷ "\t\t\t\t&& weak->_capyDraftInserter(std::move(text));" ∷ "\t\t}, addAction);" ∷ "\t}"
          ∷ []))
    ∷ []

unfoldable pub history_widget_cpp_edits : List Edit
history_widget_cpp_edits =
    edit (codes "#include \"history/history_widget.h\"")
      (block ("#include \"history/history_widget.h\"" ∷ "#include <QPointer>" ∷ []))
    ∷ edit (block ("\t_topBar->forwardSelectionRequest(" ∷ "" ∷ [])) (
        block (
          "\t_topBar->setCapyDraftInserter([weak = QPointer<HistoryWidget>(this)](QString text) {"
          ∷ "\t\tif (!weak || !weak->_history || weak->_editMsgId || !weak->_canSendTexts"
          ∷ "\t\t\t|| weak->_field->isHidden() || !weak->_field->isEnabled()) return false;"
          ∷ "\t\t// Keep selected draft text: insert at the caret without replacing it."
          ∷ "\t\tauto cursor = weak->_field->textCursor();" ∷ "\t\tcursor.clearSelection();"
          ∷ "\t\tweak->_field->setTextCursor(cursor);" ∷ "\t\tweak->insertTextAtCursor(text);"
          ∷ "\t\treturn true;" ∷ "\t});" ∷ "\t_topBar->forwardSelectionRequest(" ∷ "" ∷ []))
    ∷ []

unfoldable pub history_view_chat_section_cpp_edits : List Edit
history_view_chat_section_cpp_edits =
    edit (codes "#include \"history/view/history_view_chat_section.h\"")
      (block ("#include \"history/view/history_view_chat_section.h\"" ∷ "#include <QPointer>" ∷ []))
    ∷ edit (block ("\t_topBar->deleteSelectionRequest(" ∷ "" ∷ [])) (
        block (
          "\t_topBar->setCapyDraftInserter([weak = QPointer<ChatWidget>(this)](QString text) {"
          ∷ "\t\treturn weak && weak->_composeControls"
          ∷ "\t\t\t&& weak->_composeControls->insertCapyTemplate(text);" ∷ "\t});"
          ∷ "\t_topBar->deleteSelectionRequest(" ∷ "" ∷ []))
    ∷ []

unfoldable pub history_view_compose_controls_h_edits : List Edit
history_view_compose_controls_h_edits =
    edit (codes "\tvoid insertTextToField(const QString &text);") (
      block (
        "\tvoid insertTextToField(const QString &text);"
        ∷ "\t[[nodiscard]] bool insertCapyTemplate(const QString &text);" ∷ []))
    ∷ []

unfoldable pub history_view_compose_controls_cpp_edits : List Edit
history_view_compose_controls_cpp_edits =
    edit (codes "void ComposeControls::insertTextToField(const QString &text) {") (
      block (
        "bool ComposeControls::insertCapyTemplate(const QString &text) {"
        ∷ "\tif (!_canSendTexts.current() || isEditingMessage() || isRecording()"
        ∷ "\t\t|| fieldDisabledShown() || _field->isHidden() || !_field->isEnabled()) return false;"
        ∷ "\tauto cursor = _field->textCursor();" ∷ "\tcursor.clearSelection();"
        ∷ "\t_field->setTextCursor(cursor);" ∷ "\tinsertTextToField(text);" ∷ "\treturn true;" ∷ "}"
        ∷ "" ∷ "void ComposeControls::insertTextToField(const QString &text) {" ∷ []))
    ∷ []

abbrev pub account_header : Text
account_header = codes "Telegram/SourceFiles/main/main_account.h"

unfoldable pub account_first : List Edit
account_first =
    edit (block ("#pragma once" ∷ "" ∷ []))
      (block ("#pragma once" ∷ "" ∷ "#include \"capybara/vault_worker.h\"" ∷ "" ∷ []))
    ∷ edit (codes "\t~Account();") (
        block (
          "\t~Account();"
          ∷ "\t[[nodiscard]] const Capy::Vault::Worker::Handle &capyVaultHandle() const {"
          ∷ "\t\treturn _capyVaultHandle;" ∷ "\t}" ∷ []))
    ∷ []

-- Only behind the first `private:`.
unfoldable pub account_private : List Edit
account_private =
    edit (codes "\t\tstd::unique_ptr<SessionSettings> settings);")
      (block ("\t\tstd::unique_ptr<SessionSettings> settings," ∷ "\t\tbool freshLogin);" ∷ []))
    ∷ []

unfoldable pub account_last : List Edit
account_last =
    edit (codes "\tconst not_null<Domain*> _domain;") (
      block (
        "\tconst int _capyAccountIndex;" ∷ "\tCapy::Vault::Worker::Handle _capyVaultHandle;"
        ∷ "\tstd::string _capyAuthorization = Capy::Vault::Registry::LegacyAuthorization;"
        ∷ "\tconst not_null<Domain*> _domain;" ∷ []))
    ∷ []

-- The edits of each file.
unfoldable pub table : List (Text × List Edit)
unfolding cmakelists_txt_edits application_h_edits application_cpp_edits main_account_cpp_edits
    main_domain_cpp_edits window_peer_menu_cpp_edits history_view_top_bar_widget_h_edits
    history_view_top_bar_widget_cpp_edits history_widget_cpp_edits
    history_view_chat_section_cpp_edits history_view_compose_controls_h_edits
    history_view_compose_controls_cpp_edits
table =
    (codes "Telegram/CMakeLists.txt", cmakelists_txt_edits)
    ∷ (codes "Telegram/SourceFiles/core/application.h", application_h_edits)
    ∷ (codes "Telegram/SourceFiles/core/application.cpp", application_cpp_edits)
    ∷ (codes "Telegram/SourceFiles/main/main_account.cpp", main_account_cpp_edits)
    ∷ (codes "Telegram/SourceFiles/main/main_domain.cpp", main_domain_cpp_edits)
    ∷ (codes "Telegram/SourceFiles/window/window_peer_menu.cpp", window_peer_menu_cpp_edits)
    ∷ (
      codes "Telegram/SourceFiles/history/view/history_view_top_bar_widget.h",
      history_view_top_bar_widget_h_edits,
    )
    ∷ (
      codes "Telegram/SourceFiles/history/view/history_view_top_bar_widget.cpp",
      history_view_top_bar_widget_cpp_edits,
    )
    ∷ (codes "Telegram/SourceFiles/history/history_widget.cpp", history_widget_cpp_edits)
    ∷ (
      codes "Telegram/SourceFiles/history/view/history_view_chat_section.cpp",
      history_view_chat_section_cpp_edits,
    )
    ∷ (
      codes "Telegram/SourceFiles/history/view/controls/history_view_compose_controls.h",
      history_view_compose_controls_h_edits,
    )
    ∷ (
      codes "Telegram/SourceFiles/history/view/controls/history_view_compose_controls.cpp",
      history_view_compose_controls_cpp_edits,
    )
    ∷ []
