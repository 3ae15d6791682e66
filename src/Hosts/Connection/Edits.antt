-- ===== src/Hosts/Connection/Edits.antt =====
-- ci/windows-connection-native/prepare_windows_connection.py: the replacements in each host file.
use capybaragram_build.Prelude.{List, [], ◌∷◌}
use capybaragram_build.Text.{Text, codes, block}
use capybaragram_build.Patch.{Edit, edit}

unfoldable pub cmakelists_txt_edits : List Edit
cmakelists_txt_edits =
    edit (block ("        ${src_loc}/capybara/capy_archive_ui.cpp" ∷ "" ∷ [])) (
      block (
        "        ${src_loc}/capybara/capy_connection_service.h"
        ∷ "        ${src_loc}/capybara/capy_connection_service.cpp"
        ∷ "        ${src_loc}/capybara/capy_connection_ui.h"
        ∷ "        ${src_loc}/capybara/capy_connection_ui.cpp"
        ∷ "        ${src_loc}/capybara/capy_archive_ui.cpp" ∷ "" ∷ []))
    ∷ edit (codes "    target_link_libraries(Telegram PRIVATE crypt32 bcrypt capy_windows_voice)") (
        block (
          "    # Rust and the client use the same static release CRT. Debug CRT is"
          ∷ "    # intentionally rejected until a separate matching Rust build is verified."
          ∷ "    if(NOT MSVC OR NOT CMAKE_CONFIGURATION_TYPES STREQUAL \"Release\")"
          ∷ "        message(FATAL_ERROR \"Capy connection requires the verified MSVC Release profile\")"
          ∷ "    endif()"
          ∷ "    set(CAPY_CONNECTION_LIBRARY \"$ENV{CAPY_WINDOWS_CONNECTION_LIBRARY}\")"
          ∷ "    set(CAPY_CONNECTION_LIBRARY_SHA \"$ENV{CAPY_WINDOWS_CONNECTION_LIBRARY_SHA}\")"
          ∷ "    if(NOT EXISTS \"${CAPY_CONNECTION_LIBRARY}\" OR NOT CAPY_CONNECTION_LIBRARY_SHA)"
          ∷ "        message(FATAL_ERROR \"Verified connection library is missing\")"
          ∷ "    endif()"
          ∷ "    file(SHA256 \"${CAPY_CONNECTION_LIBRARY}\" CAPY_CONNECTION_ACTUAL_SHA)"
          ∷ "    if(NOT CAPY_CONNECTION_ACTUAL_SHA STREQUAL CAPY_CONNECTION_LIBRARY_SHA)"
          ∷ "        message(FATAL_ERROR \"Connection library digest differs\")" ∷ "    endif()"
          ∷ "    add_library(capy_connection_rust STATIC IMPORTED)"
          ∷ "    set_target_properties(capy_connection_rust PROPERTIES"
          ∷ "        IMPORTED_LOCATION \"${CAPY_CONNECTION_LIBRARY}\")"
          ∷ "    add_library(capy_windows_connection STATIC ${src_loc}/capybara/connection_worker.cpp)"
          ∷ "    init_target(capy_windows_connection)"
          ∷ "    target_include_directories(capy_windows_connection PUBLIC ${src_loc}/capybara)"
          ∷ "    set_source_files_properties(${src_loc}/capybara/connection_worker.cpp"
          ∷ "        PROPERTIES SKIP_PRECOMPILE_HEADERS ON)"
          ∷ "    target_link_libraries(capy_windows_connection PUBLIC capy_connection_rust"
          ∷ "        ws2_32 crypt32 secur32 ncrypt bcrypt userenv advapi32 ntdll)"
          ∷ "    # Static QtNetwork DNS lookup requires the Windows DNS import library."
          ∷ "    target_link_libraries(Telegram PRIVATE dnsapi crypt32 bcrypt capy_windows_voice capy_windows_connection)"
          ∷ []))
    ∷ []

unfoldable pub application_h_edits : List Edit
application_h_edits =
    edit (codes "#include \"base/timer.h\"")
      (block ("#include \"base/timer.h\"" ∷ "#include <mutex>" ∷ "#include <optional>" ∷ []))
    ∷ edit (codes "namespace Capy::Archive { class Worker; }") (
        block (
          "namespace Capy::Connection { class Service; }"
          ∷ "namespace Capy::Archive { class Worker; }" ∷ []))
    ∷ edit (codes "\tvoid proxyRotationSettingsChanged();") (
        block (
          "\t[[nodiscard]] Capy::Connection::Service &capyConnectionService();"
          ∷ "\t[[nodiscard]] std::optional<MTP::ProxyData> capyConnectionProxy() const;"
          ∷ "\tvoid setCapyConnectionProxy(std::optional<MTP::ProxyData> proxy);"
          ∷ "\tvoid proxyRotationSettingsChanged();" ∷ []))
    ∷ edit (codes "\trpl::event_stream<ProxyChange> _proxyChanges;") (
        block (
          "\tmutable std::mutex _capyConnectionProxyMutex;"
          ∷ "\tstd::optional<MTP::ProxyData> _capyConnectionProxy;"
          ∷ "\tstd::unique_ptr<Capy::Connection::Service> _capyConnectionService;"
          ∷ "\trpl::event_stream<ProxyChange> _proxyChanges;" ∷ []))
    ∷ []

unfoldable pub application_cpp_edits : List Edit
application_cpp_edits =
    edit (codes "#include \"capybara/archive_worker.h\"") (
      block (
        "#include \"capybara/archive_worker.h\"" ∷ "#include \"capybara/capy_connection_service.h\""
        ∷ []))
    ∷ edit (block ("Application::~Application() {" ∷ "" ∷ [])) (
        block (
          "Application::~Application() {"
          ∷ "\t_capyConnectionService.reset(); // revoke callbacks before windows/domain" ∷ ""
          ∷ []))
    ∷ edit (block ("\tconst auto was = current();" ∷ "\tmy.setSelected(proxy);" ∷ [])) (
        block (
          "\tconst auto was = capyConnectionProxy().value_or(current());"
          ∷ "\tif (_capyConnectionService) _capyConnectionService->manualProxySelected();" ∷ "\t{"
          ∷ "\t\tconst auto lock = std::lock_guard(_capyConnectionProxyMutex);"
          ∷ "\t\t_capyConnectionProxy.reset();" ∷ "\t}" ∷ "\tmy.setSelected(proxy);" ∷ []))
    ∷ edit (codes "void Application::proxyRotationSettingsChanged() {") (
        block (
          "Capy::Connection::Service &Application::capyConnectionService() {"
          ∷ "\tif (!_capyConnectionService) {"
          ∷ "\t\t_capyConnectionService = std::make_unique<Capy::Connection::Service>();" ∷ "\t}"
          ∷ "\treturn *_capyConnectionService;" ∷ "}" ∷ ""
          ∷ "std::optional<MTP::ProxyData> Application::capyConnectionProxy() const {"
          ∷ "\tconst auto lock = std::lock_guard(_capyConnectionProxyMutex);"
          ∷ "\treturn _capyConnectionProxy;" ∷ "}" ∷ ""
          ∷ "void Application::setCapyConnectionProxy(std::optional<MTP::ProxyData> proxy) {"
          ∷ "\tconst auto &normal = settings().proxy();"
          ∷ "\tconst auto saved = normal.isEnabled() ? normal.selected() : MTP::ProxyData();"
          ∷ "\tauto was = MTP::ProxyData();" ∷ "\tauto now = MTP::ProxyData();" ∷ "\t{"
          ∷ "\t\tconst auto lock = std::lock_guard(_capyConnectionProxyMutex);"
          ∷ "\t\twas = _capyConnectionProxy.value_or(saved);"
          ∷ "\t\t_capyConnectionProxy = std::move(proxy);"
          ∷ "\t\tnow = _capyConnectionProxy.value_or(saved);" ∷ "\t}" ∷ "\tif (was == now) return;"
          ∷ "\trefreshGlobalProxy();"
          ∷ "\t_proxyChanges.fire({ was, now }); // native accounts restart, auth keys preserved"
          ∷ "\tsettings().proxy().connectionTypeChangesNotify();"
          ∷ "\tproxyRotationSettingsChanged();" ∷ "}" ∷ ""
          ∷ "void Application::proxyRotationSettingsChanged() {" ∷ []))
    ∷ edit (block ("void Application::badMtprotoConfigurationError() {" ∷ "" ∷ [])) (
        block (
          "void Application::badMtprotoConfigurationError() {"
          ∷ "\tif (capyConnectionProxy() && _capyConnectionService) {"
          ∷ "\t\t_capyConnectionService->setEnabled(false);"
          ∷ "\t\tUi::show(Ui::MakeInformBox(Lang::Hard::ProxyConfigError()));"
          ∷ "\t\treturn; // never disable the saved normal proxy for a runtime-route error" ∷ "\t}"
          ∷ "" ∷ []))
    ∷ edit
        (block (
          "\tconst auto proxy = proxySettings.isEnabled()" ∷ "\t\t? proxySettings.selected()"
          ∷ "\t\t: MTP::ProxyData();" ∷ []))
        (block (
          "\tconst auto proxy = capyConnectionProxy().value_or(proxySettings.isEnabled()"
          ∷ "\t\t? proxySettings.selected()" ∷ "\t\t: MTP::ProxyData());" ∷ []))
    ∷ []

unfoldable pub session_cpp_edits : List Edit
session_cpp_edits =
    edit
      (block (
        "\tconst auto &proxy = settings.selected();"
        ∷ "\tconst auto isEnabled = settings.isEnabled();" ∷ []))
      (block (
        "\tconst auto runtime = Core::App().capyConnectionProxy();"
        ∷ "\tconst auto proxy = runtime.value_or(settings.selected());"
        ∷ "\tconst auto isEnabled = runtime.has_value() || settings.isEnabled();" ∷ []))
    ∷ edit (codes "\tconst auto useIPv6 = settings.tryIPv6();")
        (codes "\tconst auto useIPv6 = !runtime.has_value() && settings.tryIPv6();")
    ∷ []

unfoldable pub proxy_rotation_manager_cpp_edits : List Edit
proxy_rotation_manager_cpp_edits =
    edit
      (block ("bool ProxyRotationManager::shouldObserve() const {" ∷ "\tconst auto &settings" ∷ []))
      (block (
        "bool ProxyRotationManager::shouldObserve() const {"
        ∷ "\tif (App().capyConnectionProxy()) return false;" ∷ "\tconst auto &settings" ∷ []))
    ∷ []

unfoldable pub window_peer_menu_cpp_edits : List Edit
window_peer_menu_cpp_edits =
    edit (codes "#include \"capybara/capy_archive_ui.h\"") (
      block (
        "#include \"capybara/capy_archive_ui.h\"" ∷ "#include \"capybara/capy_connection_ui.h\""
        ∷ []))
    ∷ edit (codes "\tCapy::AddArchiveAction(controller, request, callback);") (
        block (
          "\tCapy::AddArchiveAction(controller, request, callback);"
          ∷ "\tCapy::AddConnectionAction(controller, callback);" ∷ []))
    ∷ []

unfoldable pub intro_widget_h_edits : List Edit
intro_widget_h_edits =
    edit (codes "\tobject_ptr<Ui::FadeWrap<Ui::RoundButton>> _settings;") (
      block (
        "\tobject_ptr<Ui::FadeWrap<Ui::RoundButton>> _settings;"
        ∷ "\tobject_ptr<Ui::FadeWrap<Ui::RoundButton>> _capyConnection;" ∷ []))
    ∷ []

unfoldable pub intro_widget_cpp_edits : List Edit
intro_widget_cpp_edits =
    edit (codes "#include \"intro/intro_widget.h\"") (
      block
        ("#include \"intro/intro_widget.h\"" ∷ "#include \"capybara/capy_connection_ui.h\"" ∷ []))
    ∷ edit (block (", _next(" ∷ "" ∷ [])) (
        block (
          ", _capyConnection(" ∷ "\tthis," ∷ "\tobject_ptr<Ui::RoundButton>(" ∷ "\t\tthis,"
          ∷ "\t\trpl::single(Capy::ConnectionButtonText())," ∷ "\t\tst::defaultBoxButton))"
          ∷ ", _next(" ∷ "" ∷ []))
    ∷ edit (codes "\t_settings->entity()->setTextTransform(Ui::RoundButtonTextTransform::ToUpper);")
        (block (
          "\t_settings->entity()->setTextTransform(Ui::RoundButtonTextTransform::ToUpper);"
          ∷ "\t_capyConnection->entity()->setClickedCallback([=] {"
          ∷ "\t\tCapy::ShowIntroConnection(getData()->controller->uiShow(), this);" ∷ "\t});" ∷ []))
    ∷ edit (block ("void Widget::refreshLang() {" ∷ "" ∷ [])) (
        block (
          "void Widget::refreshLang() {"
          ∷ "\t_capyConnection->entity()->setText(rpl::single(Capy::ConnectionButtonText()));" ∷ ""
          ∷ []))
    ∷ edit (codes "\t_settings->toggle(!stepHasCover, anim::type::normal);") (
        block (
          "\t_settings->toggle(!stepHasCover, anim::type::normal);"
          ∷ "\t_capyConnection->toggle(!stepHasCover, anim::type::normal);" ∷ []))
    ∷ edit (codes "\t_settings->toggle(!hasCover, anim::type::instant);") (
        block (
          "\t_settings->toggle(!hasCover, anim::type::instant);"
          ∷ "\t_capyConnection->toggle(!hasCover, anim::type::instant);" ∷ []))
    ∷ edit (codes "\t_settings->hide(anim::type::instant);") (
        block (
          "\t_settings->hide(anim::type::instant);"
          ∷ "\t_capyConnection->hide(anim::type::instant);" ∷ []))
    ∷ edit (block ("\t_settings->raise();" ∷ "\t_back->raise();" ∷ []))
        (block ("\t_settings->raise();" ∷ "\t_capyConnection->raise();" ∷ "\t_back->raise();" ∷ []))
    ∷ edit (block ("\t_settings->raise();" ∷ "\tif (_update) {" ∷ []))
        (block ("\t_settings->raise();" ∷ "\t_capyConnection->raise();" ∷ "\tif (_update) {" ∷ []))
    ∷ edit (codes "\t_settings->moveToRight(skip, controlsTop + skip);") (
        block (
          "\t_settings->moveToRight(skip, controlsTop + skip);"
          ∷ "\t_capyConnection->moveToRight(skip, controlsTop + skip + _settings->height() + skip);"
          ∷ []))
    ∷ []

-- The edits of each file.
unfoldable pub table : List (Text × List Edit)
unfolding cmakelists_txt_edits application_h_edits application_cpp_edits session_cpp_edits
    proxy_rotation_manager_cpp_edits window_peer_menu_cpp_edits intro_widget_h_edits
    intro_widget_cpp_edits
table =
    (codes "Telegram/CMakeLists.txt", cmakelists_txt_edits)
    ∷ (codes "Telegram/SourceFiles/core/application.h", application_h_edits)
    ∷ (codes "Telegram/SourceFiles/core/application.cpp", application_cpp_edits)
    ∷ (codes "Telegram/SourceFiles/mtproto/session.cpp", session_cpp_edits)
    ∷ (
      codes "Telegram/SourceFiles/core/proxy_rotation_manager.cpp",
      proxy_rotation_manager_cpp_edits,
    )
    ∷ (codes "Telegram/SourceFiles/window/window_peer_menu.cpp", window_peer_menu_cpp_edits)
    ∷ (codes "Telegram/SourceFiles/intro/intro_widget.h", intro_widget_h_edits)
    ∷ (codes "Telegram/SourceFiles/intro/intro_widget.cpp", intro_widget_cpp_edits)
    ∷ []
