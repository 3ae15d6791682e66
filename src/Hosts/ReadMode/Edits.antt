-- ===== src/Hosts/ReadMode/Edits.antt =====
-- ci/windows-read-mode/prepare_windows_read_mode.py: the replacements in each host file.
use capybaragram_build.Prelude.{List, [], ◌∷◌}
use capybaragram_build.Text.{Text, codes, block}
use capybaragram_build.Patch.{Edit, edit}

unfoldable pub cmakelists_txt_edits : List Edit
cmakelists_txt_edits =
    edit (block ("        ${src_loc}/capybara/capy_notes_ui.cpp" ∷ "" ∷ [])) (
      block (
        "        ${src_loc}/capybara/capy_read_mode_ui.cpp"
        ∷ "        ${src_loc}/capybara/capy_read_mode_ui.h"
        ∷ "        ${src_loc}/capybara/read_receipt_policy.h"
        ∷ "        ${src_loc}/capybara/capy_notes_ui.cpp" ∷ "" ∷ []))
    ∷ edit (codes "    add_executable(capy-auth-test EXCLUDE_FROM_ALL") (
        block (
          "    add_executable(capy-read-policy-test EXCLUDE_FROM_ALL"
          ∷ "        ${src_loc}/capybara/read_receipt_policy_test.cpp)"
          ∷ "    init_target(capy-read-policy-test)"
          ∷ "    set_source_files_properties(${src_loc}/capybara/read_receipt_policy_test.cpp"
          ∷ "        PROPERTIES SKIP_PRECOMPILE_HEADERS ON)"
          ∷ "    set_target_properties(capy-read-policy-test PROPERTIES"
          ∷ "        RUNTIME_OUTPUT_DIRECTORY \"${CMAKE_BINARY_DIR}/capy-tests\")"
          ∷ "    add_executable(capy-auth-test EXCLUDE_FROM_ALL" ∷ []))
    ∷ []

unfoldable pub mtp_instance_h_edits : List Edit
mtp_instance_h_edits =
    edit (block ("#pragma once" ∷ "" ∷ []))
      (block ("#pragma once" ∷ "" ∷ "#include \"capybara/read_receipt_policy.h\"" ∷ "" ∷ []))
    ∷ edit (codes "\t[[nodiscard]] rpl::lifetime &lifetime();") (
        block (
          "\tvoid setCapySilentRead(bool silent) { _capyReadPolicy.setSilent(silent); }"
          ∷ "\tvoid resetCapyReadMode() { _capyReadPolicy.reset(); }"
          ∷ "\t[[nodiscard]] bool capySilentRead() const { return _capyReadPolicy.silent(); }"
          ∷ "\t[[nodiscard]] bool capySuppressRead(mtpRequestId request, uint32 constructor, bool isRead) {"
          ∷ "\t\treturn _capyReadPolicy.suppress(request, constructor, isRead);" ∷ "\t}"
          ∷ "\ttemplate <typename Request>"
          ∷ "\tmtpRequestId sendCapyExplicitRead(const Request &request, ResponseHandler &&callbacks) {"
          ∷ "\t\tconst auto id = details::GetNextRequestId();"
          ∷ "\t\t_capyReadPolicy.allow(id, request.type());"
          ∷ "\t\treturn send(request, std::move(callbacks), 0, 0, 0, id);" ∷ "\t}" ∷ ""
          ∷ "\t[[nodiscard]] rpl::lifetime &lifetime();" ∷ []))
    ∷ edit (codes "\tconst std::unique_ptr<Private> _private;") (
        block (
          "\tCapy::ReadReceiptPolicy _capyReadPolicy;"
          ∷ "\tconst std::unique_ptr<Private> _private;" ∷ []))
    ∷ []

unfoldable pub mtp_instance_cpp_edits : List Edit
mtp_instance_cpp_edits =
    edit (codes "#include \"mtproto/mtp_instance.h\"")
      (block ("#include \"mtproto/mtp_instance.h\"" ∷ "#include <QTimer>" ∷ []))
    ∷ edit (codes "\tvoid processCallback(const Response &response);") (
        block (
          "\tvoid capyReadSuppressed(mtpRequestId requestId);"
          ∷ "\tvoid processCallback(const Response &response);" ∷ []))
    ∷ edit
        (block (
          "\t\tbool needsLayer," ∷ "\t\tmtpRequestId afterRequestId) {"
          ∷ "\tconst auto session = getSession(shiftedDcId);" ∷ []))
        (block (
          "\t\tbool needsLayer," ∷ "\t\tmtpRequestId afterRequestId) {"
          ∷ "\t// Inspect the top-level TL method before layer/invokeAfter wrapping. This"
          ∷ "\t// central boundary covers Sender and direct/serialized application calls."
          ∷ "\tconst auto body = SerializedRequest::kMessageBodyPosition;"
          ∷ "\tconst auto constructor = needsLayer && request->size() > body ? (*request)[body] : 0;"
          ∷ "\tconst auto isRead = [&] {" ∷ "\t\tswitch (constructor) {"
          ∷ "\t\tcase mtpc_messages_readHistory:" ∷ "\t\tcase mtpc_channels_readHistory:"
          ∷ "\t\tcase mtpc_messages_readMessageContents:"
          ∷ "\t\tcase mtpc_channels_readMessageContents:" ∷ "\t\tcase mtpc_messages_readDiscussion:"
          ∷ "\t\tcase mtpc_messages_readSavedHistory:" ∷ "\t\tcase mtpc_messages_readMentions:"
          ∷ "\t\tcase mtpc_messages_readReactions:" ∷ "\t\tcase mtpc_messages_readPollVotes:"
          ∷ "\t\tcase mtpc_stories_readStories: return true;" ∷ "\t\tdefault: return false;"
          ∷ "\t\t}" ∷ "\t}();"
          ∷ "\tif (_instance->capySuppressRead(requestId, constructor, isRead)) {"
          ∷ "\t\trequest->requestId = requestId;"
          ∷ "\t\tstoreRequest(requestId, request, std::move(callbacks));"
          ∷ "\t\t// Sender registers the id after send() returns. Failure must be queued."
          ∷ "\t\t// No DC registration, socket enqueue, server success or pts fabrication."
          ∷ "\t\tQTimer::singleShot(0, _instance, [=] { capyReadSuppressed(requestId); });"
          ∷ "\t\treturn;" ∷ "\t}" ∷ "\tconst auto session = getSession(shiftedDcId);" ∷ []))
    ∷ edit (codes "void Instance::Private::processCallback(const Response &response) {") (
        block (
          "void Instance::Private::capyReadSuppressed(mtpRequestId requestId) {"
          ∷ "\tResponseHandler handler;" ∷ "\t{" ∷ "\t\tQMutexLocker locker(&_parserMapLock);"
          ∷ "\t\tconst auto i = _parserMap.find(requestId);" ∷ "\t\tif (i != _parserMap.end()) {"
          ∷ "\t\t\thandler = std::move(i->second);" ∷ "\t\t\t_parserMap.erase(i);" ∷ "\t\t}" ∷ "\t}"
          ∷ "\tunregisterRequest(requestId);" ∷ "\tif (handler.fail) {"
          ∷ "\t\t// A terminal LOCAL error. Negative errors would be silently retried by"
          ∷ "\t\t// Sender's default policy. Deliberately bypass network error recovery."
          ∷ "\t\tconst auto error = Error(MTP_rpc_error(MTP_int(400),"
          ∷ "\t\t\tMTP_string(\"CAPY_READ_RECEIPT_SUPPRESSED\")));"
          ∷ "\t\thandler.fail(error, Response{ .requestId = requestId });" ∷ "\t}" ∷ "}" ∷ ""
          ∷ "void Instance::Private::processCallback(const Response &response) {" ∷ []))
    ∷ []

unfoldable pub main_session_settings_h_edits : List Edit
main_session_settings_h_edits =
    edit (codes "\t[[nodiscard]] QByteArray serialize() const;") (
      block (
        "\tvoid setCapySilentRead(bool value) { _capySilentRead = value; }"
        ∷ "\t[[nodiscard]] bool capySilentRead() const { return _capySilentRead; }"
        ∷ "\t[[nodiscard]] QByteArray serialize() const;" ∷ []))
    ∷ edit (codes "\tstd::vector<Data::ReactionId> _extraFavoriteReactions;") (
        block (
          "\tstd::vector<Data::ReactionId> _extraFavoriteReactions;"
          ∷ "\tbool _capySilentRead = false;" ∷ []))
    ∷ []

unfoldable pub main_session_settings_cpp_edits : List Edit
main_session_settings_cpp_edits =
    edit (codes "\tauto result = QByteArray();") (
      block (
        "\tsize += 3 * sizeof(qint32); // Capy extension tag, version, silent-read" ∷ ""
        ∷ "\tauto result = QByteArray();" ∷ []))
    ∷ edit
        (block (
          "\t\t\tstream << quint64(id.custom()) << id.emoji();" ∷ "\t\t}" ∷ "\t}" ∷ ""
          ∷ "\tEnsures(result.size() == size);" ∷ []))
        (block (
          "\t\t\tstream << quint64(id.custom()) << id.emoji();" ∷ "\t\t}"
          ∷ "\t\tstream << qint32(0x43524731) << qint32(1) << qint32(_capySilentRead ? 1 : 0);"
          ∷ "\t}" ∷ "" ∷ "\tEnsures(result.size() == size);" ∷ []))
    ∷ edit (codes "\tstd::vector<Data::ReactionId> extraFavoriteReactions;") (
        block (
          "\tstd::vector<Data::ReactionId> extraFavoriteReactions;"
          ∷ "\tbool capySilentRead = false;" ∷ []))
    ∷ edit
        (block (
          "\t_phoneNumberHidden = (phoneNumberHidden == 1);"
          ∷ "\t_extraFavoriteReactions = std::move(extraFavoriteReactions);" ∷ []))
        (block (
          "\t_phoneNumberHidden = (phoneNumberHidden == 1);"
          ∷ "\t_extraFavoriteReactions = std::move(extraFavoriteReactions);"
          ∷ "\tif (!stream.atEnd()) {" ∷ "\t\tqint32 capyTag = 0, capyVersion = 0, capyValue = 0;"
          ∷ "\t\tstream >> capyTag >> capyVersion >> capyValue;"
          ∷ "\t\tcapySilentRead = (stream.status() == QDataStream::Ok"
          ∷ "\t\t\t&& capyTag == 0x43524731 && capyVersion == 1 && capyValue == 1);" ∷ "\t}"
          ∷ "\t_capySilentRead = capySilentRead;" ∷ []))
    ∷ []

unfoldable pub main_session_cpp_edits : List Edit
main_session_cpp_edits =
    edit (codes "\tExpects(_settings != nullptr);") (
      block (
        "\tExpects(_settings != nullptr);"
        ∷ "\tmtp().setCapySilentRead(_settings->capySilentRead());" ∷ []))
    ∷ []

unfoldable pub main_account_cpp_edits : List Edit
main_account_cpp_edits =
    edit (block ("void Account::destroySession(DestroyReason reason) {" ∷ "" ∷ [])) (
      block (
        "void Account::destroySession(DestroyReason reason) {"
        ∷ "\tif (_mtp) _mtp->resetCapyReadMode();" ∷ "" ∷ []))
    ∷ []

unfoldable pub window_peer_menu_cpp_edits : List Edit
window_peer_menu_cpp_edits =
    edit (codes "#include \"window/window_peer_menu.h\"") (
      block (
        "#include \"window/window_peer_menu.h\"" ∷ "#include \"capybara/capy_read_mode_ui.h\""
        ∷ []))
    ∷ edit (codes "\tCapy::AddNoteAction(controller, request, callback);") (
        block (
          "\tCapy::AddNoteAction(controller, request, callback);"
          ∷ "\tCapy::AddReadModeAction(controller, request, callback);" ∷ []))
    ∷ []

unfoldable pub history_view_top_bar_widget_cpp_edits : List Edit
history_view_top_bar_widget_cpp_edits =
    edit (codes "#include \"capybara/capy_notes_ui.h\"") (
      block (
        "#include \"capybara/capy_notes_ui.h\"" ∷ "#include \"capybara/capy_read_mode_ui.h\"" ∷ []))
    ∷ edit (codes "\tCapy::AddNoteAction(_controller, _activeChat, addAction);") (
        block (
          "\tCapy::AddNoteAction(_controller, _activeChat, addAction);"
          ∷ "\tCapy::AddReadModeAction(_controller, _activeChat, addAction);" ∷ []))
    ∷ edit (codes "u\"CapybaraGram · Notes / Templates\"_q")
        (codes "u\"CapybaraGram · Notes / Templates / Silent reading\"_q")
    ∷ edit (codes "u\"CapybaraGram · Заметки / Шаблоны\"_q")
        (codes "u\"CapybaraGram · Заметки / Шаблоны / Нечиталка\"_q")
    ∷ []

unfoldable pub data_histories_cpp_edits : List Edit
data_histories_cpp_edits =
    edit (codes "#include \"data/data_histories.h\"")
      (block ("#include \"data/data_histories.h\"" ∷ "#include \"mtproto/mtp_instance.h\"" ∷ []))
    ∷ edit (block ("void Histories::readInbox(not_null<History*> history) {" ∷ "" ∷ [])) (
        block (
          "void Histories::readInbox(not_null<History*> history) {"
          ∷ "\tif (session().mtp().capySilentRead()) return;" ∷ "" ∷ []))
    ∷ edit
        (block
          ("\t\tbool force) {" ∷ "\tExpects(IsServerMsgId(tillId) || (!tillId && !force));" ∷ []))
        (block (
          "\t\tbool force) {" ∷ "\tif (session().mtp().capySilentRead()) return;"
          ∷ "\tExpects(IsServerMsgId(tillId) || (!tillId && !force));" ∷ []))
    ∷ edit
        (block
          ("void Histories::sendReadRequest(not_null<History*> history, State &state) {" ∷ "" ∷ []))
        (block (
          "void Histories::sendReadRequest(not_null<History*> history, State &state) {"
          ∷ "\tif (session().mtp().capySilentRead()) {" ∷ "\t\tstate.willReadTill = 0;"
          ∷ "\t\tstate.willReadWhen = 0;" ∷ "\t\treturn;" ∷ "\t}" ∷ "" ∷ []))
    ∷ []

unfoldable pub data_replies_list_cpp_edits : List Edit
data_replies_list_cpp_edits =
    edit (codes "#include \"data/data_replies_list.h\"")
      (block ("#include \"data/data_replies_list.h\"" ∷ "#include \"mtproto/mtp_instance.h\"" ∷ []))
    ∷ edit (block ("\t\tHistoryItem *tillIdItem) {" ∷ "\tif (!IsServerMsgId(tillId)) {" ∷ [])) (
        block (
          "\t\tHistoryItem *tillIdItem) {"
          ∷ "\tif (_history->session().mtp().capySilentRead()) return;"
          ∷ "\tif (!IsServerMsgId(tillId)) {" ∷ []))
    ∷ edit (block ("void RepliesList::sendReadTillRequest() {" ∷ "" ∷ [])) (
        block (
          "void RepliesList::sendReadTillRequest() {"
          ∷ "\tif (_history->session().mtp().capySilentRead()) {"
          ∷ "\t\t_readRequestTimer.cancel();"
          ∷ "\t\t_history->session().api().request(base::take(_readRequestId)).cancel();"
          ∷ "\t\treturn;" ∷ "\t}" ∷ "" ∷ []))
    ∷ []

unfoldable pub data_saved_sublist_cpp_edits : List Edit
data_saved_sublist_cpp_edits =
    edit (codes "#include \"data/data_saved_sublist.h\"") (
      block ("#include \"data/data_saved_sublist.h\"" ∷ "#include \"mtproto/mtp_instance.h\"" ∷ []))
    ∷ edit (block ("\t\tHistoryItem *tillIdItem) {" ∷ "\tif (!IsServerMsgId(tillId)) {" ∷ [])) (
        block (
          "\t\tHistoryItem *tillIdItem) {"
          ∷ "\tif (_parent->session().mtp().capySilentRead()) return;"
          ∷ "\tif (!IsServerMsgId(tillId)) {" ∷ []))
    ∷ edit (block ("void SavedSublist::sendReadTillRequest() {" ∷ "" ∷ [])) (
        block (
          "void SavedSublist::sendReadTillRequest() {"
          ∷ "\tif (_parent->session().mtp().capySilentRead()) {" ∷ "\t\t_readRequestTimer.cancel();"
          ∷ "\t\t_parent->session().api().request(base::take(_readRequestId)).cancel();"
          ∷ "\t\treturn;" ∷ "\t}" ∷ "" ∷ []))
    ∷ []

-- The edits of each file.
unfoldable pub table : List (Text × List Edit)
unfolding cmakelists_txt_edits mtp_instance_h_edits mtp_instance_cpp_edits
    main_session_settings_h_edits main_session_settings_cpp_edits main_session_cpp_edits
    main_account_cpp_edits window_peer_menu_cpp_edits history_view_top_bar_widget_cpp_edits
    data_histories_cpp_edits data_replies_list_cpp_edits data_saved_sublist_cpp_edits
table =
    (codes "Telegram/CMakeLists.txt", cmakelists_txt_edits)
    ∷ (codes "Telegram/SourceFiles/mtproto/mtp_instance.h", mtp_instance_h_edits)
    ∷ (codes "Telegram/SourceFiles/mtproto/mtp_instance.cpp", mtp_instance_cpp_edits)
    ∷ (codes "Telegram/SourceFiles/main/main_session_settings.h", main_session_settings_h_edits)
    ∷ (codes "Telegram/SourceFiles/main/main_session_settings.cpp", main_session_settings_cpp_edits)
    ∷ (codes "Telegram/SourceFiles/main/main_session.cpp", main_session_cpp_edits)
    ∷ (codes "Telegram/SourceFiles/main/main_account.cpp", main_account_cpp_edits)
    ∷ (codes "Telegram/SourceFiles/window/window_peer_menu.cpp", window_peer_menu_cpp_edits)
    ∷ (
      codes "Telegram/SourceFiles/history/view/history_view_top_bar_widget.cpp",
      history_view_top_bar_widget_cpp_edits,
    )
    ∷ (codes "Telegram/SourceFiles/data/data_histories.cpp", data_histories_cpp_edits)
    ∷ (codes "Telegram/SourceFiles/data/data_replies_list.cpp", data_replies_list_cpp_edits)
    ∷ (codes "Telegram/SourceFiles/data/data_saved_sublist.cpp", data_saved_sublist_cpp_edits)
    ∷ []
