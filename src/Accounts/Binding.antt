-- ===== src/Accounts/Binding.antt =====
-- ci/accounts/notification_binding.py: the new Java source, and the guards in the receivers of notifications.
use capybaragram_build.Prelude.{
  ℕ, ◌+◌, ◌-◌, ◌||◌, List, [], ◌∷◌, ◌++◌, take, drop, Result, ok, err, value_error, ◌>>=◌,
  if◌then◌else◌,
}
use capybaragram_build.Text.{Text, codes, block, is_suffix}
use capybaragram_build.Text.Slice.{index, index_from}
use capybaragram_build.Patch.{Edit, edit, edit_times, apply}

-- `BINDING_SOURCE`
unfoldable pub binding_source : Text
binding_source = block (
    "// SPDX-License-Identifier: GPL-2.0-or-later" ∷ "package org.telegram.messenger;" ∷ ""
    ∷ "import android.content.Intent;" ∷ "import android.net.Uri;" ∷ ""
    ∷ "public final class NotificationAccountBinding {"
    ∷ "    public static final String USER_ID_EXTRA = \"capy_notification_user_id\";" ∷ ""
    ∷ "    private NotificationAccountBinding() {" ∷ "    }" ∷ ""
    ∷ "    public static Intent bind(Intent intent, int account) {"
    ∷ "        final long userId = UserConfig.getInstance(account).getClientUserId();"
    ∷ "        intent.putExtra(\"currentAccount\", account);"
    ∷ "        intent.putExtra(USER_ID_EXTRA, userId);"
    ∷ "        final long dialogId = intent.getLongExtra(\"dialog_id\","
    ∷ "            intent.getLongExtra(\"dialogId\", intent.getLongExtra(\"did\", 0)));"
    ∷ "        final long topicId = intent.getLongExtra(\"topic_id\", intent.getLongExtra(\"topicId\", 0));"
    ∷ "        intent.setData(new Uri.Builder().scheme(\"capybaragram\").authority(\"notification\")"
    ∷ "            .appendPath(Integer.toString(account)).appendPath(Long.toString(userId))"
    ∷ "            .appendPath(Long.toString(dialogId)).appendPath(Long.toString(topicId))"
    ∷ "            .appendPath(Long.toString(intent.getLongExtra(\"userId\", 0)))"
    ∷ "            .appendPath(Long.toString(intent.getLongExtra(\"chatId\", 0)))"
    ∷ "            .appendPath(Integer.toString(intent.getIntExtra(\"encId\", 0)))"
    ∷ "            .appendPath(Boolean.toString(intent.getBooleanExtra(\"story\", false)))"
    ∷ "            .appendPath(Boolean.toString(intent.getBooleanExtra(\"storyReaction\", false)))"
    ∷ "            .build());" ∷ "        return intent;" ∷ "    }" ∷ ""
    ∷ "    public static long userId(Intent intent) {"
    ∷ "        return intent == null ? 0 : intent.getLongExtra(USER_ID_EXTRA, 0);" ∷ "    }" ∷ ""
    ∷ "    public static boolean isCurrent(Intent intent, int account) {"
    ∷ "        return intent != null && intent.getIntExtra(\"currentAccount\", -1) == account"
    ∷ "            && isCurrent(account, userId(intent));" ∷ "    }" ∷ ""
    ∷ "    public static boolean isCurrent(int account, long expectedUserId) {"
    ∷ "        return expectedUserId > 0 && UserConfig.isValidAccount(account)"
    ∷ "            && UserConfig.getInstance(account).getClientUserId() == expectedUserId;"
    ∷ "    }" ∷ "}" ∷ "" ∷ [])

unfoldable pub repeat_edits : List Edit
repeat_edits =
    edit
      (codes
        "        final int currentAccount = intent.getIntExtra(\"currentAccount\", UserConfig.selectedAccount);")
      (block (
        "        ApplicationLoader.postInitApplication();"
        ∷ "        final int currentAccount = intent.getIntExtra(\"currentAccount\", -1);" ∷ []))
    ∷ edit (codes "!UserConfig.isValidAccount(currentAccount)")
        (codes "!NotificationAccountBinding.isCurrent(intent, currentAccount)")
    ∷ edit
        (codes
          "        AndroidUtilities.runOnUIThread(() -> NotificationsController.getInstance(currentAccount).repeatNotificationMaybe());")
        (block (
          "        final long expectedUserId = NotificationAccountBinding.userId(intent);"
          ∷ "        AndroidUtilities.runOnUIThread(() -> {"
          ∷ "            if (NotificationAccountBinding.isCurrent(currentAccount, expectedUserId)) {"
          ∷ "                NotificationsController.getInstance(currentAccount).repeatNotificationMaybe();"
          ∷ "            }" ∷ "        });" ∷ []))
    ∷ []

unfoldable pub reply_edits : List Edit
reply_edits =
    edit (codes "        ApplicationLoader.postInitApplication();") (
      block (
        "        if (intent == null) {" ∷ "            return;" ∷ "        }"
        ∷ "        ApplicationLoader.postInitApplication();" ∷ []))
    ∷ edit (codes "intent.getIntExtra(\"currentAccount\", 0)")
        (codes "intent.getIntExtra(\"currentAccount\", -1)")
    ∷ edit (codes "!UserConfig.isValidAccount(currentAccount)")
        (codes "!NotificationAccountBinding.isCurrent(intent, currentAccount)")
    ∷ edit
        (codes
          "        AccountInstance accountInstance = AccountInstance.getInstance(currentAccount);")
        (block (
          "        final long expectedUserId = NotificationAccountBinding.userId(intent);"
          ∷ "        AccountInstance accountInstance = AccountInstance.getInstance(currentAccount);"
          ∷ []))
    ∷ edit_times (codes "                Utilities.globalQueue.postRunnable(() -> {")
        (block (
          "                Utilities.globalQueue.postRunnable(() -> {"
          ∷ "                    if (!NotificationAccountBinding.isCurrent(currentAccount, expectedUserId)) {"
          ∷ "                        return;" ∷ "                    }" ∷ []))
        2
    ∷ edit_times (codes "                    AndroidUtilities.runOnUIThread(() -> {")
        (block (
          "                    AndroidUtilities.runOnUIThread(() -> {"
          ∷ "                        if (!NotificationAccountBinding.isCurrent(currentAccount, expectedUserId)) {"
          ∷ "                            return;" ∷ "                        }" ∷ []))
        2
    ∷ []

unfoldable pub wear_edits : List Edit
wear_edits =
    edit_times (codes "sendMessage(accountInstance, text, dialogId, topicId, maxId, voiceMsgIds);")
      (codes
        "sendMessage(accountInstance, expectedUserId, text, dialogId, topicId, maxId, voiceMsgIds);")
      3
    ∷ edit (codes "private void sendMessage(AccountInstance accountInstance, CharSequence text,") (
        codes
          "private void sendMessage(AccountInstance accountInstance, long expectedUserId, CharSequence text,")
    ∷ edit (codes "        MessageObject replyToMsgId = null;") (
        block (
          "        if (!NotificationAccountBinding.isCurrent(accountInstance.getCurrentAccount(), expectedUserId)) {"
          ∷ "            return;" ∷ "        }" ∷ "        MessageObject replyToMsgId = null;"
          ∷ []))
    ∷ []

unfoldable pub callback_edits : List Edit
callback_edits =
    edit (codes "intent.getIntExtra(\"currentAccount\", UserConfig.selectedAccount)")
      (codes "intent.getIntExtra(\"currentAccount\", -1)")
    ∷ edit (codes "!UserConfig.isValidAccount(currentAccount)")
        (codes "!NotificationAccountBinding.isCurrent(intent, currentAccount)")
    ∷ []

unfoldable pub dismiss_edits : List Edit
dismiss_edits =
    edit (codes "        int currentAccount = intent.getIntExtra") (
      block (
        "        ApplicationLoader.postInitApplication();"
        ∷ "        int currentAccount = intent.getIntExtra" ∷ []))
    ∷ []

unfoldable pub copy_edits : List Edit
copy_edits =
    edit (codes "        String text = intent.getStringExtra(\"text\");") (
      block (
        "        ApplicationLoader.postInitApplication();"
        ∷ "        if (intent == null || !NotificationAccountBinding.isCurrent(intent, intent.getIntExtra(\"currentAccount\", -1))) {"
        ∷ "            return;" ∷ "        }"
        ∷ "        String text = intent.getStringExtra(\"text\");" ∷ []))
    ∷ []

unfoldable pub launch_edits : List Edit
launch_edits =
    edit
      (codes
        "    private boolean handleIntent(Intent intent, boolean isNew, boolean restore, boolean fromPassword, Browser.Progress progress, boolean rebuildFragments, boolean openedTelegram) {")
      (block (
        "    private boolean handleIntent(Intent intent, boolean isNew, boolean restore, boolean fromPassword, Browser.Progress progress, boolean rebuildFragments, boolean openedTelegram) {"
        ∷ "        if (intent != null && intent.hasExtra(org.telegram.messenger.NotificationAccountBinding.USER_ID_EXTRA)"
        ∷ "            && !org.telegram.messenger.NotificationAccountBinding.isCurrent(intent, intent.getIntExtra(\"currentAccount\", -1))) {"
        ∷ "            return false;" ∷ "        }" ∷ []))
    ∷ []

unfoldable pub helper_edits : List Edit
helper_edits =
    edit
      (block (
        "    public void sendNotificationCallback(long dialogId, int msgId, byte[] data) {"
        ∷ "        AndroidUtilities.runOnUIThread(() -> {" ∷ []))
      (block (
        "    public void sendNotificationCallback(long dialogId, int msgId, byte[] data) {"
        ∷ "        final long expectedUserId = getUserConfig().getClientUserId();"
        ∷ "        AndroidUtilities.runOnUIThread(() -> {"
        ∷ "            if (!NotificationAccountBinding.isCurrent(currentAccount, expectedUserId)) {"
        ∷ "                return;" ∷ "            }" ∷ []))
    ∷ []

unfoldable pub block_edits : List Edit
block_edits =
    edit
      (codes
        "getConnectionsManager().sendRequest(req, (response, error) -> AndroidUtilities.runOnUIThread(() -> {")
      (block (
        "getConnectionsManager().sendRequest(req, (response, error) -> AndroidUtilities.runOnUIThread(() -> {"
        ∷ "                if (!NotificationAccountBinding.isCurrent(currentAccount, expectedUserId)) {"
        ∷ "                    return;" ∷ "                }" ∷ []))
    ∷ []

-- `replace` stands for the function that the caller passes.
module _ (replace : Text → Text → Text → ℕ → Result Text) where
  -- The edit inside `sendNotificationCallback` alone: up to the next public method.
  unfoldable pub guard_callback : Text → Result Text
  unfolding block_edits
  guard_callback text = do
    start ← index (codes "    public void sendNotificationCallback(") text
    end ← index_from (block ("" ∷ "    public " ∷ [])) text (start + 10)
    block ← apply replace block_edits (take (end - start) (drop start text))
    ok (take start text ++ (block ++ drop end text))

  unfoldable pub receivers_transform : Text → Text → Result Text
  unfolding repeat_edits reply_edits wear_edits callback_edits dismiss_edits copy_edits launch_edits
      helper_edits guard_callback is_suffix
  receivers_transform name text =
      if is_suffix (codes "NotificationRepeat.java") name
      then apply replace repeat_edits text
      else if is_suffix (codes "WearReplyReceiver.java") name
          || is_suffix (codes "AutoMessageHeardReceiver.java") name
      then (do
        guarded ← apply replace reply_edits text
        (if is_suffix (codes "WearReplyReceiver.java") name
            then apply replace wear_edits guarded
            else ok guarded))
      else if is_suffix (codes "NotificationCallbackReceiver.java") name
          || (is_suffix (codes "PopupReplyReceiver.java") name
              || is_suffix (codes "NotificationDismissReceiver.java") name)
      then (do
        guarded ← apply replace callback_edits text
        (if is_suffix (codes "NotificationDismissReceiver.java") name
            then apply replace dismiss_edits guarded
            else ok guarded))
      else if is_suffix (codes "CopyCodeReceiver.java") name
      then apply replace copy_edits text
      else if is_suffix (codes "SendMessagesHelper.java") name
      then (do stamped ← apply replace helper_edits text; guard_callback stamped)
      else if is_suffix (codes "LaunchActivity.java") name
      then apply replace launch_edits text
      else err (value_error "Unknown notification receiver file.")
