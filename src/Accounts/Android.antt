-- ===== src/Accounts/Android.antt =====
-- ci/accounts/android_accounts_patch.py: ten account slots in the pinned Android source.
pub mod Selector
pub mod Prepare
pub mod Intents
use capybaragram_build.Prelude.{
  ℕ, Bool, ◌&&◌, List, [], ◌∷◌, ◌++◌, ◌==◌, take, drop, Result, ok, err, value_error, ◌>>=◌, ◌>>◌,
  require, if◌then◌else◌,
}
use capybaragram_build.Text.{Text, codes, block, count, text_eq, replace_all, listed, newline}
use capybaragram_build.Text.Slice.{index, index_from}
use capybaragram_build.Patch.{Edit, edit, exchange, apply}
use capybaragram_build.Accounts.Binding.{receivers_transform}
use Selector.{native_selector}
use Intents.{bind_intents}

abbrev pub config : Text
config = codes "TMessagesProj/src/main/java/org/telegram/messenger/UserConfig.java"

abbrev pub defines : Text
defines = codes "TMessagesProj/jni/tgnet/Defines.h"

abbrev pub connections : Text
connections = codes "TMessagesProj/jni/tgnet/ConnectionsManager.cpp"

abbrev pub notifications : Text
notifications =
    codes "TMessagesProj/src/main/java/org/telegram/messenger/NotificationsController.java"

abbrev pub info : Text
info = codes "TMessagesProj/src/main/java/org/telegram/ui/UserInfoActivity.java"

abbrev pub binding : Text
binding = codes "TMessagesProj/src/main/java/org/telegram/messenger/NotificationAccountBinding.java"

abbrev pub receivers : List Text
receivers =
    codes "TMessagesProj/src/main/java/org/telegram/messenger/WearReplyReceiver.java"
    ∷ codes "TMessagesProj/src/main/java/org/telegram/messenger/AutoMessageHeardReceiver.java"
    ∷ codes "TMessagesProj/src/main/java/org/telegram/messenger/NotificationCallbackReceiver.java"
    ∷ codes "TMessagesProj/src/main/java/org/telegram/messenger/PopupReplyReceiver.java"
    ∷ codes "TMessagesProj/src/main/java/org/telegram/messenger/NotificationDismissReceiver.java"
    ∷ codes "TMessagesProj/src/main/java/org/telegram/messenger/CopyCodeReceiver.java"
    ∷ codes "TMessagesProj/src/main/java/org/telegram/messenger/NotificationRepeat.java"
    ∷ codes "TMessagesProj/src/main/java/org/telegram/messenger/SendMessagesHelper.java"
    ∷ codes "TMessagesProj/src/main/java/org/telegram/ui/LaunchActivity.java"
    ∷ []

abbrev pub files : List Text
files = config ∷ defines ∷ connections ∷ notifications ∷ info ∷ receivers

unfoldable pub replace : Text → Text → Text → ℕ → Result Text
replace = exchange "Source anchor differs from reviewed account patch."

unfoldable pub config_edits : List Edit
config_edits =
    edit (codes "MAX_ACCOUNT_DEFAULT_COUNT = 3;") (codes "MAX_ACCOUNT_DEFAULT_COUNT = 10;")
    ∷ edit (codes "MAX_ACCOUNT_COUNT = 4;") (codes "MAX_ACCOUNT_COUNT = 10;")
    ∷ edit (codes "return hasPremiumOnAccounts() ? 5 : 3;") (codes "return MAX_ACCOUNT_COUNT;")
    ∷ []

unfoldable pub defines_edits : List Edit
defines_edits =
    edit (codes "#define MAX_ACCOUNT_COUNT 5") (codes "#define MAX_ACCOUNT_COUNT 10") ∷ []

abbrev selector_start : Text
selector_start = codes "ConnectionsManager& ConnectionsManager::getInstance(int32_t instanceNum) {"

abbrev selector_end : Text
selector_end = block ("" ∷ "int ConnectionsManager::callEvents(" ∷ [])

unfoldable pub select : Text → Result Text
unfolding native_selector
select text = do
  start ← index selector_start text
  end ← index_from selector_end text start
  ok (take start text ++ (native_selector ++ (newline ++ drop end text)))

abbrev notify : Text
notify = codes "notificationManager.notify("

abbrev cancel : Text
cancel = codes "notificationManager.cancel("

abbrev tag : Text
tag = codes "\"capybaragram.account.\" + currentAccount, "

abbrev info_start : Text
info_start = block (
    "            if (!UserConfig.hasPremiumOnAccounts()) {"
    ∷ "                final int moreAccounts" ∷ [])

abbrev info_end : Text
info_end = block ("" ∷ "        }" ∷ "        logoutRow" ∷ [])

unfoldable pub shadow : Text → Result Text
shadow text = do
  start ← index info_start text
  end ← index_from info_end text start
  ok (take start text ++ (codes "            items.add(UItem.asShadow(null));" ++ drop end text))

-- `is_word` is the class `\w` of `re`, which follows the Unicode tables.
module _ (is_word : ℕ → Bool) where
  -- Notifications are told apart by a tag for each account, and pending intents are bound to one.
  unfoldable pub tag_notifications : Text → Result Text
  unfolding bind_intents
  tag_notifications text = do
    require (count notify text == 4 && count cancel text == 7)
        (value_error "Notification call inventory changed.")
    let tagged = replace_all cancel (cancel ++ tag) (replace_all notify (notify ++ tag) text)
    let (bound, found) = bind_intents is_word tagged
    require (found == 13) (value_error "Notification PendingIntent inventory changed.")
    ok bound

  unfoldable pub transform : Text → Text → Result Text
  unfolding replace config_edits defines_edits select shadow tag_notifications text_eq listed
  transform name text =
      if text_eq name config
      then apply replace config_edits text
      else if text_eq name defines
      then apply replace defines_edits text
      else if text_eq name connections
      then select text
      else if text_eq name notifications
      then tag_notifications text
      else if text_eq name info
      then shadow text
      else if listed name receivers
      then receivers_transform replace name text
      else err (value_error "File outside account patch allowlist.")
