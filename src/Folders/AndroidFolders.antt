-- ===== src/Folders/AndroidFolders.antt =====
-- ci/folders/prepare_android_folders.py: reject failed folder mutations in the native Android editor.
use capybaragram_build.Prelude.{ℕ, Bool, List, [], ◌∷◌, Result, value_error, ◌++◌}
use capybaragram_build.Text.{Text, codes, block}
use capybaragram_build.Checkout.{Checkout}
use capybaragram_build.Patch.{Edit, edit, exchange, apply}
use capybaragram_build.Folders.{Pins, Messages, android_sha, plan_one, run_one}

abbrev pub name : Text
name = codes "TMessagesProj/src/main/java/org/telegram/ui/FilterCreateActivity.java"

-- `once`
unfoldable pub once : Text → Text → Text → ℕ → Result Text
once = exchange "Folder mutation anchor differs"

-- `HELPER`
abbrev helper : Text
helper = block (
    "    private static boolean capyFilterRequestAccepted(org.telegram.tgnet.TLObject response, TLRPC.TL_error error, BaseFragment fragment) {"
    ∷ "        if (error == null && response instanceof TLRPC.TL_boolTrue) {"
    ∷ "            return true;" ∷ "        }"
    ∷ "        if (fragment.getParentActivity() != null) {"
    ∷ "            if (error != null && !TextUtils.isEmpty(error.text)) {"
    ∷ "                processErrors(error, fragment, BulletinFactory.of(fragment));"
    ∷ "            } else {"
    ∷ "                BulletinFactory.of(fragment).createErrorBulletin(LocaleController.getString(R.string.UnknownError)).show();"
    ∷ "            }" ∷ "        }" ∷ "        return false;" ∷ "    }" ∷ "" ∷ "" ∷ [])

unfoldable pub edits : List Edit
edits =
    edit (codes "    public static void saveFilterToServer(")
      (helper ++ codes "    public static void saveFilterToServer(")
    ∷ edit (codes "                    getMessagesController().removeFilter(filter);") (
        block (
          "                    if (!capyFilterRequestAccepted(response, error, FilterCreateActivity.this)) {"
          ∷ "                        return;" ∷ "                    }"
          ∷ "                    getMessagesController().removeFilter(filter);" ∷ []))
    ∷ edit
        (block (
          "                processAddFilter(filter, newFilterFlags, newFilterName, newFilterNameEntities, newFilterNoanimate, newFilterColor, newAlwaysShow, newNeverShow, creatingNew, atBegin, hasUserChanged, resetUnreadCounter, fragment, onFinish);"
          ∷ "            } else if (onFinish != null) {" ∷ []))
        (block (
          "            }"
          ∷ "            if (!capyFilterRequestAccepted(response, error, fragment)) {"
          ∷ "                if (!progress) {"
          ∷ "                    // Existing chat-list actions update optimistically. Request"
          ∷ "                    // authoritative server state after a rejected mutation."
          ∷ "                    messagesController.loadRemoteFilters(true);" ∷ "                }"
          ∷ "                return;" ∷ "            }" ∷ "            if (progress) {"
          ∷ "                processAddFilter(filter, newFilterFlags, newFilterName, newFilterNameEntities, newFilterNoanimate, newFilterColor, newAlwaysShow, newNeverShow, creatingNew, atBegin, hasUserChanged, resetUnreadCounter, fragment, onFinish);"
          ∷ "            } else if (onFinish != null) {" ∷ []))
    ∷ []

unfoldable pub transform : Text → Result Text
unfolding once edits
transform text = apply once edits text

abbrev pub messages : Messages
messages = record {
  unsafe = "Unsafe folder source path";
  source = "Pinned folder source differs";
  output = "Folder output differs";
}

unfoldable pub plan : (Text → Text) → Pins → Checkout → Bool → Result Text
unfolding transform
plan sha256 pins c check = plan_one sha256 messages name transform pins c check

unfoldable pub run : (Text → Text) → Pins → Checkout → Bool → Result Checkout
unfolding transform
run sha256 pins c check =
    run_one sha256 android_sha (value_error "Wrong Android revision") messages name transform pins c
      check
