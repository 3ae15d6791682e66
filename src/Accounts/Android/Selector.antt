-- ===== src/Accounts/Android/Selector.antt =====
-- `native_selector` of ci/accounts/android_accounts_patch.py.
use capybaragram_build.Prelude.{ℕ, zero, suc, List, [], ◌∷◌, ◌++◌}
use capybaragram_build.Text.{Text, codes, newline, join}
use capybaragram_build.Text.Decimal.{decimal}

-- `CAPACITY`
abbrev pub capacity : ℕ
capacity = 10

-- The lines of one slot.
unfoldable pub slot_lines : ℕ → List Text
unfolding decimal
slot_lines slot =
    (codes "        case " ++ (decimal slot ++ codes ":"))
    ∷ (codes "            static ConnectionsManager instance"
        ++ (decimal slot ++ (codes "(" ++ (decimal slot ++ codes ");"))))
    ∷ (codes "            return instance" ++ (decimal slot ++ codes ";"))
    ∷ []

-- The slots from 0 up to `n`, in order: `for slot in range(n)`.
unfoldable pub slots : ℕ → List Text
unfolding slot_lines
slots zero = []
slots (suc n) = slots n ++ slot_lines n

unfoldable pub native_selector : Text
unfolding slots join decimal
native_selector = join newline (
    (codes "ConnectionsManager& ConnectionsManager::getInstance(int32_t instanceNum) {"
      ∷ (codes "    static_assert(MAX_ACCOUNT_COUNT == "
          ++ (decimal capacity ++ codes ", \"Account selector and capacity must agree\");"))
      ∷ codes "    switch (instanceNum) {"
      ∷ [])
    ++ (slots capacity
        ++ (codes "        default:"
            ∷ codes "            std::abort();"
            ∷ codes "    }"
            ∷ codes "}"
            ∷ [])))
