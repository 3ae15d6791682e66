-- ===== src/Patch.antt =====
-- Replacements that are refused unless the old text occurs as often as was reviewed: the helper
-- `replace`, `replace_once` or `once` of each preparation script under ci/.
pub mod Unique
pub mod Settled
use capybaragram_build.Prelude.{
  ℕ, zero, suc, String, Bool, List, [], ◌∷◌, ◌==◌, take, value_error_at, Result, ok, err,
  value_error, ◌>>=◌, ◌>>◌, require,
}
use capybaragram_build.Text.{Text, count, replace_all}

-- `if text.count(old) != times: raise ValueError(message)`, then `text.replace(old, new)`
unfoldable pub exchange : String → Text → Text → Text → ℕ → Result Text
exchange message text old new times = do
  require (count old text == times) (value_error message)
  ok (replace_all old new text)

-- The same, with the start of the anchor in the message.
unfoldable pub exchange_at : String → ℕ → Text → Text → Text → ℕ → Result Text
exchange_at message limit text old new times = do
  require (count old text == times) (value_error_at message (take limit old))
  ok (replace_all old new text)

pub record Edit : Type 0 where
  pub old : Text
  pub new : Text
  pub times : ℕ

-- One edit, of an anchor that must occur once.
abbrev pub edit : Text → Text → Edit
edit old new = record { old = old; new = new; times = 1 }

abbrev pub edit_times : Text → Text → ℕ → Edit
edit_times old new times = record { old = old; new = new; times = times }

-- `text = replace(text, old, new, times)` for each edit in turn
unfoldable pub apply : (Text → Text → Text → ℕ → Result Text) → List Edit → Text → Result Text
apply replace [] text = ok text
apply replace (e ∷ es) text = replace text e.old e.new e.times >>= apply replace es
