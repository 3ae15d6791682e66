-- ===== src/Accounts/Android/Prepare.antt =====
-- `plan`, `apply` and `check` of ci/accounts/android_accounts_patch.py. `sha256` stands for
-- `hashlib.sha256(raw).hexdigest()`, and `is_word` for the class `\w` of `re`.
use capybaragram_build.Prelude.{
  ℕ, Bool, true, false, List, [], ◌∷◌, ◌++◌, none, some, Result, ok, value_error, ◌>>=◌, ◌>>◌,
  require, refuse,
}
use capybaragram_build.Text.{Text, text_eq, normalized}
use capybaragram_build.Text.Utf8.{decode, encode}
use capybaragram_build.Checkout.{Checkout, read_bytes, write_all, regular, lookup}
use capybaragram_build.Folders.{android_sha, same_names}
use capybaragram_build.Accounts.Android.{files, binding, transform}
use capybaragram_build.Accounts.Binding.{binding_source}

module _ (sha256 : Text → Text) (is_word : ℕ → Bool) (manifest : List (Text × Text))
    (c : Checkout) where
  -- `transform(name, raw.decode('utf-8')).encode('utf-8')`
  unfoldable pub changed : Text → Text → Result Text
  unfolding transform decode encode
  changed name raw = do text ← decode raw; output ← transform is_word name text; encode output

  -- The body of the loop of `plan`.
  unfoldable pub plan_name : Text → Result Text
  unfolding regular read_bytes normalized lookup changed
  plan_name name = do
    regular c name (value_error "Source path outside checkout.")
    bytes ← read_bytes c name
    let raw = normalized bytes
    hash ← lookup name manifest
    require (text_eq (sha256 raw) hash) (value_error "Source bytes differ from pinned revision.")
    changed name raw

  -- The body of the first loop of `check`.
  unfoldable pub expected_name : Text → Result Text
  unfolding normalized lookup changed
  expected_name name = do
    committed ← c.committed name
    let raw = normalized committed
    hash ← lookup name manifest
    require (text_eq (sha256 raw) hash) (value_error "Pinned source content differs.")
    changed name raw

  unfoldable pub each : (Text → Result Text) → List Text → Result (List (Text × Text))
  each body [] = ok []
  each body (name ∷ names) =
      let rest = each body names in do output ← body name; more ← rest; ok ((name, output) ∷ more)

  -- `(root/BINDING).exists()`
  unfoldable pub has_binding : Bool
  has_binding = elim (c.file binding) [ none ↦ false | some raw ↦ true ]

  unfoldable pub plan : Result (List (Text × Text))
  unfolding same_names plan_name each has_binding encode
  plan = do
    require (same_names manifest files) (value_error "Input manifest differs.")
    result ← each plan_name files
    refuse has_binding (value_error "New account binding source already exists.")
    source ← encode binding_source
    ok (result ++ (binding, source) ∷ [])

  unfoldable pub apply : Result Checkout
  unfolding plan write_all
  apply = do
    require (text_eq c.head android_sha) (value_error "Unexpected Android source revision.")
    prepared ← plan
    ok (write_all c prepared)

  -- The body of the second loop of `check`.
  unfoldable pub same_source : Text × Text → Result (Unit {0})
  unfolding regular read_bytes normalized
  same_source (name, expected) = do
    regular c name (value_error "Prepared account source differs.")
    bytes ← read_bytes c name
    require (text_eq (normalized bytes) expected) (value_error "Prepared account source differs.")

  unfoldable pub same_sources : List (Text × Text) → Result (Unit {0})
  unfolding same_source
  same_sources [] = ok tt
  same_sources (entry ∷ entries) = let rest = same_sources entries in do same_source entry; rest

  unfoldable pub check : Result (Unit {0})
  unfolding same_names expected_name each same_sources encode
  check = do
    require (text_eq c.head android_sha) (value_error "Unexpected Android source revision.")
    require (same_names manifest files) (value_error "Input manifest differs.")
    source ← encode binding_source
    expected ← each expected_name files
    same_sources ((binding, source) ∷ expected)
