-- ===== src/Folders.antt =====
-- The plan and the command line that the scripts ci/folders/prepare_*.py share, each with its own
-- copy: read the pinned file, compare its hash, transform it, compare the hash of the result, and
-- write only then. `sha256` stands for `hashlib.sha256(raw).hexdigest()`.
pub mod Plan
pub mod AndroidFolders
pub mod AndroidCallbacks
pub mod WindowsFolders
pub mod Bulk
pub mod Reconcile
pub mod Mutations
pub mod Effects
use capybaragram_build.Prelude.{
  ℕ, Bool, true, false, ◌&&◌, List, [], ◌∷◌, ◌++◌, String, Option, none, some, if◌then◌else◌, Error,
  Result, ok, err, value_error, value_error_at, ◌>>=◌, ◌>>◌, require, every, map,
}
use capybaragram_build.Text.{Text, codes, text_eq, normalized, listed}
use capybaragram_build.Text.Utf8.{decode, encode}
use capybaragram_build.Checkout.{Checkout, read_bytes, write_bytes, write_all, regular, lookup}

abbrev pub windows_sha : Text
windows_sha = codes "80158983dba09d3bf5d96701f21473d6c34bf5f5"

abbrev pub android_sha : Text
android_sha = codes "62b56a07ca7e30e39f7fd00a6728d6bbd716ca1c"

-- The hashes of one file before and behind the change, as the script's JSON file has them.
pub record Pins : Type 0 where
  pub pre : Text
  pub post : Text

-- The same for several files, by name.
pub record Manifest : Type 0 where
  pub pre : List (Text × Text)
  pub post : List (Text × Text)

-- What a script says where it refuses.
pub record Messages : Type 0 where
  pub unsafe : String
  pub source : String
  pub output : String

-- `raw if check else transform(raw.decode('utf-8')).encode('utf-8')`
unfoldable pub produce : (Text → Result Text) → Bool → Text → Result Text
produce transform true raw = ok raw
produce transform false raw = do text ← decode raw; changed ← transform text; encode changed

-- `set(keys) == set(files)`
unfoldable pub same_names : List (Text × Text) → List Text → Bool
unfolding listed every
same_names table files =
    every (λ entry. listed entry.0 files) table
    && every (λ name. listed name (map (λ (entry : Text × Text). entry.0) table)) files

module _ (sha256 : Text → Text) where
  unfoldable pub digest : Text → Text
  unfolding normalized
  digest raw = sha256 (normalized raw)

  -- `plan(source, check)` of a script for one file
  unfoldable pub plan_one :
      Messages → Text → (Text → Result Text) → Pins → Checkout → Bool → Result Text
  unfolding digest regular read_bytes produce
  plan_one say name transform pins c check = do
    regular c name (value_error say.unsafe)
    bytes ← read_bytes c name
    let raw = normalized bytes
    require (text_eq (digest raw) (if check then pins.post else pins.pre)) (value_error say.source)
    result ← produce transform check raw
    require (text_eq (digest result) pins.post) (value_error say.output)
    ok result

  -- The command line of such a script: the revision, the plan, and the write unless `--check`.
  unfoldable pub run_one :
      Text
      → Error
      → Messages
      → Text
      → (Text → Result Text)
      → Pins
      → Checkout
      → Bool
      → Result Checkout
  run_one revision wrong say name transform pins c check = do
    require (text_eq c.head revision) wrong
    result ← plan_one say name transform pins c check
    ok (if check then c else write_bytes c name result)

  -- The body of the loop of `plan` in a script for several files.
  unfoldable pub plan_file :
      (Text → Text → Result Text) → Manifest → Checkout → Bool → Text → Result Text
  unfolding digest regular read_bytes produce lookup
  plan_file transform hashes c check name = do
    regular c name (value_error "Unsafe source path")
    bytes ← read_bytes c name
    let raw = normalized bytes
    expected ← lookup name (if check then hashes.post else hashes.pre)
    require (text_eq (digest raw) expected) (value_error_at "Pinned source differs: " name)
    output ← produce (transform name) check raw
    post ← lookup name hashes.post
    require (text_eq (digest output) post) (value_error "Output differs")
    ok output

  unfoldable pub plan_loop :
      (Text → Text → Result Text)
      → Manifest
      → Checkout
      → Bool
      → List Text
      → Result (List (Text × Text))
  unfolding plan_file
  plan_loop transform hashes c check [] = ok []
  plan_loop transform hashes c check (name ∷ names) =
      let rest = plan_loop transform hashes c check names in
      do
        output ← plan_file transform hashes c check name
        planned ← rest
        ok ((name, output) ∷ planned)

  unfoldable pub plan_files :
      List Text
      → (Text → Text → Result Text)
      → Manifest
      → Checkout
      → Bool
      → Result (List (Text × Text))
  unfolding plan_loop same_names
  plan_files files transform hashes c check = do
    require (same_names hashes.pre files && same_names hashes.post files)
        (value_error "Wrong allowlist")
    plan_loop transform hashes c check files

  unfoldable pub run_files :
      List Text → (Text → Text → Result Text) → Manifest → Checkout → Bool → Result Checkout
  run_files files transform hashes c check = do
    require (text_eq c.head windows_sha) (value_error "Wrong Windows revision")
    prepared ← plan_files files transform hashes c check
    ok (if check then c else write_all c prepared)
