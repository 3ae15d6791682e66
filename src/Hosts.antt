-- ===== src/Hosts.antt =====
-- The plan that the scripts which connect a Windows component to its native hosts share, each with its
-- own copy: ci/windows-archive/prepare_windows_archive.py and
-- ci/windows-connection-native/prepare_windows_connection.py. A script edits the host files that it
-- names and adds its payload files to the tree. `sha256` stands for `hashlib.sha256(raw).hexdigest()`.
pub mod Pinned
pub mod Written
pub mod Applied
pub mod Checked
pub mod Archive
pub mod Connection
pub mod Notes
pub mod Voice
pub mod ReadMode
pub mod Effects
use capybaragram_build.Prelude.{
  ℕ, Bool, true, false, not, ◌&&◌, ◌||◌, List, [], ◌∷◌, ◌++◌, map, String, Option, none, some,
  if◌then◌else◌, Result, ok, err, Error, value_error, value_error_at, ◌>>=◌, ◌>>◌, require, refuse,
}
use capybaragram_build.Text.{Text, text_eq, normalized}
use capybaragram_build.Checkout.{Checkout, read_bytes, write_all, regular, lookup}
use capybaragram_build.Patch.{Edit}
use capybaragram_build.Folders.{windows_sha, digest, produce, same_names}

-- The hashes of a script: of its hosts before and behind the change, and of its payloads.
pub record Manifest : Type 0 where
  pub source_sha : Text
  pub pre : List (Text × Text)
  pub post : List (Text × Text)
  pub added : List (Text × Text)

-- What a script says where it refuses.
pub record Messages : Type 0 where
  pub allowlist : String
  pub host_escapes : String
  pub host_input : String
  pub host_output : String
  pub payload_escapes : String
  pub payload_input : String
  pub target_escapes : String
  pub installed : String
  pub overwrite : String

-- `if name == a: ... if name == b: ...`, as a table of the edits of each file
unfoldable pub row : Text → List (Text × List Edit) → Option (List Edit)
unfolding text_eq
row name [] = none
row name ((n, es) ∷ table) = elim (text_eq name n) [ true ↦ some es | false ↦ row name table ]

-- `target.exists()`
unfoldable pub exists : Checkout → Text → Bool
exists c name = elim (c.file name) [ none ↦ c.other name | some raw ↦ true ]

-- A loop that collects what its body gives.
unfoldable pub collect {ℓ} :
    {A : Type ℓ} → (A → Result (List (Text × Text))) → List A → Result (List (Text × Text))
collect body [] = ok []
collect body (x ∷ xs) =
    let rest = collect body xs in do here ← body x; more ← rest; ok (here ++ more)

-- Whether the manifest names just the files of the script.
unfoldable pub allowed : Manifest → List Text → List (Text × Text) → Bool
unfolding text_eq same_names
allowed hashes files added =
    text_eq hashes.source_sha windows_sha
    && (same_names hashes.pre files
        && (same_names hashes.post files
            && same_names hashes.added (map (λ (entry : Text × Text). entry.0) added)))

-- `payloads` is the tree of the script's own files, and `added` gives each payload's path in the
-- tree and in `payloads`.
module _ (sha256 : Text → Text) (say : Messages) (transform : Text → Text → Result Text)
    (hashes : Manifest) (c payloads : Checkout) (check : Bool) where
  -- The body of the loop over the hosts: what it puts into `result`.
  unfoldable pub plan_host : Text → Result (List (Text × Text))
  unfolding regular read_bytes digest lookup produce
  plan_host name = do
    regular c name (value_error say.host_escapes)
    bytes ← read_bytes c name
    let raw = normalized bytes
    expected ← lookup name (if check then hashes.post else hashes.pre)
    require (text_eq (digest sha256 raw) expected) (value_error_at say.host_input name)
    output ← produce (transform name) check raw
    post ← lookup name hashes.post
    require (text_eq (digest sha256 output) post) (value_error_at say.host_output name)
    ok (if check then [] else (name, output) ∷ [])

  -- `target.is_file() and digest(target.read_bytes()) == digest(data)`
  unfoldable pub is_installed : Text → Text → Bool
  unfolding digest
  is_installed name raw = elim (c.file name) [
    | none ↦ false
    | some installed ↦ text_eq (digest sha256 installed) (digest sha256 raw)
  ]

  -- The body of the loop over the payloads.
  unfoldable pub plan_payload : Text × Text → Result (List (Text × Text))
  unfolding regular read_bytes digest lookup is_installed exists
  plan_payload (name, source) = do
    regular payloads source (value_error say.payload_escapes)
    bytes ← read_bytes payloads source
    let raw = normalized bytes
    expected ← lookup name hashes.added
    require (text_eq (digest sha256 raw) expected) (value_error_at say.payload_input name)
    refuse (c.symlink name || not (c.within name)) (value_error say.target_escapes)
    (if check
        then (do require (is_installed name raw) (value_error_at say.installed name); ok [])
        else (do refuse (exists c name) (value_error say.overwrite); ok ((name, raw) ∷ [])))

  unfoldable pub plan : List Text → List (Text × Text) → Result (List (Text × Text))
  unfolding allowed plan_host plan_payload collect
  plan files added = do
    require (allowed hashes files added) (value_error say.allowlist)
    hosts ← collect plan_host files
    extra ← collect plan_payload added
    ok (hosts ++ extra)

  -- The command line: the revision, the plan, and the writes unless `--check`.
  unfoldable pub run : Error → List Text → List (Text × Text) → Result Checkout
  unfolding plan write_all
  run wrong files added = do
    require (text_eq c.head windows_sha) wrong
    changes ← plan files added
    ok (if check then c else write_all c changes)
