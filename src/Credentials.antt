-- ===== src/Credentials.antt =====
-- ci/api_credentials.py: the checks of the application id and hash, from the environment and from a
-- file, and the CMake cache written for Windows.
pub mod Number
pub mod Accepted
pub mod Entries
use capybaragram_build.Prelude.{
  ℕ, ◌+◌, ◌-◌, ◌*◌, Bool, true, false, not, ◌&&◌, ◌||◌, List, [], ◌∷◌, ◌++◌, length, take, drop,
  every, leb, ◌==◌, if◌then◌else◌, Option, none, some, Result, ok, err, credential_error, os_error,
  unicode_error, ◌>>=◌, ◌>>◌, require, refuse, Error,
}
use capybaragram_build.Text.{Text, codes, text_eq, is_prefix, listed}
use capybaragram_build.Text.Lines.{strip, splitlines}
use capybaragram_build.Text.Utf8.{decode}

unfoldable pub is_digit : ℕ → Bool
is_digit c = leb 48 c && leb c 57

-- `int(text)` of digits, by Horner's rule
unfoldable pub value_from : ℕ → Text → ℕ
value_from n [] = n
value_from n (c ∷ cs) = value_from (n * 10 + (c - 48)) cs

abbrev pub value : Text → ℕ
value text = value_from 0 text

-- `re.fullmatch(r'[1-9][0-9]{0,9}', text)`
unfoldable pub is_id : Text → Bool
unfolding is_digit every
is_id [] = false
is_id (c ∷ cs) = (leb 49 c && leb c 57) && (every is_digit cs && leb (length cs) 9)

unfoldable pub is_hex : ℕ → Bool
unfolding is_digit
is_hex c = is_digit c || ((leb 97 c && leb c 102) || (leb 65 c && leb c 70))

-- `re.fullmatch(r'[0-9a-fA-F]{32}', text)`
unfoldable pub is_hash : Text → Bool
unfolding is_hex every
is_hash text = every is_hex text && (length text == 32)

-- `env.get(name, '')`
unfoldable pub get : Text → List (Text × Text) → Text
unfolding text_eq
get name [] = []
get name ((k, v) ∷ env) = elim (text_eq name k) [ true ↦ v | false ↦ get name env ]

abbrev pub id_name : Text
id_name = codes "CAPY_API_ID"

abbrev pub hash_name : Text
hash_name = codes "CAPY_API_HASH"

abbrev pub samples : List Text
samples = codes "6" ∷ codes "17349" ∷ []

unfoldable pub credentials : List (Text × Text) → Result (Text × Text)
unfolding is_id value_from is_hash get text_eq listed
credentials env = do
  let api_id = get id_name env
  let api_hash = get hash_name env
  require (is_id api_id) (credential_error "CAPY_API_ID must be a positive decimal application ID.")
  require (leb (value api_id) 2147483647)
      (credential_error "CAPY_API_ID exceeds the Telegram int32 range.")
  require (is_hash api_hash)
      (credential_error "CAPY_API_HASH must contain exactly 32 hexadecimal characters.")
  refuse (listed api_id samples)
      (credential_error "Upstream sample application IDs are not accepted.")
  ok (api_id, api_hash)

-- The file the user named: whether it is a link, whether it is a file, and its bytes if it opens.
pub record Source : Type 0 where
  pub symlink : Bool
  pub is_file : Bool
  pub bytes : Option Text

-- `line.partition(chr(mark))`, `none` where the separator is missing
unfoldable pub partition : ℕ → Text → Option (Text × Text)
partition mark [] = none
partition mark (c ∷ cs) = elim (c == mark) [
  | true ↦ some ([], cs)
  | false ↦ elim (partition mark cs) [ none ↦ none | some (a, b) ↦ some (c ∷ a, b) ]
]

abbrev pub file_id : Text
file_id = codes "api_id"

abbrev pub file_hash : Text
file_hash = codes "api_hash"

abbrev pub expected_entry : Error
expected_entry = credential_error "Expected exactly one api_id and one api_hash entry."

-- `name in values`
unfoldable pub has_key : Text → List (Text × Text) → Bool
unfolding text_eq
has_key name [] = false
has_key name ((k, v) ∷ values) = text_eq name k || has_key name values

-- The body of the loop over the lines, on `line.strip()` and on `line.partition('=')`.
unfoldable pub add_split :
    List (Text × Text) → Text → Option (Text × Text) → Result (List (Text × Text))
unfolding strip listed has_key text_eq
add_split values [] parts = ok values
add_split values (c ∷ cs) none = err expected_entry
add_split values (c ∷ cs) (some (before, behind)) = do
  let name = strip before
  require (listed name (file_id ∷ file_hash ∷ [])) expected_entry
  refuse (has_key name values) expected_entry
  ok ((name, strip behind) ∷ values)

unfoldable pub add_entry : List (Text × Text) → Text → Result (List (Text × Text))
unfolding add_split partition
add_entry values line = add_split values (strip line) (partition 61 line)

unfoldable pub entries : List (Text × Text) → List Text → Result (List (Text × Text))
unfolding add_entry
entries values [] = ok values
entries values (line ∷ lines) = do more ← add_entry values line; entries more lines

-- The bytes of a mark at the start of a file.
abbrev pub utf16_le : Text
utf16_le = 0xFF ∷ 0xFE ∷ []

abbrev pub utf16_be : Text
utf16_be = 0xFE ∷ 0xFF ∷ []

abbrev pub utf8_mark : Text
utf8_mark = 0xEF ∷ 0xBB ∷ 0xBF ∷ []

-- `data.decode('utf-8-sig')`
unfoldable pub decode_sig : Text → Result Text
unfolding is_prefix decode
decode_sig raw = if is_prefix utf8_mark raw then decode (drop 3 raw) else decode raw

abbrev pub cannot_read : Error
cannot_read = credential_error "Cannot read credential file."

-- `except (OSError, UnicodeError): raise CredentialError`
unfoldable pub unreadable {ℓ} : {A : Type ℓ} → Result A → Result A
unreadable (ok a) = ok a
unreadable (err os_error) = err cannot_read
unreadable (err unicode_error) = err cannot_read
unreadable (err e) = err e

-- The two entries of a file, under the names of the environment.
unfoldable pub from_file : List (Text × Text) → List (Text × Text)
unfolding get
from_file values = (id_name, get file_id values) ∷ (hash_name, get file_hash values) ∷ []

-- `decode_utf16` stands for `data.decode('utf-16')`.
module _ (decode_utf16 : Text → Result Text) where
  unfoldable pub read_text : Source → Result Text
  unfolding is_prefix decode_sig
  read_text source = do
    bytes ← elim source.bytes [ none ↦ err os_error | some bytes ↦ ok bytes ]
    let raw = take 4097 bytes
    require (leb (length raw) 4096) (credential_error "Credential file is larger than expected.")
    (if is_prefix utf16_le raw || is_prefix utf16_be raw then decode_utf16 raw else decode_sig raw)

  unfoldable pub read_credentials_file : Source → Result (Text × Text)
  unfolding unreadable read_text splitlines entries from_file credentials
  read_credentials_file source = do
    refuse (source.symlink || not source.is_file)
        (credential_error "Credential file must be a regular file.")
    text ← unreadable (read_text source)
    values ← entries [] (splitlines text)
    credentials (from_file values)

-- The text of the cache.
unfoldable pub cache_text : Text → Text → Text
cache_text api_id api_hash =
    codes "set(TDESKTOP_API_TEST OFF CACHE BOOL \"\" FORCE)\nset(TDESKTOP_API_ID \""
    ++ (api_id
        ++ (codes "\" CACHE STRING \"\" FORCE)\nset(TDESKTOP_API_HASH \""
            ++ (api_hash ++ codes "\" CACHE STRING \"\" FORCE)\n")))

-- `write_windows_cache` with `existing` at the destination: `open('x')` refuses to replace a file.
unfoldable pub write_windows_cache : Option Text → List (Text × Text) → Result Text
unfolding credentials cache_text
write_windows_cache existing env = do
  (api_id, api_hash) ← credentials env
  elim existing [ none ↦ ok (cache_text api_id api_hash) | some old ↦ err os_error ]
