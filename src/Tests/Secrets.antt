-- ===== src/Tests/Secrets.antt =====
-- The theorems on credentials at concrete inputs.
use capybaragram_build.Prelude.{
  true, false, not, ◌||◌, List, [], ◌∷◌, ◌≡◌, refl, every, length, arith, Result, ok, err,
  unicode_error, some,
}
use capybaragram_build.Text.{Text, codes, is_prefix, text_eq, listed}
use capybaragram_build.Text.Lines.{splitlines, strip, lstrip, rstrip, is_space}
use capybaragram_build.Text.Utf8.{decode}
use capybaragram_build.Credentials.{
  is_id, is_digit, is_hash, is_hex, value_from, get, id_name, hash_name, credentials, Source,
  read_text, read_credentials_file, entries, add_entry, add_split, partition, has_key, unreadable,
  decode_sig, from_file, file_id, file_hash,
}
use capybaragram_build.Credentials.Number.{value_injective}
use capybaragram_build.Credentials.Accepted.{Accepted, credentials-Accepted, credentials_complete}
use capybaragram_build.Credentials.Entries.{times_named, read_credentials_file_once}

abbrev id : Text
id = codes "12345"

abbrev hash : Text
hash = codes "0123456789abcdef0123456789ABCDEF"

abbrev env : List (Text × Text)
env = (id_name, id) ∷ (hash_name, hash) ∷ []

credentials-Accepted_example :
    (id ≡ get id_name env) × (hash ≡ get hash_name env) × Accepted id hash
unfolding credentials is_id is_digit is_hash is_hex value_from get text_eq listed every
credentials-Accepted_example = credentials-Accepted env id hash refl

accepted : Accepted (get id_name env) (get hash_name env)
unfolding is_hex is_digit value_from get text_eq every length
accepted = record {
  positive = omega arith;
  int32 = omega arith;
  no_sample = (omega arith, omega arith);
  hash_length = refl;
  hash_hex = refl;
}

credentials_complete_example : credentials env ≡ ok (get id_name env, get hash_name env)
unfolding is_id is_digit value_from get text_eq every
credentials_complete_example = credentials_complete env refl accepted

value_injective_example : codes "17349" ≡ codes "17349"
unfolding is_id is_digit value_from every
value_injective_example = value_injective (codes "17349") (codes "17349") refl refl refl

abbrev source : Source
source = record {
  symlink = false;
  is_file = true;
  bytes = some (codes "api_id = 12345\n\napi_hash=0123456789abcdef0123456789ABCDEF\n");
}

abbrev utf16 : Text → Result Text
utf16 raw = err unicode_error

read_credentials_file_once_example :
    (source.symlink || not source.is_file ≡ false)
    × (text : Text) × (read_text utf16 source ≡ ok text)
    × (times_named file_id (splitlines text) ≡ 1)
    × (times_named file_hash (splitlines text) ≡ 1)
    × Accepted id hash
unfolding credentials is_id is_digit is_hash is_hex value_from get text_eq listed every
    read_credentials_file read_text unreadable decode_sig decode is_prefix splitlines strip lstrip
    rstrip is_space entries add_entry add_split partition has_key from_file
read_credentials_file_once_example = read_credentials_file_once utf16 source id hash refl
