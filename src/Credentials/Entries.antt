-- ===== src/Credentials/Entries.antt =====
-- The lines of a credential file that ci/api_credentials.py accepts.
use capybaragram_build.Prelude.{
  ℕ, ◌+◌, ◌<◌, length, value_error, value_error_at, runtime_error, runtime_error_at,
  assertion_error, not_found, unicode_error, key_error, os_error, Bool, true, false, not, ◌||◌,
  List, [], ◌∷◌, ◌≡◌, ◌⊎◌, inl, inr, refl, sym, ap, subst, ◌∙◌, arith, Option, none, some,
  Bool-cases, Result, ok, err, credential_error, >>=-eq-ok, require-eq-ok, refuse-eq-ok,
}
use capybaragram_build.Text.{Text, text_eq, listed}
use capybaragram_build.Text.Equal.{text_eq_sound}
use capybaragram_build.Text.Lines.{strip, splitlines}
use capybaragram_build.Credentials.{
  from_file, add_entry, add_split, entries, has_key, partition, file_id, file_hash, expected_entry,
  Source, read_text, unreadable, get, credentials, id_name, hash_name, read_credentials_file, value,
  value_from,
}
use capybaragram_build.Credentials.Accepted.{Accepted, credentials-Accepted}

-- The name that a line gives a value to, if it is not blank and has a separator.
unfoldable pub name_split : Text → Option (Text × Text) → Option Text
name_split [] parts = none
name_split (c ∷ cs) none = none
name_split (c ∷ cs) (some (before, behind)) = some (strip before)

unfoldable pub line_name : Text → Option Text
unfolding name_split
line_name line = name_split (strip line) (partition 61 line)

abbrev pub truth : Bool → ℕ
truth true = 1
truth false = 0

unfoldable pub names_it : Text → Option Text → ℕ
names_it name none = 0
names_it name (some other) = truth (text_eq name other)

-- How many lines give a value to `name`.
unfoldable pub times_named : Text → List Text → ℕ
times_named name [] = 0
times_named name (line ∷ lines) = names_it name (line_name line) + times_named name lines

new_key :
    (name other v : Text) (values : List (Text × Text))
    → has_key other values ≡ false
    → truth (has_key name values) + truth (text_eq name other)
      ≡ truth (has_key name ((other, v) ∷ values))
unfolding has_key
new_key name other v values h = elim (Bool-cases (text_eq name other)) [
  | inl e ↦
      (let fresh : has_key name values ≡ false =
          subst (λ t. has_key t values ≡ false) (sym (text_eq_sound name other e)) h in
        rw (e, fresh) refl)
  | inr e ↦ rw (e) omega arith
]

add_split-names :
    (name : Text) (s : Text) (parts : Option (Text × Text)) (values more : List (Text × Text))
    → add_split values s parts ≡ ok more
    → truth (has_key name values) + names_it name (name_split s parts) ≡ truth (has_key name more)
unfolding add_split name_split names_it
add_split-names name [] parts values more h =
    let same : values ≡ more = cc h in rw (sym same) omega arith
add_split-names name (c ∷ cs) none values more h = cc h
add_split-names name (c ∷ cs) (some (before, behind)) values more h =
    let other = strip before in
    let (l, h1) = require-eq-ok (listed other (file_id ∷ file_hash ∷ [])) expected_entry _ h in
    let (d, h2) = refuse-eq-ok (has_key other values) expected_entry _ h1 in
    let same : (other, strip behind) ∷ values ≡ more = cc h2 in
    rw (sym same) (new_key name other (strip behind) values d)

entries-names :
    (name : Text) (lines : List Text) (values out : List (Text × Text))
    → entries values lines ≡ ok out
    → truth (has_key name values) + times_named name lines ≡ truth (has_key name out)
unfolding entries times_named line_name add_entry
entries-names name [] values out h = let same : values ≡ out = cc h in rw (sym same) omega arith
entries-names name (line ∷ lines) values out h =
    let (more, a, rest) = >>=-eq-ok (add_entry values line) _ h in
    let here = add_split-names name (strip line) (partition 61 line) values more a in
    let there = entries-names name lines more out rest in omega (arith, here, there)

get-has_key :
    (name : Text) (c : ℕ) (cs : Text) (values : List (Text × Text))
    → get name values ≡ c ∷ cs
    → has_key name values ≡ true
unfolding get has_key
get-has_key name c cs [] h = cc h
get-has_key name c cs ((k, v) ∷ values) h = elim (Bool-cases (text_eq name k)) [
  | inl e ↦ rw (e) refl
  | inr e ↦ rw (e) (get-has_key name c cs values (ground (arith, h, e)))
]

full-key :
    (name : Text) (values : List (Text × Text))
    → 0 < length (get name values)
    → has_key name values ≡ true
full-key name values h = elim (get-cases (get name values)) [
  | inl e ↦ absurd (omega (arith, h, e))
  | inr (c, cs, e) ↦ get-has_key name c cs values e
]
  where
    get-cases : (t : Text) → (length t ≡ 0) ⊎ ((c : ℕ) × (cs : Text) × (t ≡ c ∷ cs))
    get-cases [] = inl refl
    get-cases (c ∷ cs) = inr (c, cs, refl)

value_full : (t : Text) → 0 < value t → 0 < length t
unfolding value_from
value_full [] h = h
value_full (c ∷ cs) h = omega arith

unreadable-eq-ok {ℓ} : {A : Type ℓ} (m : Result A) (a : A) → unreadable m ≡ ok a → m ≡ ok a
unfolding unreadable
unreadable-eq-ok (ok b) a h = h
unreadable-eq-ok (err (value_error m)) a h = cc h
unreadable-eq-ok (err (value_error_at m t)) a h = cc h
unreadable-eq-ok (err (runtime_error m)) a h = cc h
unreadable-eq-ok (err (runtime_error_at m t)) a h = cc h
unreadable-eq-ok (err (assertion_error m)) a h = cc h
unreadable-eq-ok (err (credential_error m)) a h = cc h
unreadable-eq-ok (err not_found) a h = cc h
unreadable-eq-ok (err unicode_error) a h = cc h
unreadable-eq-ok (err key_error) a h = cc h
unreadable-eq-ok (err os_error) a h = cc h

get-from_file :
    (values : List (Text × Text))
    → (get id_name (from_file values) ≡ get file_id values)
      × (get hash_name (from_file values) ≡ get file_hash values)
unfolding from_file get text_eq
get-from_file values = (refl, refl)

once-each :
    (values : List (Text × Text)) (lines : List Text) (i k : Text)
    → entries [] lines ≡ ok values
    → credentials (from_file values) ≡ ok (i, k)
    → (times_named file_id lines ≡ 1) × (times_named file_hash lines ≡ 1) × Accepted i k
unfolding has_key
once-each values lines i k e h =
    let (a, b, accepted) = credentials-Accepted (from_file values) i k h in
    let (p, q) = get-from_file values in
    let has_id =
      full-key file_id values
        (subst (λ t. 0 < length t) (a ∙ p) (value_full i accepted.positive)) in
    let full : 0 < length k = omega (arith, accepted.hash_length) in
    let has_hash = full-key file_hash values (subst (λ t. 0 < length t) (b ∙ q) full) in
    let id_count = entries-names file_id lines [] values e in
    let hash_count = entries-names file_hash lines [] values e in
    let id_once : 0 + times_named file_id lines ≡ 1 = id_count ∙ ap truth has_id in
    let hash_once : 0 + times_named file_hash lines ≡ 1 = hash_count ∙ ap truth has_hash in
    (omega (arith, id_once), omega (arith, hash_once), accepted)

-- A credential file that is accepted is a regular file and no link, it is readable as a text, each
-- of the two names is given a value on exactly one of its lines, and the pair returned has a
-- number of 31 bits that is no sample's and a hash of 32 hexadecimal digits.
pub read_credentials_file_once :
    (decode_utf16 : Text → Result Text) (source : Source) (api_id api_hash : Text)
    → read_credentials_file decode_utf16 source ≡ ok (api_id, api_hash)
    → (source.symlink || not source.is_file ≡ false)
      × (text : Text) × (read_text decode_utf16 source ≡ ok text)
      × (times_named file_id (splitlines text) ≡ 1)
      × (times_named file_hash (splitlines text) ≡ 1)
      × Accepted api_id api_hash
unfolding read_credentials_file
read_credentials_file_once decode_utf16 source i k h =
    let (plain, h1) = refuse-eq-ok (source.symlink || not source.is_file) _ _ h in
    let (text, r, h2) = >>=-eq-ok (unreadable (read_text decode_utf16 source)) _ h1 in
    let (values, e, h3) = >>=-eq-ok (entries [] (splitlines text)) _ h2 in
    let (once_id, once_hash, accepted) = once-each values (splitlines text) i k e h3 in
    (
      plain,
      text,
      unreadable-eq-ok (read_text decode_utf16 source) text r,
      once_id,
      once_hash,
      accepted,
    )
