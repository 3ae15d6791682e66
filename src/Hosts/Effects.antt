-- ===== src/Hosts/Effects.antt =====
-- What the transformations of the native hosts do to a file that they accept.
use capybaragram_build.Prelude.{
  ℕ, Bool, true, false, List, [], ◌∷◌, All, every, every-cons, ◌≡◌, ◌⊎◌, inl, inr, refl, subst,
  Bool-cases, arith, Option, none, some, Option-cases, String, take, Result, ok, Error,
  value_error_at, ◌>>=◌, >>=-eq-ok, require-eq-ok, ◌==◌, from_option,
}
use capybaragram_build.Text.{Text, text_eq, count, replace_all}
use capybaragram_build.Text.Occurs.{Occurs}
use capybaragram_build.Patch.{Edit, apply, exchange, exchange_at}
use capybaragram_build.Patch.Settled.{installs, apply-Occurs}
use capybaragram_build.Hosts.{row}
use capybaragram_build.Hosts.Archive
use capybaragram_build.Hosts.Connection
use capybaragram_build.Hosts.Notes
use capybaragram_build.Hosts.Voice
use capybaragram_build.Hosts.ReadMode

exchange_at-eq-ok :
    (s m : String) (k : ℕ) (text old new : Text) (times : ℕ) (out : Text)
    → exchange_at s k text old new times ≡ ok out
    → exchange m text old new times ≡ ok out
unfolding exchange_at exchange
exchange_at-eq-ok s m k text old new times out h =
    let (n, e) =
      require-eq-ok (count old text == times) (value_error_at s (take k old))
        (ok (replace_all old new text)) h in
    rw (n) e

-- The message of a refusal does not matter to what is accepted.
apply-exchange_at :
    (s m : String) (k : ℕ) (es : List Edit) (text out : Text)
    → apply (exchange_at s k) es text ≡ ok out
    → apply (exchange m) es text ≡ ok out
unfolding apply
apply-exchange_at s m k [] text out h = h
apply-exchange_at s m k (e ∷ es) text out h =
    let (mid, p, rest) =
      >>=-eq-ok (exchange_at s k text e.old e.new e.times) (apply (exchange_at s k) es) h in
    let q = exchange_at-eq-ok s m k text e.old e.new e.times mid p in
    rw (q) (apply-exchange_at s m k es mid out rest)

pub apply_at-Occurs :
    (s : String) (k : ℕ) (es : List Edit) (text out : Text)
    → installs es ≡ true
    → apply (exchange_at s k) es text ≡ ok out
    → All (λ e. Occurs e.new out) es
apply_at-Occurs s k es text out i h =
    apply-Occurs "" es text out i (apply-exchange_at s "" k es text out h)

row-every :
    (name : Text) (table : List (Text × List Edit)) (es : List Edit)
    → every (λ entry. installs entry.1) table ≡ true
    → row name table ≡ some es
    → installs es ≡ true
unfolding row
row-every name [] es h e = cc e
row-every name ((n, fs) ∷ table) es h e =
    let (here, rest) =
      every-cons (λ (entry : Text × List Edit). installs entry.1) (n, fs) table h in
    elim (Bool-cases (text_eq name n)) [
      | inl p ↦
          (let same : fs ≡ es = ground (arith, e, p) in subst (λ t. installs t ≡ true) same here)
      | inr p ↦ row-every name table es rest (ground (arith, e, p))
    ]

table-Occurs :
    (s : String) (k : ℕ) (unexpected : Error) (table : List (Text × List Edit))
    (name text out : Text)
    → every (λ entry. installs entry.1) table ≡ true
    → (from_option unexpected (row name table) >>= λ edits. apply (exchange_at s k) edits text)
      ≡ ok out
    → (es : List Edit) × (row name table ≡ some es) × All (λ e. Occurs e.new out) es
table-Occurs s k unexpected table name text out i h = elim (Option-cases (row name table)) [
  | inl n ↦ cc (rw (n) at h)
  | inr (es, p) ↦
      (es, p, apply_at-Occurs s k es text out (row-every name table es i p) (rw (p) at h))
]

connection_installs : every (λ entry. installs entry.1) Connection.Edits.table ≡ true
unfolding installs every Connection.Edits.table
connection_installs = refl

voice_installs : every (λ entry. installs entry.1) Voice.Edits.table ≡ true
unfolding installs every Voice.Edits.table
voice_installs = refl

archive_installs : every (λ entry. installs entry.1) Archive.Edits.table ≡ true
unfolding installs every Archive.Edits.table
archive_installs = refl

notes_installs : every (λ entry. installs entry.1) Notes.Edits.table ≡ true
unfolding installs every Notes.Edits.table
notes_installs = refl

-- If the connection script accepts a host, the host is one of its table, and every replacement text
-- of that host's edits stands in the result.
connection-Occurs :
    (name text out : Text)
    → Connection.transform name text ≡ ok out
    → (es : List Edit) × (row name Connection.Edits.table ≡ some es)
      × All (λ e. Occurs e.new out) es
unfolding Connection.transform Connection.replace
connection-Occurs name text out h =
    table-Occurs _ _ _ Connection.Edits.table name text out connection_installs h

-- If the voice script accepts a host, the host is one of its table, and every replacement text of
-- that host's edits stands in the result.
voice-Occurs :
    (name text out : Text)
    → Voice.transform name text ≡ ok out
    → (es : List Edit) × (row name Voice.Edits.table ≡ some es) × All (λ e. Occurs e.new out) es
unfolding Voice.transform Voice.replace
voice-Occurs name text out h = table-Occurs _ _ _ Voice.Edits.table name text out voice_installs h

check_all-same :
    (es : List Edit) (text out : Text) → Archive.check_all es text ≡ ok out → out ≡ text
unfolding Archive.check_all
check_all-same [] text out h = cc h
check_all-same (e ∷ es) text out h =
    let (changed, p, rest) = >>=-eq-ok (Archive.replace text e.old e.new e.times) _ h in
    check_all-same es text out rest

either_table :
    (o o' : Option (List Edit)) (text out : Text)
    → (elim o [
      | some edits ↦ apply Archive.replace edits text
      | none ↦ from_option Archive.unexpected o' >>= λ edits. Archive.check_all edits text
    ])
      ≡ ok out
    → ((es : List Edit) × (o ≡ some es) × (apply Archive.replace es text ≡ ok out))
      ⊎ ((es : List Edit) × (o' ≡ some es) × (Archive.check_all es text ≡ ok out))
either_table (some es) o' text out h = inl (es, refl, h)
either_table none none text out h = cc h
either_table none (some es) text out h = inr (es, refl, h)

-- If the archive script accepts a host, then either the host is one of its table and every
-- replacement text of that host's edits stands in the result, or it is one of the files that are only
-- checked and the result is the text itself.
pub archive-Occurs :
    (name text out : Text)
    → Archive.transform name text ≡ ok out
    → ((es : List Edit) × (row name Archive.Edits.table ≡ some es) × All (λ e. Occurs e.new out) es)
      ⊎ ((es : List Edit) × (row name Archive.Edits.checked ≡ some es) × (out ≡ text))
unfolding Archive.transform Archive.replace
archive-Occurs name text out h =
    elim (either_table (row name Archive.Edits.table) (row name Archive.Edits.checked) text out h) [
      | inl (es, p, a) ↦ inl (
        es,
        p,
        apply_at-Occurs _ _ es text out (row-every name Archive.Edits.table es archive_installs p)
            a,
      )
      | inr (es, p, a) ↦ inr (es, p, check_all-same es text out a)
    ]

other_host :
    (b : Bool) (name text out : Text)
    → b ≡ false
    → (elim b [
      | true ↦ Notes.transform_account text
      | false ↦ from_option Notes.unexpected (row name Notes.Edits.table) >>= λ edits.
          apply Notes.replace edits text
    ])
      ≡ ok out
    → (from_option Notes.unexpected (row name Notes.Edits.table) >>= λ edits.
        apply Notes.replace edits text)
      ≡ ok out
other_host true name text out d h = cc d
other_host false name text out d h = h

-- If the notes script accepts a host other than main_account.h, the host is one of its table, and
-- every replacement text of that host's edits stands in the result.
pub notes-Occurs :
    (name text out : Text)
    → text_eq name Notes.Edits.account_header ≡ false
    → Notes.transform name text ≡ ok out
    → (es : List Edit) × (row name Notes.Edits.table ≡ some es) × All (λ e. Occurs e.new out) es
unfolding Notes.transform Notes.replace
notes-Occurs name text out d h =
    table-Occurs _ _ _ Notes.Edits.table name text out notes_installs
      (other_host (text_eq name Notes.Edits.account_header) name text out d h)

read_mode_installs : every (λ entry. installs entry.1) ReadMode.Edits.table ≡ true
unfolding installs every ReadMode.Edits.table
read_mode_installs = refl

-- If the read-mode script accepts a host, the host is one of its table, and every replacement text of
-- that host's edits stands in the result.
read_mode-Occurs :
    (name text out : Text)
    → ReadMode.transform name text ≡ ok out
    → (es : List Edit) × (row name ReadMode.Edits.table ≡ some es) × All (λ e. Occurs e.new out) es
unfolding ReadMode.transform ReadMode.replace
read_mode-Occurs name text out h =
    table-Occurs _ _ _ ReadMode.Edits.table name text out read_mode_installs h

-- The scripts whose table says all that they do.
pub data Tabled : Type 0 where
  connection voice read_mode : Tabled

unfoldable pub tabled_transform : Tabled → Text → Text → Result Text
tabled_transform connection = Connection.transform
tabled_transform voice = Voice.transform
tabled_transform read_mode = ReadMode.transform

unfoldable pub table_of : Tabled → List (Text × List Edit)
table_of connection = Connection.Edits.table
table_of voice = Voice.Edits.table
table_of read_mode = ReadMode.Edits.table

-- If the connection, voice or read-mode script accepts a host, the host is one of its table, and every
-- replacement text of that host's edits stands in the result.
pub tabled-Occurs :
    (script : Tabled) (name text out : Text)
    → tabled_transform script name text ≡ ok out
    → (es : List Edit) × (row name (table_of script) ≡ some es) × All (λ e. Occurs e.new out) es
unfolding tabled_transform table_of
tabled-Occurs connection name text out h = connection-Occurs name text out h
tabled-Occurs voice name text out h = voice-Occurs name text out h
tabled-Occurs read_mode name text out h = read_mode-Occurs name text out h
