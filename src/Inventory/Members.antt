-- ===== src/Inventory/Members.antt =====
-- The scan of `tar.getmembers()` in `inspect_crate` of ci/windows-connection-notices/run_inventory.py.
pub mod Bounded
use capybaragram_build.Prelude.{
  ℕ, ◌+◌, ◌*◌, Bool, true, false, not, ◌&&◌, ◌||◌, List, [], ◌∷◌, ◌++◌, length, drop, ltb, leb,
  Option, none, some, Result, ok, err, value_error, value_error_at, ◌>>=◌, ◌>>◌, require, refuse,
  from_option, if◌then◌else◌,
}
use capybaragram_build.Text.{Text, codes, is_prefix, pieces, contains, listed}

pub data ℤ : Type 0 where
  pos negsuc : ℕ → ℤ

-- What the scan reads of a `TarInfo`.
pub record Entry : Type 0 where
  pub name : Text
  pub is_file : Bool
  pub is_dir : Bool
  pub size : ℤ

pub record Scan : Type 0 where
  pub seen : List Text
  pub files : List (Text × Entry)
  pub total : ℕ

abbrev pub start : Scan
start = record { seen = []; files = []; total = 0 }

abbrev pub mebibyte : ℕ
mebibyte = 1048576

-- A member name that stays inside the archive's own directory: `pp.parts` are the pieces between
-- slashes, and a path is absolute if it starts with one.
unfoldable pub safe : Text → Text → Bool
unfolding is_prefix pieces listed contains
safe prefix name =
    is_prefix prefix name
    && (not (is_prefix (codes "/") name)
        && (not (listed (codes "..") (pieces (codes "/") name))
            && (not (contains (codes "\\") name) && not (contains (codes ":") name))))

-- The size if it is one of a reviewed member: `0 <= size <= 50 MiB`.
unfoldable pub reviewed : ℤ → Option ℕ
reviewed (pos n) = if leb n (50 * mebibyte) then some n else none
reviewed (negsuc n) = none

-- The body of the loop, for the archive of the crate `name`.
unfoldable pub add_member : Text → Text → Scan → Entry → Result Scan
unfolding safe reviewed listed
add_member name prefix scan entry = do
  refuse (listed entry.name scan.seen || not (safe prefix entry.name))
      (value_error_at "Unsafe/duplicate registry source member: " name)
  let seen = entry.name ∷ scan.seen
  require (entry.is_file || entry.is_dir)
      (value_error_at "Unreviewed registry member type/size: " name)
  size ←
      from_option (value_error_at "Unreviewed registry member type/size: " name)
        (reviewed entry.size)
  let total = scan.total + size
  refuse (ltb (200 * mebibyte) total || ltb 20000 (length seen))
      (value_error_at "Registry source expansion exceeds bound: " name)
  let files =
      if entry.is_file then (drop (length prefix) entry.name, entry) ∷ scan.files else scan.files
  ok (record { seen = seen; files = files; total = total })

unfoldable pub add_members : Text → Text → Scan → List Entry → Result Scan
unfolding add_member
add_members name prefix scan [] = ok scan
add_members name prefix scan (entry ∷ members) = do
  more ← add_member name prefix scan entry
  add_members name prefix more members

-- `prefix=name+'-'+version+'/'` and the scan of all members
unfoldable pub scan_members : Text → Text → List Entry → Result Scan
unfolding add_members
scan_members name version members =
    add_members name (name ++ (codes "-" ++ (version ++ codes "/"))) start members
