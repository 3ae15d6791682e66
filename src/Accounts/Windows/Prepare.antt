-- ===== src/Accounts/Windows/Prepare.antt =====
-- The plan and `prepare` of ci/accounts/windows_accounts_patch.py. `sha256` stands for
-- `hashlib.sha256(raw).hexdigest()`, and `nt` for `os.name == 'nt'`.
use capybaragram_build.Prelude.{
  Bool, true, false, List, [], ◌∷◌, map, All, ◌≡◌, refl, sym, ap, subst, ◌∙◌, if◌then◌else◌, Result,
  ok, value_error, Error, ◌>>=◌, ◌>>◌, >>=-eq-ok, require, require-eq-ok,
}
use capybaragram_build.Text.{Text, codes, text_eq, normalized, replace_all}
use capybaragram_build.Text.Equal.{text_eq_sound}
use capybaragram_build.Text.Utf8.{decode, encode}
use capybaragram_build.Checkout.{Checkout, read_bytes, write_all, regular, lookup}
use capybaragram_build.Folders.{windows_sha, same_names}
use capybaragram_build.Accounts.Windows.{files, transform}

-- `transform(name, raw.decode('utf-8')).encode('utf-8')`
unfoldable pub changed : Text → Text → Result Text
unfolding transform decode encode
changed name raw = do text ← decode raw; output ← transform name text; encode output

-- `hashes()`, of the `patch` table of the manifest
unfoldable pub hashes : List (Text × Text) → Result (List (Text × Text))
unfolding same_names
hashes patch = do
  require (same_names patch files) (value_error "Desktop patch allowlist differs.")
  ok patch

-- The line ends that are written.
unfoldable pub native : Bool → Text → Text
unfolding replace_all
native nt raw = if nt then replace_all (codes "\n") (codes "\r\n") raw else raw

module _ (sha256 : Text → Text) (patch : List (Text × Text)) (c : Checkout) where
  -- The body of the loop of `plan`.
  unfoldable pub plan_name : List (Text × Text) → Text → Result Text
  unfolding regular read_bytes normalized lookup changed
  plan_name expected name = do
    regular c name (value_error "Desktop source path escapes checkout.")
    bytes ← read_bytes c name
    let raw = normalized bytes
    hash ← lookup name expected
    require (text_eq (sha256 raw) hash) (value_error "Desktop source differs from pinned input.")
    changed name raw

  unfoldable pub plan_names : List (Text × Text) → List Text → Result (List (Text × Text))
  unfolding plan_name
  plan_names expected [] = ok []
  plan_names expected (name ∷ names) =
      let rest = plan_names expected names in
      do output ← plan_name expected name; planned ← rest; ok ((name, output) ∷ planned)

  unfoldable pub plan : Result (List (Text × Text))
  unfolding hashes plan_names
  plan = do expected ← hashes patch; plan_names expected files

  -- The body of the loop of `prepare` with `--check`.
  unfoldable pub check_name : List (Text × Text) → Text → Result (Unit {0})
  unfolding regular read_bytes normalized lookup changed
  check_name expected name = do
    committed ← c.committed name
    let original = normalized committed
    hash ← lookup name expected
    require (text_eq (sha256 original) hash) (value_error "Committed Desktop input differs.")
    regular c name (value_error "Desktop source path escapes checkout.")
    bytes ← read_bytes c name
    output ← changed name original
    require (text_eq (normalized bytes) output)
        (value_error "Prepared Desktop account code differs.")

  unfoldable pub check_names : List (Text × Text) → List Text → Result (Unit {0})
  unfolding check_name
  check_names expected [] = ok tt
  check_names expected (name ∷ names) =
      let rest = check_names expected names in do check_name expected name; rest

  unfoldable pub prepare : Bool → Bool → Result Checkout
  unfolding plan check_names write_all native
  prepare nt check = do
    require (text_eq c.head windows_sha) (value_error "Desktop checkout revision differs.")
    (if check then (do expected ← hashes patch; check_names expected files; ok c) else (do
      prepared ← plan
      ok (write_all c (map (λ (entry : Text × Text). (entry.0, native nt entry.1)) prepared))))

  -- A file that `--check` has accepted: up to line ends it is the transformation of the committed
  -- file, whose hash is pinned.
  pub record Checked (name : Text) : Type 0 where
    pub committed : Text
    pub original : c.committed name ≡ ok committed
    pub pinned : lookup name patch ≡ ok (sha256 (normalized committed))
    pub bytes : Text
    pub present : read_bytes c name ≡ ok bytes
    pub prepared : changed name (normalized committed) ≡ ok (normalized bytes)

  check_name-Checked : (name : Text) → check_name patch name ≡ ok tt → Checked name
  unfolding check_name
  check_name-Checked name h =
      let (committed, o, h1) = >>=-eq-ok (c.committed name) _ h in
      let (hash, l, h2) = >>=-eq-ok (lookup name patch) _ h1 in
      let (p, h3) = require-eq-ok (text_eq (sha256 (normalized committed)) hash) _ _ h2 in
      let (u, r, h4) =
        >>=-eq-ok (regular c name (value_error "Desktop source path escapes checkout.")) _ h3 in
      let (bytes, b, h5) = >>=-eq-ok (read_bytes c name) _ h4 in
      let (output, t, h6) = >>=-eq-ok (changed name (normalized committed)) _ h5 in
      let e = passed (text_eq (normalized bytes) output) _ h6 in
      record {
        committed = committed;
        original = o;
        pinned = l ∙ ap ok (sym (text_eq_sound _ hash p));
        bytes = bytes;
        present = b;
        prepared = t ∙ ap ok (sym (text_eq_sound _ output e));
      }
    where
      passed : (b : Bool) (e : Error) → require b e ≡ ok tt → b ≡ true
      passed true e h = refl
      passed false e h = cc h

  check_names-Checked : (names : List Text) → check_names patch names ≡ ok tt → All Checked names
  unfolding check_names
  check_names-Checked [] h = tt
  check_names-Checked (name ∷ names) h =
      let (u, p, rest) = >>=-eq-ok (check_name patch name) _ h in
      (check_name-Checked name p, check_names-Checked names rest)

  -- If `--check` accepts the tree, the tree is at the pinned revision and stays as it is, and each of
  -- the four files is, up to line ends, the transformation of its committed, pinned version.
  pub prepare-Checked :
      (nt : Bool) (c' : Checkout)
      → prepare nt true ≡ ok c'
      → (c' ≡ c) × (c.head ≡ windows_sha) × All Checked files
  unfolding prepare hashes
  prepare-Checked nt c' h =
      let (rev, h1) =
        require-eq-ok (text_eq c.head windows_sha)
          (value_error "Desktop checkout revision differs.") _ h in
      let (expected, g, h2) = >>=-eq-ok (hashes patch) _ h1 in
      let (q, g2) =
        require-eq-ok (same_names patch files) (value_error "Desktop patch allowlist differs.")
          (ok patch) g in
      let same : patch ≡ expected = cc g2 in
      let (u, p, h3) = >>=-eq-ok (check_names expected files) _ h2 in
      let tree : c ≡ c' = cc h3 in
      (
        sym tree,
        text_eq_sound c.head windows_sha rev,
        check_names-Checked files (subst (λ t. check_names t files ≡ ok tt) (sym same) p),
      )
