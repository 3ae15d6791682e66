-- ===== src/Hosts/Applied.antt =====
-- The tree behind a run of the native hosts' plan, against the tree before it.
use capybaragram_build.Prelude.{
  true, false, not, ◌||◌, List, [], ◌∷◌, ◌++◌, map-append, map-id, All, none, some, ◌≡◌, sym, ap,
  subst, ◌∙◌, Result, ok, Error, value_error, >>=-eq-ok, require-eq-ok, refuse-eq-ok,
}
use capybaragram_build.Text.{Text, text_eq, normalized, listed}
use capybaragram_build.Text.Equal.{text_eq_sound}
use capybaragram_build.Checkout.{Checkout, regular, read_bytes, write_all, lookup}
use capybaragram_build.Folders.{windows_sha, digest, produce}
use capybaragram_build.Folders.Plan.{read_bytes-eq-ok}
use capybaragram_build.Hosts.{
  Manifest, Messages, plan_host, plan_payload, exists, collect, allowed, plan, run,
}
use capybaragram_build.Hosts.Written.{
  names_of, write_all-listed, write_all-unlisted, write_all-rest, collect-names, collect-each,
}
use capybaragram_build.Hosts.Pinned.{Entry, plan-Entry, fresh}

module _ (sha256 : Text → Text) (say : Messages) (transform : Text → Text → Result Text)
    (hashes : Manifest) (c payloads : Checkout) where
  -- What the change promises of the tree: at each path that the plan names stands a file with the
  -- hash that the manifest pins for the path, no payload has replaced a file, and nothing else changes.
  pub record Applied (names : List Text) (c' : Checkout) : Type 0 where
    pub changed :
        (path : Text)
        → listed path names ≡ true
        → (raw : Text) × (c'.file path ≡ some raw)
          × Entry sha256 say transform hashes c payloads (path, raw)
    pub kept : (path : Text) → listed path names ≡ false → c'.file path ≡ c.file path
    pub links : c'.symlink ≡ c.symlink
    pub others : c'.other ≡ c.other
    pub places : c'.inside ≡ c.inside
    pub bounds : c'.within ≡ c.within
    pub revision : c'.head ≡ c.head

  abbrev pub Held : Text → Type 0
  Held name = (bytes : Text) × (c.file name ≡ some bytes)

  -- A host that the plan has accepted.
  abbrev pub Read : Text → Type 0
  Read name = (regular c name (value_error say.host_escapes) ≡ ok tt) × Held name

  plan_host-reads :
      (name : Text) (out : List (Text × Text))
      → plan_host sha256 say transform hashes c payloads false name ≡ ok out
      → Read name × (names_of out ≡ name ∷ [])
  unfolding plan_host
  plan_host-reads name out h =
      let (u, r, h1) = >>=-eq-ok (regular c name (value_error say.host_escapes)) _ h in
      let (bytes, b, h2) = >>=-eq-ok (read_bytes c name) _ h1 in
      let (expected, e, h3) = >>=-eq-ok (lookup name hashes.pre) _ h2 in
      let (d, h4) = require-eq-ok (text_eq (digest sha256 (normalized bytes)) expected) _ _ h3 in
      let (output, p, h5) = >>=-eq-ok (produce (transform name) false (normalized bytes)) _ h4 in
      let (post, q, h6) = >>=-eq-ok (lookup name hashes.post) _ h5 in
      let (s, h7) = require-eq-ok (text_eq (digest sha256 output) post) _ _ h6 in
      let same : (name, output) ∷ [] ≡ out = cc h7 in
      ((r, (bytes, read_bytes-eq-ok c name bytes b)), ap names_of (sym same))

  -- A payload that the plan has accepted.
  abbrev pub Packed : Text × Text → Type 0
  Packed entry =
      (raw : Text) × (regular payloads entry.1 (value_error say.payload_escapes) ≡ ok tt)
      × (read_bytes payloads entry.1 ≡ ok raw)
      × (lookup entry.0 hashes.added ≡ ok (digest sha256 (normalized raw)))
      × ((c.symlink entry.0 || not (c.within entry.0)) ≡ false)
      × (c.file entry.0 ≡ none)

  plan_payload-packs :
      (entry : Text × Text) (out : List (Text × Text))
      → plan_payload sha256 say transform hashes c payloads false entry ≡ ok out
      → Packed entry × (names_of out ≡ entry.0 ∷ [])
  unfolding plan_payload
  plan_payload-packs (name, source) out h =
      let (u, r, h1) = >>=-eq-ok (regular payloads source (value_error say.payload_escapes)) _ h in
      let (bytes, b, h2) = >>=-eq-ok (read_bytes payloads source) _ h1 in
      let (expected, e, h3) = >>=-eq-ok (lookup name hashes.added) _ h2 in
      let (d, h4) = require-eq-ok (text_eq (digest sha256 (normalized bytes)) expected) _ _ h3 in
      let (w, h5) = refuse-eq-ok (c.symlink name || not (c.within name)) _ _ h4 in
      let (f, h6) = refuse-eq-ok (exists c name) _ _ h5 in
      let same : (name, normalized bytes) ∷ [] ≡ out = cc h6 in
      (
        (
          bytes,
          r,
          b,
          e ∙ ap ok (sym (text_eq_sound _ expected d)),
          w,
          fresh sha256 say transform hashes c payloads name f,
        ),
        ap names_of (sym same),
      )

  -- What a plan without `--check` has read.
  pub record Ready (files : List Text) (added changes : List (Text × Text)) : Type 0 where
    pub is_allowed : allowed hashes files added ≡ true
    pub names : names_of changes ≡ files ++ names_of added
    pub hosts : All Read files
    pub extra : All Packed added

  pub plan-Ready :
      (files : List Text) (added changes : List (Text × Text))
      → plan sha256 say transform hashes c payloads false files added ≡ ok changes
      → Ready files added changes
  unfolding plan
  plan-Ready files added changes h =
      let (a, h1) = require-eq-ok (allowed hashes files added) (value_error say.allowlist) _ h in
      let (hosts, q, h2) =
        >>=-eq-ok (collect (plan_host sha256 say transform hashes c payloads false) files) _ h1 in
      let (extra, r, h3) =
        >>=-eq-ok (collect (plan_payload sha256 say transform hashes c payloads false) added) _
          h2 in
      let same : hosts ++ extra ≡ changes = cc h3 in
      let host_names =
        collect-names _ (λ n. n) (λ n out e. (plan_host-reads n out e).1) files hosts q in
      let extra_names =
        collect-names _ (λ n. n.0) (λ n out e. (plan_payload-packs n out e).1) added extra r in
      record {
        is_allowed = a;
        names =
            ap names_of (sym same)
            ∙ map-append (λ (entry : Text × Text). entry.0) hosts extra
            ∙ ap (λ t. t ++ names_of extra) (host_names ∙ map-id files)
            ∙ ap (λ t. files ++ t) extra_names;
        hosts = collect-each _ Read (λ n out e. (plan_host-reads n out e).0) files hosts q;
        extra = collect-each _ Packed (λ n out e. (plan_payload-packs n out e).0) added extra r;
      }

  -- A run without `--check` that ends well has changed the tree as the manifest promises: each path of
  -- the plan holds a file with its pinned hash, and every other path, the links and the revision are as
  -- before.
  pub run-Applied :
      (wrong : Error) (files : List Text) (added : List (Text × Text)) (c' : Checkout)
      → run sha256 say transform hashes c payloads false wrong files added ≡ ok c'
      → Applied (files ++ names_of added) c'
  unfolding run
  run-Applied wrong files added c' h =
      let (g, h1) = require-eq-ok (text_eq c.head windows_sha) wrong _ h in
      let (changes, p, h2) =
        >>=-eq-ok (plan sha256 say transform hashes c payloads false files added) _ h1 in
      let written : write_all c changes ≡ c' = cc h2 in
      let entries = plan-Entry sha256 say transform hashes c payloads files added changes p in
      let ready = plan-Ready files added changes p in
      let (symlink, other, inside, within, head) = write_all-rest c changes in
      subst (Applied (files ++ names_of added)) written record {
        changed = λ path l. write_all-listed _ c changes path entries (rw ready.names l);
        kept = λ path l. write_all-unlisted c changes path (rw ready.names l);
        links = symlink;
        others = other;
        places = inside;
        bounds = within;
        revision = head;
      }
