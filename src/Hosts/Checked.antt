-- ===== src/Hosts/Checked.antt =====
-- `--check` on the tree that a run of the native hosts' plan leaves behind.
use capybaragram_build.Prelude.{
  true, false, not, ◌||◌, List, [], ◌∷◌, ◌++◌, map, map-id, All, some, ◌≡◌, inl, inr, ◌∙◌, Result,
  ok, Error, value_error, >>=-eq-ok, require-eq-ok, arith, Bool-cases,
}
use capybaragram_build.Text.{Text, text_eq, count, normalized, listed}
use capybaragram_build.Text.Equal.{text_eq_iff, text_eq_refl, normalized-absent}
use capybaragram_build.Checkout.{Checkout, regular, read_bytes, lookup}
use capybaragram_build.Folders.{windows_sha, digest}
use capybaragram_build.Hosts.{
  Manifest, Messages, plan_host, plan_payload, is_installed, allowed, plan, run,
}
use capybaragram_build.Hosts.Applied.{Applied, Read, Packed, run-Applied, plan-Ready}
use capybaragram_build.Hosts.Written.{names_of, collect-nil}

listed-left : (x : Text) (ys zs : List Text) → listed x ys ≡ true → listed x (ys ++ zs) ≡ true
unfolding listed
listed-left x [] zs h = cc
listed-left x (y ∷ ys) zs h = elim (Bool-cases (text_eq x y)) [
  | inl e ↦ ground (arith, e)
  | inr e ↦ ground (arith, e, listed-left x ys zs (ground (arith, h, e)))
]

listed-right : (x : Text) (ys zs : List Text) → listed x zs ≡ true → listed x (ys ++ zs) ≡ true
unfolding listed
listed-right x [] zs h = h
listed-right x (y ∷ ys) zs h = ground (arith, listed-right x ys zs h)

-- Of every item of a list, with the membership of its name.
All-listed :
    {A : Type 0} (name : A → Text) (P Q : A → Type 0) (items : List A) (all : List Text)
    (part : (y : Text) → listed y (map name items) ≡ true → listed y all ≡ true)
    (each : (x : A) → listed (name x) all ≡ true → P x → Q x)
    → All P items
    → All Q items
unfolding listed
All-listed name P Q [] all part each h = tt
All-listed name P Q (x ∷ xs) all part each (h, hs) = (
  each x (part (name x) (ground (arith, text_eq_refl (name x)))) h,
  All-listed name P Q xs all (λ y l. part y (ground (arith, l))) each hs,
)

regular-eq :
    (c c' : Checkout) (name : Text) (e : Error)
    → c'.symlink ≡ c.symlink
    → c'.inside ≡ c.inside
    → regular c' name e ≡ regular c name e
unfolding regular
regular-eq c c' name e s i = rw (s, i)

module _ (sha256 : Text → Text) (say : Messages) (transform : Text → Text → Result Text)
    (hashes : Manifest) (c' payloads : Checkout) where
  plan_host_accepts :
      (name raw : Text)
      → regular c' name (value_error say.host_escapes) ≡ ok tt
      → c'.file name ≡ some raw
      → normalized raw ≡ raw
      → lookup name hashes.post ≡ ok (digest sha256 raw)
      → plan_host sha256 say transform hashes c' payloads true name ≡ ok []
  unfolding plan_host
  plan_host_accepts name raw r f n p = rw (r, f, n, p, text_eq_refl (digest sha256 raw))

  installed :
      (name raw data_raw : Text)
      → c'.file name ≡ some raw
      → digest sha256 raw ≡ digest sha256 data_raw
      → is_installed sha256 say transform hashes c' payloads true name data_raw ≡ true
  unfolding is_installed
  installed name raw data_raw f d =
      let e : text_eq (digest sha256 raw) (digest sha256 data_raw) ≡ true = (text_eq_iff _ _).1 d in
      rw (f, is_installed) e

  plan_payload_accepts :
      (entry : Text × Text) (raw bytes : Text)
      → regular payloads entry.1 (value_error say.payload_escapes) ≡ ok tt
      → read_bytes payloads entry.1 ≡ ok bytes
      → lookup entry.0 hashes.added ≡ ok (digest sha256 (normalized bytes))
      → (c'.symlink entry.0 || not (c'.within entry.0)) ≡ false
      → c'.file entry.0 ≡ some raw
      → digest sha256 raw ≡ digest sha256 (normalized bytes)
      → plan_payload sha256 say transform hashes c' payloads true entry ≡ ok []
  unfolding plan_payload
  plan_payload_accepts (name, source) raw bytes r b p w f d = rw (
    r,
    b,
    p,
    text_eq_refl (digest sha256 (normalized bytes)),
    w,
    installed name raw (normalized bytes) f d,
  )

  run_accepts :
      (wrong : Error) (files : List Text) (added : List (Text × Text))
      → text_eq c'.head windows_sha ≡ true
      → allowed hashes files added ≡ true
      → All (λ n. plan_host sha256 say transform hashes c' payloads true n ≡ ok []) files
      → All (λ n. plan_payload sha256 say transform hashes c' payloads true n ≡ ok []) added
      → run sha256 say transform hashes c' payloads true wrong files added ≡ ok c'
  unfolding run plan
  run_accepts wrong files added g a hs es =
      rw (g, a, collect-nil _ files hs, collect-nil _ added es)

-- The file at this path, if there is one, holds no CR LF.
abbrev pub IsPlain : Checkout → Text → Type 0
IsPlain c name = (raw : Text) → c.file name ≡ some raw → count (13 ∷ 10 ∷ []) raw ≡ 0

module _ (sha256 : Text → Text) (say : Messages) (transform : Text → Text → Result Text)
    (hashes : Manifest) (c payloads c' : Checkout) (files : List Text) (added : List (Text × Text))
    (applied : Applied sha256 say transform hashes c payloads (files ++ names_of added) c') where
  host_accepts :
      (name : Text)
      → listed name (files ++ names_of added) ≡ true
      → Read sha256 say transform hashes c payloads name
      → IsPlain c' name
      → plan_host sha256 say transform hashes c' payloads true name ≡ ok []
  host_accepts name l read plain =
      let (raw, f, entry) = applied.changed name l in
      let r = regular-eq c c' name (value_error say.host_escapes) applied.links applied.places in
      plan_host_accepts sha256 say transform hashes c' payloads name raw (r ∙ read.0) f
        (normalized-absent raw (plain raw f))
        (elim entry.pinned [ inl (p, held) ↦ p | inr (p, absent) ↦ cc (absent, read.1.1) ])

  payload_accepts :
      (entry : Text × Text)
      → listed entry.0 (files ++ names_of added) ≡ true
      → Packed sha256 say transform hashes c payloads entry
      → plan_payload sha256 say transform hashes c' payloads true entry ≡ ok []
  payload_accepts entry l (bytes, r, b, p, w, new) =
      let (raw, f, planned) = applied.changed entry.0 l in
      let outside : (c'.symlink entry.0 || not (c'.within entry.0)) ≡ false =
        rw (applied.links, applied.bounds) w in
      plan_payload_accepts sha256 say transform hashes c' payloads entry raw bytes r b p outside f
        (elim planned.pinned [ inl (q, held) ↦ cc (new, held.1) | inr (q, absent) ↦ cc ])

module _ (sha256 : Text → Text) (say : Messages) (transform : Text → Text → Result Text)
    (hashes : Manifest) (c payloads : Checkout) where
  run_plans :
      (wrong : Error) (files : List Text) (added : List (Text × Text)) (c' : Checkout)
      → run sha256 say transform hashes c payloads false wrong files added ≡ ok c'
      → (text_eq c.head windows_sha ≡ true)
        × (changes : List (Text × Text)) × (plan sha256 say transform hashes c payloads false files
              added
            ≡ ok changes)
  unfolding run
  run_plans wrong files added c' h =
      let (g, h1) = require-eq-ok (text_eq c.head windows_sha) wrong _ h in
      let (changes, p, h2) =
        >>=-eq-ok (plan sha256 say transform hashes c payloads false files added) _ h1 in
      (g, changes, p)

  -- A run that applies the change leaves a tree that `--check` accepts and does not change, when no
  -- host that it wrote holds a CR LF.
  pub run-check :
      (wrong : Error) (files : List Text) (added : List (Text × Text)) (c' : Checkout)
      → run sha256 say transform hashes c payloads false wrong files added ≡ ok c'
      → ((name : Text) → listed name files ≡ true → IsPlain c' name)
      → run sha256 say transform hashes c' payloads true wrong files added ≡ ok c'
  run-check wrong files added c' h plain =
      let applied = run-Applied sha256 say transform hashes c payloads wrong files added c' h in
      let (at, changes, p) = run_plans wrong files added c' h in
      let ready = plan-Ready sha256 say transform hashes c payloads files added changes p in
      run_accepts sha256 say transform hashes c' payloads wrong files added (rw applied.revision at)
        ready.is_allowed
        (All-listed (λ n. n) _ _ files files (λ y l. rw (map-id files) at l)
          (λ n l read.
            host_accepts sha256 say transform hashes c payloads c' files added applied n
              (listed-left n files (names_of added) l) read (plain n l))
          ready.hosts)
        (All-listed (λ n. n.0) _ _ added (files ++ names_of added)
          (λ y l. listed-right y files (names_of added) l)
          (payload_accepts sha256 say transform hashes c payloads c' files added applied)
          ready.extra)
