-- ===== src/Hosts/Pinned.antt =====
-- What the shared plan of the native hosts guarantees, whatever the transformation.
use capybaragram_build.Prelude.{
  false, not, ◌||◌, List, [], ◌∷◌, ◌++◌, All, none, ◌≡◌, ◌⊎◌, inl, inr, sym, ap, subst, ◌∙◌, some,
  Result, ok, value_error, >>=-eq-ok, require-eq-ok, refuse-eq-ok, arith,
}
use capybaragram_build.Text.{Text, text_eq, normalized}
use capybaragram_build.Text.Equal.{text_eq_sound}
use capybaragram_build.Checkout.{Checkout, regular, read_bytes, lookup}
use capybaragram_build.Folders.{digest, produce}
use capybaragram_build.Folders.Plan.{read_bytes-eq-ok}
use capybaragram_build.Hosts.{
  Manifest, Messages, plan_host, plan_payload, exists, collect, allowed, plan,
}

All-append {ℓ κ} :
    {A : Type ℓ} (P : A → Type κ) (xs ys : List A) → All P xs → All P ys → All P (xs ++ ys)
All-append P [] ys h k = k
All-append P (x ∷ xs) ys (p, h) k = (p, All-append P xs ys h k)

module _ (sha256 : Text → Text) (say : Messages) (transform : Text → Text → Result Text)
    (hashes : Manifest) (c payloads : Checkout) where
  -- One entry of the plan: the bytes have the hash that is pinned for that path, what is a host has
  -- a file at its place, and what is a payload has none yet.
  pub record Entry (planned : Text × Text) : Type 0 where
    pub pinned :
        ((lookup planned.0 hashes.post ≡ ok (digest sha256 planned.1))
          × ((bytes : Text) × (c.file planned.0 ≡ some bytes)))
        ⊎ ((lookup planned.0 hashes.added ≡ ok (digest sha256 planned.1))
            × (c.file planned.0 ≡ none))

  pub collect-All :
      {A : Type 0} (P : Text × Text → Type 0) (body : A → Result (List (Text × Text)))
      (each : (a : A) (out : List (Text × Text)) → body a ≡ ok out → All P out) (xs : List A)
      (out : List (Text × Text))
      → collect body xs ≡ ok out
      → All P out
  unfolding collect
  collect-All P body each [] out h = let same : [] ≡ out = cc h in subst (All P) same tt
  collect-All P body each (x ∷ xs) out h =
      let (here, p, h1) = >>=-eq-ok (body x) _ h in
      let (more, q, h2) = >>=-eq-ok (collect body xs) _ h1 in
      let same : here ++ more ≡ out = cc h2 in
      subst (All P) same
        (All-append P here more (each x here p) (collect-All P body each xs more q))

  plan_host-Entry :
      (name : Text) (out : List (Text × Text))
      → plan_host sha256 say transform hashes c payloads false name ≡ ok out
      → All Entry out
  unfolding plan_host
  plan_host-Entry name out h =
      let (u, r, h1) = >>=-eq-ok (regular c name (value_error say.host_escapes)) _ h in
      let (bytes, b, h2) = >>=-eq-ok (read_bytes c name) _ h1 in
      let (expected, e, h3) = >>=-eq-ok (lookup name hashes.pre) _ h2 in
      let (d, h4) = require-eq-ok (text_eq (digest sha256 (normalized bytes)) expected) _ _ h3 in
      let (output, p, h5) = >>=-eq-ok (produce (transform name) false (normalized bytes)) _ h4 in
      let (post, q, h6) = >>=-eq-ok (lookup name hashes.post) _ h5 in
      let (s, h7) = require-eq-ok (text_eq (digest sha256 output) post) _ _ h6 in
      let same : (name, output) ∷ [] ≡ out = cc h7 in
      subst (All Entry) same (
        record {
          pinned =
              inl (
                q ∙ ap ok (sym (text_eq_sound _ post s)),
                (bytes, read_bytes-eq-ok c name bytes b),
              );
        },
        tt,
      )

  pub fresh : (name : Text) → exists c name ≡ false → c.file name ≡ none
  unfolding exists
  fresh name h = ground (arith, h)

  plan_payload-Entry :
      (entry : Text × Text) (out : List (Text × Text))
      → plan_payload sha256 say transform hashes c payloads false entry ≡ ok out
      → All Entry out
  unfolding plan_payload
  plan_payload-Entry (name, source) out h =
      let (u, r, h1) = >>=-eq-ok (regular payloads source (value_error say.payload_escapes)) _ h in
      let (bytes, b, h2) = >>=-eq-ok (read_bytes payloads source) _ h1 in
      let (expected, e, h3) = >>=-eq-ok (lookup name hashes.added) _ h2 in
      let (d, h4) = require-eq-ok (text_eq (digest sha256 (normalized bytes)) expected) _ _ h3 in
      let (w, h5) = refuse-eq-ok (c.symlink name || not (c.within name)) _ _ h4 in
      let (f, h6) = refuse-eq-ok (exists c name) _ _ h5 in
      let same : (name, normalized bytes) ∷ [] ≡ out = cc h6 in
      subst (All Entry) same
        (record { pinned = inr (e ∙ ap ok (sym (text_eq_sound _ expected d)), fresh name f) }, tt)

  -- If the plan succeeds without `--check`, every file that is going to be written has the hash that
  -- the manifest pins for it, as a host behind its change or as a payload, and no payload replaces a file.
  pub plan-Entry :
      (files : List Text) (added out : List (Text × Text))
      → plan sha256 say transform hashes c payloads false files added ≡ ok out
      → All Entry out
  unfolding plan
  plan-Entry files added out h =
      let (g, h1) = require-eq-ok (allowed hashes files added) (value_error say.allowlist) _ h in
      let (hosts, p, h2) =
        >>=-eq-ok (collect (plan_host sha256 say transform hashes c payloads false) files) _ h1 in
      let (extra, q, h3) =
        >>=-eq-ok (collect (plan_payload sha256 say transform hashes c payloads false) added) _
          h2 in
      let same : hosts ++ extra ≡ out = cc h3 in
      subst (All Entry) same (
        All-append Entry hosts extra (collect-All Entry _ plan_host-Entry files hosts p)
          (collect-All Entry _ plan_payload-Entry added extra q))
