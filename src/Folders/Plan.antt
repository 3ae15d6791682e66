-- ===== src/Folders/Plan.antt =====
-- What the shared plan guarantees, whatever the transformation: the pinned hashes hold of what was
-- read and of what is written, and `--check` accepts a tree to which the change was applied.
use capybaragram_build.Prelude.{
  Bool, true, false, require, err, [], ◌∷◌, ◌≡◌, ◌≢◌, ◌⊎◌, inl, inr, refl, sym, ap, subst, ◌∙◌,
  some, Result, ok, value_error, Error, >>=-eq-ok, require-eq-ok, if◌then◌else◌, arith,
}
use capybaragram_build.Text.{Text, count, normalized, text_eq}
use capybaragram_build.Text.Equal.{text_eq_sound, text_eq_refl, text_eq_iff, normalized-absent}
use capybaragram_build.Checkout.{Checkout, regular, read_bytes, write_bytes}
use capybaragram_build.Folders.{Pins, Messages, digest, produce, plan_one, run_one}

pub read_bytes-eq-ok :
    (c : Checkout) (name bytes : Text) → read_bytes c name ≡ ok bytes → c.file name ≡ some bytes
unfolding read_bytes
read_bytes-eq-ok c name bytes h = ground (arith, h)

pub file-write_self :
    (c : Checkout) (name raw : Text) → (write_bytes c name raw).file name ≡ some raw
unfolding write_bytes
file-write_self c name raw = rw (text_eq_refl name)

pub file-write_ne :
    (c : Checkout) (name other raw : Text)
    → name ≢ other
    → (write_bytes c name raw).file other ≡ c.file other
unfolding write_bytes
file-write_ne c name other raw h = ground (arith, text_eq_iff name other, h)

-- A regular path is no link, and leads to a place inside the checkout.
regular-inside :
    (c : Checkout) (name : Text) (e : Error)
    → regular c name e ≡ ok tt
    → (c.symlink name ≡ false) × (c.inside name ≡ ok true)
unfolding regular
regular-inside c name e h =
    let (s, h1) = unless (c.symlink name) e _ h in
    let (inside, p, h2) = >>=-eq-ok (c.inside name) _ h1 in (s, p ∙ ap ok (required inside e h2))
  where
    unless :
        (b : Bool) (e : Error) (r : Result (Unit {0}))
        → (if b then err e else r) ≡ ok tt
        → (b ≡ false) × (r ≡ ok tt)
    unless true e r h = cc h
    unless false e r h = (refl, h)

    required : (b : Bool) (e : Error) → require b e ≡ ok tt → b ≡ true
    required true e h = refl
    required false e h = cc h

module _ (sha256 : Text → Text) (say : Messages) (name : Text) (transform : Text → Result Text)
    (pins : Pins) where
  -- What a plan that succeeds has read, checked and computed.
  pub record Planned (c : Checkout) (check : Bool) (result : Text) : Type 0 where
    pub bytes : Text
    pub is_regular : regular c name (value_error say.unsafe) ≡ ok tt
    pub no_link : c.symlink name ≡ false
    pub in_place : c.inside name ≡ ok true
    pub contents : c.file name ≡ some bytes
    pub input : digest sha256 (normalized bytes) ≡ (if check then pins.post else pins.pre)
    pub product : produce transform check (normalized bytes) ≡ ok result
    pub output : digest sha256 result ≡ pins.post

  -- A plan that succeeds has found a regular file whose bytes have the pinned hash; its result is
  -- what `produce` makes of them, and has the pinned hash of the output.
  pub plan_one-Planned :
      (c : Checkout) (check : Bool) (result : Text)
      → plan_one sha256 say name transform pins c check ≡ ok result
      → Planned c check result
  unfolding plan_one
  plan_one-Planned c check result h =
      let (u, r, h1) = >>=-eq-ok (regular c name (value_error say.unsafe)) _ h in
      let (bytes, b, h2) = >>=-eq-ok (read_bytes c name) _ h1 in
      let raw = normalized bytes in
      let (i, h3) =
        require-eq-ok (text_eq (digest sha256 raw) (if check then pins.post else pins.pre))
          (value_error say.source) _ h2 in
      let (made, p, h4) = >>=-eq-ok (produce transform check raw) _ h3 in
      let (o, h5) =
        require-eq-ok (text_eq (digest sha256 made) pins.post) (value_error say.output) (ok made)
          h4 in
      let same : made ≡ result = cc h5 in
      record {
        bytes = bytes;
        is_regular = r;
        no_link = (regular-inside c name (value_error say.unsafe) r).0;
        in_place = (regular-inside c name (value_error say.unsafe) r).1;
        contents = read_bytes-eq-ok c name bytes b;
        input = text_eq_sound _ _ i;
        product = p ∙ ap ok same;
        output = ap (digest sha256) (sym same) ∙ text_eq_sound _ _ o;
      }

  plan_one_accepts :
      (c : Checkout) (raw : Text)
      → regular c name (value_error say.unsafe) ≡ ok tt
      → c.file name ≡ some raw
      → normalized raw ≡ raw
      → digest sha256 raw ≡ pins.post
      → plan_one sha256 say name transform pins c true ≡ ok raw
  unfolding plan_one
  plan_one_accepts c raw r b n d =
      let e : text_eq (digest sha256 raw) pins.post ≡ true = (text_eq_iff _ _).1 d in
      rw (r, b, n, e)

  regular-write :
      (c : Checkout) (result : Text)
      → Planned c false result
      → regular (write_bytes c name result) name (value_error say.unsafe) ≡ ok tt
  unfolding regular write_bytes
  regular-write c result plan = plan.is_regular

  run_one_accepts :
      (revision : Text) (wrong : Error) (c : Checkout) (raw : Text)
      → text_eq c.head revision ≡ true
      → plan_one sha256 say name transform pins c true ≡ ok raw
      → run_one sha256 revision wrong say name transform pins c true ≡ ok c
  unfolding run_one
  run_one_accepts revision wrong c raw h p = rw (h, p)

  -- A run that applies the change leaves a tree that `--check` accepts and does not change, when
  -- the file that it wrote holds no CR LF.
  pub run_one-check :
      (revision : Text) (wrong : Error) (c c' : Checkout) (raw : Text)
      → run_one sha256 revision wrong say name transform pins c false ≡ ok c'
      → c'.file name ≡ some raw
      → count (13 ∷ 10 ∷ []) raw ≡ 0
      → run_one sha256 revision wrong say name transform pins c' true ≡ ok c'
  unfolding run_one
  run_one-check revision wrong c c' raw h f n =
      let (rev, h1) = require-eq-ok (text_eq c.head revision) wrong _ h in
      let (result, p, h2) = >>=-eq-ok (plan_one sha256 say name transform pins c false) _ h1 in
      let written : write_bytes c name result ≡ c' = cc h2 in
      let plan = plan_one-Planned c false result p in
      let same : result ≡ raw =
        cc (file-write_self c name result, ap (λ t. t.file name) written, f) in
      let accepted =
        plan_one_accepts (write_bytes c name result) result (regular-write c result plan)
          (file-write_self c name result) (normalized-absent result (rw same n)) plan.output in
      subst (λ t. run_one sha256 revision wrong say name transform pins t true ≡ ok t) written
        (run_one_accepts revision wrong (write_bytes c name result) result
          (unfold write_bytes in rev) accepted)

  -- A run changes no file but the one that it is for, and with `--check` the tree stays as it is.
  pub run_one-file_ne :
      (revision : Text) (wrong : Error) (c c' : Checkout) (check : Bool) (other : Text)
      → run_one sha256 revision wrong say name transform pins c check ≡ ok c'
      → name ≢ other
      → (c'.file other ≡ c.file other) × ((check ≡ false) ⊎ (c' ≡ c))
  unfolding run_one
  run_one-file_ne revision wrong c c' true other h d =
      let (rev, h1) = require-eq-ok (text_eq c.head revision) wrong _ h in
      let (result, p, h2) = >>=-eq-ok (plan_one sha256 say name transform pins c true) _ h1 in
      let same : c ≡ c' = cc h2 in (ap (λ t. t.file other) (sym same), inr (sym same))
  run_one-file_ne revision wrong c c' false other h d =
      let (rev, h1) = require-eq-ok (text_eq c.head revision) wrong _ h in
      let (result, p, h2) = >>=-eq-ok (plan_one sha256 say name transform pins c false) _ h1 in
      let written : write_bytes c name result ≡ c' = cc h2 in
      (ap (λ t. t.file other) (sym written) ∙ file-write_ne c name other result d, inl refl)
