-- ===== src/Hosts/Written.antt =====
-- What a list of writes leaves in the tree, and what the two loops of the plan of the native hosts give.
use capybaragram_build.Prelude.{
  true, false, List, [], ◌∷◌, ◌++◌, map, map-append, All, some, ◌≡◌, ◌⊎◌, inl, inr, refl, sym, ap,
  subst, ◌∙◌, Bool-cases, Result, ok, >>=-eq-ok, arith,
}
use capybaragram_build.Text.{Text, text_eq, listed}
use capybaragram_build.Text.Equal.{text_eq_sound, text_eq_iff, text_eq_refl}
use capybaragram_build.Checkout.{Checkout, write_bytes, write_all}
use capybaragram_build.Hosts.{collect}

abbrev pub names_of : List (Text × Text) → List Text
names_of entries = map (λ (entry : Text × Text). entry.0) entries

write-file :
    (c : Checkout) (name raw path : Text)
    → ((name ≡ path) × ((write_bytes c name raw).file path ≡ some raw))
      ⊎ ((text_eq path name ≡ false) × ((write_bytes c name raw).file path ≡ c.file path))
unfolding write_bytes
write-file c name raw path = elim (Bool-cases (text_eq name path)) [
  | inl e ↦ inl (text_eq_sound name path e, rw e)
  | inr e ↦ elim (Bool-cases (text_eq path name)) [
    | inl f ↦
        let same : text_eq name path ≡ true =
          (text_eq_iff name path).1 (sym (text_eq_sound path name f)) in
        cc
    | inr f ↦ inr (f, rw e)
  ]
]

module _ (P : Text × Text → Type 0) where
  -- Behind a list of writes a file is as it was, or has the text of one of them.
  pub write_all-either :
      (c : Checkout) (entries : List (Text × Text)) (path : Text)
      → All P entries
      → ((write_all c entries).file path ≡ c.file path)
        ⊎ ((raw : Text) × ((write_all c entries).file path ≡ some raw) × P (path, raw))
  unfolding write_all
  write_all-either c [] path h = inl refl
  write_all-either c ((name, raw) ∷ rest) path (p, h) =
      elim (write_all-either (write_bytes c name raw) rest path h) [
        | inr found ↦ inr found
        | inl same ↦ elim (write-file c name raw path) [
          | inl (e, f) ↦ inr (raw, same ∙ f, subst (λ n. P (n, raw)) e p)
          | inr (e, f) ↦ inl (same ∙ f)
        ]
      ]

  pub write_all-listed :
      (c : Checkout) (entries : List (Text × Text)) (path : Text)
      → All P entries
      → listed path (names_of entries) ≡ true
      → (raw : Text) × ((write_all c entries).file path ≡ some raw) × P (path, raw)
  unfolding write_all listed
  write_all-listed c [] path h l = cc
  write_all-listed c ((name, raw) ∷ rest) path (p, h) l =
      elim (write_all-either (write_bytes c name raw) rest path h) [
        | inr found ↦ found
        | inl same ↦ elim (write-file c name raw path) [
          | inl (e, f) ↦ (raw, same ∙ f, subst (λ n. P (n, raw)) e p)
          | inr (e, f) ↦
              write_all-listed (write_bytes c name raw) rest path h (ground (arith, l, e))
        ]
      ]

pub write_all-unlisted :
    (c : Checkout) (entries : List (Text × Text)) (path : Text)
    → listed path (names_of entries) ≡ false
    → (write_all c entries).file path ≡ c.file path
unfolding write_all listed
write_all-unlisted c [] path l = refl
write_all-unlisted c ((name, raw) ∷ rest) path l = elim (write-file c name raw path) [
  | inl (e, f) ↦
      let self = subst (λ n. text_eq path n ≡ true) (sym e) (text_eq_refl path) in
      absurd (ground (arith, l, self))
  | inr (e, f) ↦ write_all-unlisted (write_bytes c name raw) rest path (ground (arith, l, e)) ∙ f
]

-- What a write leaves alone.
pub write_all-rest :
    (c : Checkout) (entries : List (Text × Text))
    → ((write_all c entries).symlink ≡ c.symlink)
      × ((write_all c entries).other ≡ c.other)
      × ((write_all c entries).inside ≡ c.inside)
      × ((write_all c entries).within ≡ c.within)
      × ((write_all c entries).head ≡ c.head)
unfolding write_all write_bytes
write_all-rest c [] = (refl, refl, refl, refl, refl)
write_all-rest c ((name, raw) ∷ rest) = write_all-rest (write_bytes c name raw) rest

pub collect-names :
    {A : Type 0} (body : A → Result (List (Text × Text))) (name : A → Text)
    (each : (a : A) (out : List (Text × Text)) → body a ≡ ok out → names_of out ≡ name a ∷ [])
    (xs : List A) (out : List (Text × Text))
    → collect body xs ≡ ok out
    → names_of out ≡ map name xs
unfolding collect
collect-names body name each [] out h = let same : [] ≡ out = cc h in rw (← same)
collect-names body name each (x ∷ xs) out h =
    let (here, p, h1) = >>=-eq-ok (body x) _ h in
    let (more, q, h2) = >>=-eq-ok (collect body xs) _ h1 in
    let same : here ++ more ≡ out = cc h2 in
    ap names_of (sym same)
    ∙ map-append (λ (entry : Text × Text). entry.0) here more
    ∙ ap (λ t. t ++ names_of more) (each x here p)
    ∙ ap (λ t. name x ∷ t) (collect-names body name each xs more q)

pub collect-each :
    {A : Type 0} (body : A → Result (List (Text × Text))) (P : A → Type 0)
    (each : (a : A) (out : List (Text × Text)) → body a ≡ ok out → P a) (xs : List A)
    (out : List (Text × Text))
    → collect body xs ≡ ok out
    → All P xs
unfolding collect
collect-each body P each [] out h = tt
collect-each body P each (x ∷ xs) out h =
    let (here, p, h1) = >>=-eq-ok (body x) _ h in
    let (more, q, h2) = >>=-eq-ok (collect body xs) _ h1 in
    (each x here p, collect-each body P each xs more q)

pub collect-nil :
    {A : Type 0} (body : A → Result (List (Text × Text))) (xs : List A)
    → All (λ x. body x ≡ ok []) xs
    → collect body xs ≡ ok []
unfolding collect
collect-nil body [] h = refl
collect-nil body (x ∷ xs) (h, hs) = rw (h, collect-nil body xs hs)
