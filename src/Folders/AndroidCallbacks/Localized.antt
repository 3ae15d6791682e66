-- ===== src/Folders/AndroidCallbacks/Localized.antt =====
-- What the rewriting of the Android callbacks does to the text.
use capybaragram_build.Prelude.{
  ℕ, ◌+◌, ◌-◌, ◌==◌, ◌≤◌, Bool, true, false, List, [], ◌∷◌, ◌++◌, ◌≡◌, refl, sym, ap, subst, ◌∙◌,
  take, drop, drop-append, All, length, none, some, Option-cases, inl, inr, Result, ok, Error,
  value_error, ◌>>=◌, ◌>>◌, require, refuse, >>=-eq-ok, refuse-eq-ok, arith,
}
use capybaragram_build.Text.{
  Text, codes, block, pieces, join, count, find, replace_all, replace_first, contains,
}
use capybaragram_build.Text.Occurs.{apart}
use capybaragram_build.Text.Split.{IsFull, IsFree, join-pieces, pieces-IsFree}
use capybaragram_build.Text.Replace.{replace_all-IsFree, count-IsFree}
use capybaragram_build.Text.Slice.{
  index, index_from, index_sound, index_from_sound, find_sound, find-IsFree, contains-IsFree,
  take-append-drop, drop-drop,
}
use capybaragram_build.Folders.AndroidCallbacks.{
  callback, declaration, next_field, assignment, completion, rename, undeclared, unassigned,
  uncompleted, localize, transform,
}

-- `u` is `t`, or `t` without one of its places of `x`.
pub data MayDrop (x : Text) : Text → Text → Type 0 where
  whole : (t : Text) → MayDrop x t t
  without : (a b : Text) → MayDrop x (a ++ (x ++ b)) (a ++ b)

-- `u` is `t` with `new` at places where `t` has `old`, and `old` is nowhere else in `t`.
pub record Exchanged (old new t u : Text) : Type 0 where
  pub parts : List Text
  pub whole : t ≡ join old parts
  pub exchanged : u ≡ join new parts
  pub free : All (IsFree old) parts

-- How the section is rewritten: the declaration's line may go, the one assignment goes, the lines of
-- the three resets go, and what is left of the callback gets the name of the argument.
pub record Localized (old section : Text) : Type 0 where
  pub without_declaration : Text
  pub before : Text
  pub behind : Text
  pub without_resets : Text
  pub declared : MayDrop (declaration ++ block ("" ∷ "" ∷ "" ∷ [])) old without_declaration
  pub assigned : without_declaration ≡ before ++ (assignment ++ behind)
  pub assigned_once : count assignment without_declaration ≡ 1
  pub three_resets : count completion (before ++ behind) ≡ 3
  pub resets : Exchanged (completion ++ block ("" ∷ "" ∷ [])) [] (before ++ behind) without_resets
  pub renamed : Exchanged callback (codes "whenDone") without_resets section

replace_all-Exchanged :
    (old new t : Text) → IsFull old → Exchanged old new t (replace_all old new t)
unfolding replace_all
replace_all-Exchanged old new t f = record {
  parts = pieces old t;
  whole = sym (join-pieces old t f);
  exchanged = refl;
  free = pieces-IsFree old t f;
}

replaced_at :
    (x t : Text) (i : ℕ)
    → find x t ≡ some i
    → replace_first x [] t ≡ take i t ++ drop (i + length x) t
unfolding replace_first
replaced_at x t i h = cc

-- Where the first place is, and what `replace_first` leaves when it takes it out.
first_place :
    (x t : Text) (i : ℕ)
    → find x t ≡ some i
    → (b : Text) × (t ≡ take i t ++ (x ++ b)) × (replace_first x [] t ≡ take i t ++ b)
first_place x t i h =
    let (b, e) = find_sound x t i h in
    let behind : drop (i + length x) t ≡ b =
      sym (drop-drop i (length x) t) ∙ ap (drop (length x)) e ∙ drop-append x b in
    (
      b,
      sym (take-append-drop i t) ∙ ap (λ u. take i t ++ u) e,
      replaced_at x t i h ∙ ap (λ u. take i t ++ u) behind,
    )

no_place : (x t : Text) → find x t ≡ none → replace_first x [] t ≡ t
unfolding replace_first
no_place x t h = cc

replace_first-MayDrop : (x t : Text) → MayDrop x t (replace_first x [] t)
replace_first-MayDrop x t = elim (Option-cases (find x t)) [
  | inl n ↦ subst (MayDrop x t) (sym (no_place x t n)) (whole t)
  | inr (i, n) ↦
      let (b, e, f) = first_place x t i n in
      subst (λ u. MayDrop x u (replace_first x [] t)) (sym e)
        (subst (MayDrop x (take i t ++ (x ++ b))) (sym f) (without (take i t) b))
]

replace_first-counted :
    (x t : Text)
    → IsFull x
    → count x t ≡ 1
    → (a : Text) × (b : Text) × (t ≡ a ++ (x ++ b)) × (replace_first x [] t ≡ a ++ b)
replace_first-counted x t f h = elim (Option-cases (find x t)) [
  | inl n ↦ absurd (omega (arith, h, count-IsFree x t f (find-IsFree x t n)))
  | inr (i, n) ↦ let (b, e, r) = first_place x t i n in (take i t, b, e, r)
]

two_checks :
    (s t : Bool) (e f : Error) (r out : Text)
    → (require s e >> (require t f >> ok r)) ≡ ok out
    → (s ≡ true) × (t ≡ true) × (out ≡ r)
two_checks s t e f r out h = (ground (arith, h), ground (arith, h), ground (arith, h))

localize-Localized :
    (old section : Text)
    → localize old ≡ ok section
    → Localized old section × IsFree callback section
unfolding localize unassigned uncompleted undeclared rename apart
localize-Localized old section h =
    let (one, three, e) =
      two_checks (count assignment (undeclared old) == 1) (count completion (unassigned old) == 3) _
        _ (rename (uncompleted old)) section h in
    let (a, b, f, g) = replace_first-counted assignment (undeclared old) tt (grind (arith, one)) in
    (
      record {
        without_declaration = undeclared old;
        before = a;
        behind = b;
        without_resets = uncompleted old;
        declared = replace_first-MayDrop (declaration ++ block ("" ∷ "" ∷ "" ∷ [])) old;
        assigned = f;
        assigned_once = grind (arith, one);
        three_resets = subst (λ t. count completion t ≡ 3) g (grind (arith, three));
        resets =
            subst (λ t. Exchanged (completion ++ block ("" ∷ "" ∷ [])) [] t (uncompleted old)) g
              (replace_all-Exchanged (completion ++ block ("" ∷ "" ∷ [])) [] (unassigned old) tt);
        renamed =
            subst (Exchanged callback (codes "whenDone") (uncompleted old)) (sym e)
              (replace_all-Exchanged callback (codes "whenDone") (uncompleted old) tt);
      },
      subst (IsFree callback) (sym e)
          (replace_all-IsFree callback (codes "whenDone") (uncompleted old) tt refl),
    )

chain_checked :
    {A B : Type 0} (m : Result A) (f : A → Result B) (g : A → B → Result Text) (t : A → B → Bool)
    (e : Error) (r : A → B → Text → Text) (out : Text)
    → (m >>= λ a. f a >>= λ b. g a b >>= λ c. refuse (t a b) e >> ok (r a b c)) ≡ ok out
    → (a : A) × (b : B) × (c : Text) × (m ≡ ok a)
      × (f a ≡ ok b)
      × (g a b ≡ ok c)
      × (t a b ≡ false)
      × (out ≡ r a b c)
chain_checked m f g t e r out h =
    let (a, ea, ha) = >>=-eq-ok m _ h in
    let (b, eb, hb) = >>=-eq-ok (f a) _ ha in
    let (c, ec, hc) = >>=-eq-ok (g a b) _ hb in
    let (k, hk) = refuse-eq-ok (t a b) e (ok (r a b c)) hc in (a, b, c, ea, eb, ec, k, sym (cc hk))

-- A slice between two places in order, and what stands behind it.
take-drop-between : (i j : ℕ) (t : Text) → i ≤ j → take (j - i) (drop i t) ++ drop j t ≡ drop i t
take-drop-between i j t h =
    let at : i + (j - i) ≡ j = omega (arith, h) in
    ap (λ u. take (j - i) (drop i t) ++ u)
      (sym (ap (λ n. drop n t) at) ∙ sym (drop-drop i (j - i) t))
    ∙ take-append-drop (j - i) (drop i t)

-- If the transformation succeeds, the text is three parts: the middle starts at the declaration, and the
-- last at the next field. The result is the first and the last part unchanged around the middle part
-- rewritten as Localized says, and no part of it refers to the shared callback.
pub transform-Localized :
    (text out : Text)
    → transform text ≡ ok out
    → (before : Text) × (old : Text) × (section : Text) × (behind : Text) × (text
        ≡ before ++ (old ++ behind))
      × (out ≡ before ++ (section ++ behind))
      × ((tail : Text) × (old ++ behind ≡ declaration ++ tail))
      × ((tail : Text) × (behind ≡ next_field ++ tail))
      × Localized old section
      × IsFree callback section
      × IsFree callback (before ++ behind)
unfolding transform
transform-Localized text out h =
    let (i, j, section, first, last, e, free, r) =
      chain_checked (index declaration text) (index_from next_field text)
        (λ start end. localize (take (end - start) (drop start text)))
        (λ start end. contains callback (take start text ++ drop end text))
        (value_error "Unexpected shared callback reference outside reviewed methods")
        (λ start end s. take start text ++ (s ++ drop end text)) out h in
    let (from, starts, k) = index_sound declaration text i first in
    let (after, gap, ends, l, le) = index_from_sound next_field text i j last in
    let middle = take-drop-between i j text le in
    let (localized, absent) = localize-Localized (take (j - i) (drop i text)) section e in
    (
      take i text,
      take (j - i) (drop i text),
      section,
      drop j text,
      sym (take-append-drop i text) ∙ ap (λ u. take i text ++ u) (sym middle),
      r,
      (from, middle ∙ starts),
      (after, ends),
      localized,
      absent,
      contains-IsFree callback (take i text ++ drop j text) free,
    )
