-- ===== src/Text/Equal.antt =====
-- The Boolean equality of texts, and replacements that find nothing.
use capybaragram_build.Prelude.{
  true, List, [], ◌∷◌, ◌≡◌, ◌↔◌, refl, sym, ap, subst, ◌∙◌, inl, inr, ◌==◌, ==_iff, Bool-cases,
  length, arith,
}
use capybaragram_build.Text.{Text, text_eq, count, pieces, join, replace_all, normalized}
use capybaragram_build.Text.Split.{IsFull, join-pieces, pieces-cons}

pub text_eq_sound : (a b : Text) → text_eq a b ≡ true → a ≡ b
unfolding text_eq
text_eq_sound [] [] h = refl
text_eq_sound [] (y ∷ b) h = cc
text_eq_sound (x ∷ a) [] h = cc
text_eq_sound (x ∷ a) (y ∷ b) h = elim (Bool-cases (x == y)) [
  | inl e ↦ cc ((==_iff x y).0 e, text_eq_sound a b (ground (arith, h, e)))
  | inr e ↦ absurd (ground (arith, h, e))
]

pub text_eq_refl : (a : Text) → text_eq a a ≡ true
unfolding text_eq
text_eq_refl [] = refl
text_eq_refl (x ∷ a) = ground (arith, text_eq_refl a)

pub text_eq_iff : (a b : Text) → (text_eq a b ≡ true) ↔ (a ≡ b)
text_eq_iff a b = (text_eq_sound a b, λ e. subst (λ c. text_eq a c ≡ true) e (text_eq_refl a))

pub replace_all-absent :
    (old new t : Text) → IsFull old → count old t ≡ 0 → replace_all old new t ≡ t
unfolding replace_all count join
replace_all-absent old new t f h = let (p, ps, e) = pieces-cons old t in go p ps e
  where
    go : (p : Text) (ps : List Text) → pieces old t ≡ p ∷ ps → join new (pieces old t) ≡ t
    go p [] e = ap (join new) e ∙ sym (ap (join old) e) ∙ join-pieces old t f
    go p (q ∷ qs) e = absurd (omega (arith, ap length e, h))

-- A text with no CR LF is normalized.
pub normalized-absent : (t : Text) → count (13 ∷ 10 ∷ []) t ≡ 0 → normalized t ≡ t
unfolding normalized
normalized-absent t h = replace_all-absent (13 ∷ 10 ∷ []) (10 ∷ []) t tt h
