-- ===== src/Text/Listed.antt =====
-- Membership of a text in a list of texts, by Python's `in`.
use capybaragram_build.Prelude.{true, List, ◌∷◌, ◌≡◌, ◌⊎◌, inl, inr, Bool-cases, arith}
use capybaragram_build.Text.{Text, text_eq, listed}
use capybaragram_build.Text.Equal.{text_eq_sound, text_eq_refl}

pub listed-cons :
    (x y : Text) (ys : List Text) → listed x (y ∷ ys) ≡ true → (x ≡ y) ⊎ (listed x ys ≡ true)
unfolding listed
listed-cons x y ys h = elim (Bool-cases (text_eq x y)) [
  | inl e ↦ inl (text_eq_sound x y e)
  | inr e ↦ inr (ground (arith, h, e))
]

pub listed-here : (x : Text) (ys : List Text) → listed x (x ∷ ys) ≡ true
unfolding listed
listed-here x ys = ground (arith, text_eq_refl x)

pub listed-there : (x y : Text) (ys : List Text) → listed x ys ≡ true → listed x (y ∷ ys) ≡ true
unfolding listed
listed-there x y ys h = elim (Bool-cases (text_eq x y)) [
  | inl e ↦ ground (arith, e)
  | inr e ↦ ground (arith, e, h)
]
