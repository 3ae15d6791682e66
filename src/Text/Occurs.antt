-- ===== src/Text/Occurs.antt =====
-- Where one text occurs in another, and a test on two texts that keeps their occurrences apart.
use capybaragram_build.Prelude.{
  ℕ, Bool, true, false, not, [], ◌∷◌, ◌++◌, ◌≡◌, ◌≢◌, refl, sym, ap, ◌∙◌, ◌⊎◌, inl, inr, ◌==◌,
  Bool-cases, append_assoc, append-nil, arith,
}
use capybaragram_build.Text.{Text, is_prefix}

-- `x in t`, with a place
abbrev pub Occurs : Text → Text → Type 0
Occurs x t = (a : Text) × (b : Text) × (t ≡ a ++ (x ++ b))

pub append_split :
    (a p x y : Text)
    → a ++ x ≡ p ++ y
    → ((c : Text) × (p ≡ a ++ c) × (x ≡ c ++ y)) ⊎ ((c : Text) × (a ≡ p ++ c) × (y ≡ c ++ x))
append_split [] p x y e = inl (p, refl, e)
append_split (u ∷ a) [] x y e = inr (u ∷ a, refl, sym e)
append_split (u ∷ a) (v ∷ p) x y e = elim (append_split a p x y (cc)) [
  | inl (c, f, g) ↦ inl (c, cc, g)
  | inr (c, f, g) ↦ inr (c, cc, g)
]

pub is_prefix_sound : (x t : Text) → is_prefix x t ≡ true → (b : Text) × (t ≡ x ++ b)
unfolding is_prefix
is_prefix_sound [] t h = (t, refl)
is_prefix_sound (c ∷ x) [] h = cc
is_prefix_sound (c ∷ x) (d ∷ t) h = elim (Bool-cases (c == d)) [
  | inl e ↦ let (b, f) = is_prefix_sound x t (ground arith) in (b, ground (arith, f))
  | inr e ↦ absurd (ground arith)
]

pub is_prefix-append : (x b : Text) → is_prefix x (x ++ b) ≡ true
unfolding is_prefix
is_prefix-append [] b = refl
is_prefix-append (c ∷ x) b = ground (arith, is_prefix-append x b)

-- One of the two is the start of the other.
unfoldable pub comparable : Text → Text → Bool
unfolding is_prefix
comparable x y = elim (is_prefix x y) [ true ↦ true | false ↦ is_prefix y x ]

pub append-comparable : (x y b q : Text) → x ++ b ≡ y ++ q → comparable x y ≡ true
unfolding comparable
append-comparable x y b q e = elim (append_split x y b q e) [
  | inl (c, f, g) ↦ rw f (ground (arith, is_prefix-append x c))
  | inr (c, f, g) ↦ rw f (ground (arith, is_prefix-append y c))
]

-- An end of `x`, not empty, may start where `y` does.
unfoldable pub meets : Text → Text → Bool
unfolding comparable
meets [] y = false
meets (c ∷ x) y = elim (comparable (c ∷ x) y) [ true ↦ true | false ↦ meets x y ]

pub meets-end :
    (x y c d b q : Text) (z : ℕ) → meets x y ≡ false → x ≡ c ++ (z ∷ d) → (z ∷ d) ++ b ≢ y ++ q
unfolding meets
meets-end [] y [] d b q z h e f = cc
meets-end [] y (w ∷ c) d b q z h e f = cc
meets-end (u ∷ x) y [] d b q z h e f =
    ground (arith, append-comparable (u ∷ x) y b q (ap (λ t. t ++ b) e ∙ f), h)
meets-end (u ∷ x) y (w ∷ c) d b q z h e f = meets-end x y c d b q z (ground arith) (cc) f

-- No occurrence of the one can touch an occurrence of the other.
unfoldable pub apart : Text → Text → Bool
unfolding meets
apart x y = elim (meets x y) [ true ↦ false | false ↦ not (meets y x) ]

pub apart-meets : (x y : Text) → apart x y ≡ true → (meets x y ≡ false) × (meets y x ≡ false)
unfolding apart
apart-meets x y h = ground arith

-- An occurrence of `x` in a text that holds `o` lies wholly before it or wholly behind it.
pub Occurs-beside :
    (x o p q : Text) → apart x o ≡ true → Occurs x (p ++ (o ++ q)) → Occurs x p ⊎ Occurs x q
Occurs-beside x o p q h (a, b, e) = elim (append_split a p (x ++ b) (o ++ q) (sym e)) [
  | inl (c, f, g) ↦ elim (append_split x c b (o ++ q) g) [
    | inl (d, k, l) ↦ inl (a, d, f ∙ ap (λ t. a ++ t) k)
    | inr (d, k, l) ↦ before c f d k l
  ]
  | inr (c, f, g) ↦ elim (append_split o c q (x ++ b) g) [
    | inl (d, k, l) ↦ inr (d, b, l)
    | inr (d, k, l) ↦ behind c d k l
  ]
]
  where
    before :
        (c : Text)
        → p ≡ a ++ c
        → (d : Text) → x ≡ c ++ d
        → o ++ q ≡ d ++ b
        → Occurs x p ⊎ Occurs x q
    before c f [] k l =
        inl (a, [], f ∙ ap (λ t. a ++ t) (sym (append-nil c) ∙ sym k ∙ sym (append-nil x)))
    before c f (z ∷ d) k l = absurd (meets-end x o c d b q z (apart-meets x o h).0 k (sym l))

    behind : (c d : Text) → o ≡ c ++ d → x ++ b ≡ d ++ q → Occurs x p ⊎ Occurs x q
    behind c [] k l = inr ([], b, sym l)
    behind c (z ∷ d) k l = absurd (meets-end o x c d q b z (apart-meets x o h).1 k (sym l))

pub Occurs-left : (x p q : Text) → Occurs x p → Occurs x (p ++ q)
Occurs-left x p q (a, b, e) = (a, b ++ q, rw e (simp append_assoc))

pub Occurs-right : (x p q : Text) → Occurs x q → Occurs x (p ++ q)
Occurs-right x p q (a, b, e) = (p ++ a, b, rw e (simp append_assoc))
