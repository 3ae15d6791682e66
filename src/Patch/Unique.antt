-- ===== src/Patch/Unique.antt =====
-- An anchor that cannot overlap itself, and was counted once, occurs at one place only.
use capybaragram_build.Prelude.{
  ℕ, String, Bool, true, false, not, List, [], ◌∷◌, ◌++◌, ◌≡◌, sym, ap, subst, ◌∙◌, inl, inr, All,
  length, ok, arith, append-nil,
}
use capybaragram_build.Text.{Text, pieces, join, count, replace_all}
use capybaragram_build.Text.Occurs.{append_split, meets, meets-end}
use capybaragram_build.Text.Split.{IsFull, IsFree, join-pieces, pieces-IsFree, pieces-cons}
use capybaragram_build.Patch.{exchange}
use capybaragram_build.Patch.Settled.{exchange-eq-ok}

-- No end of `old` but itself may start where `old` does.
unfoldable pub borderless : Text → Bool
unfolding meets
borderless [] = false
borderless (c ∷ cs) = not (meets cs (c ∷ cs))

-- An anchor that stands later in the same text stands behind the first one's end.
shift :
    (old u v x : Text) (z : ℕ)
    → borderless old ≡ true
    → old ++ u ≡ (z ∷ x) ++ (old ++ v)
    → (y : Text) × (z ∷ x ≡ old ++ y) × (u ≡ y ++ (old ++ v))
unfolding borderless
shift [] u v x z h e = cc
shift (o ∷ os) u v x z h e = elim (append_split (o ∷ os) (z ∷ x) u ((o ∷ os) ++ v) e) [
  | inl (y, f, g) ↦ (y, f, g)
  | inr (y, f, g) ↦ overlap y f g
]
  where
    overlap :
        (y : Text)
        → o ∷ os ≡ (z ∷ x) ++ y
        → (o ∷ os) ++ v ≡ y ++ u
        → (y' : Text) × (z ∷ x ≡ (o ∷ os) ++ y') × (u ≡ y' ++ ((o ∷ os) ++ v))
    overlap [] f g = ([], sym (append-nil (z ∷ x)) ∙ sym f ∙ sym (append-nil (o ∷ os)), sym g)
    overlap (w ∷ y) f g =
        absurd (meets-end os (o ∷ os) x y u v w (ground (arith, h)) (cc f) (sym g))

cancel : (a u v : Text) → a ++ u ≡ a ++ v → u ≡ v
cancel [] u v e = e
cancel (x ∷ a) u v e = cancel a u v (cc)

module _ (old p q : Text) (h : borderless old ≡ true) (fp : IsFree old p) (fq : IsFree old q) where
  same_place : (c d : Text) → c ++ (old ++ d) ≡ p ++ (old ++ q) → (c ≡ p) × (d ≡ q)
  same_place c d e = elim (append_split c p (old ++ d) (old ++ q) e) [
    | inl (x, f, g) ↦ earlier x f g
    | inr (x, f, g) ↦ later x f g
  ]
    where
      earlier : (x : Text) → p ≡ c ++ x → old ++ d ≡ x ++ (old ++ q) → (c ≡ p) × (d ≡ q)
      earlier [] f g = (sym (append-nil c) ∙ sym f, cancel old d q g)
      earlier (z ∷ x) f g =
          let (y, k, l) = shift old d q x z h g in absurd (fp (c, y, f ∙ ap (λ t. c ++ t) k))

      later : (x : Text) → c ≡ p ++ x → old ++ q ≡ x ++ (old ++ d) → (c ≡ p) × (d ≡ q)
      later [] f g = (f ∙ append-nil p, sym (cancel old q d g))
      later (z ∷ x) f g = let (y, k, l) = shift old q d x z h g in absurd (fq (y, d, l))

two_pieces :
    (old text : Text)
    → count old text ≡ 1
    → (p : Text) × (q : Text) × (pieces old text ≡ p ∷ q ∷ [])
unfolding count
two_pieces old text h = let (p, ps, e) = pieces-cons old text in go p ps e
  where
    go :
        (p : Text) (ps : List Text)
        → pieces old text ≡ p ∷ ps
        → (p : Text) × (q : Text) × (pieces old text ≡ p ∷ q ∷ [])
    go p [] e = absurd (omega (arith, ap length e, h))
    go p (q ∷ []) e = (p, q, e)
    go p (q ∷ r ∷ rs) e = absurd (omega (arith, ap length e, h))

borderless-IsFull : (old : Text) → borderless old ≡ true → IsFull old
unfolding borderless
borderless-IsFull [] h = cc
borderless-IsFull (c ∷ cs) h = tt

-- An exchange that succeeds on such an anchor splits the text at its only occurrence, and puts
-- the new text there: the text before and behind stays as it was.
pub exchange_unique :
    (m : String) (text old new out : Text)
    → borderless old ≡ true
    → exchange m text old new 1 ≡ ok out
    → (a : Text) × (b : Text) × (text ≡ a ++ (old ++ b))
      × (out ≡ a ++ (new ++ b))
      × ((c d : Text) → text ≡ c ++ (old ++ d) → (c ≡ a) × (d ≡ b))
unfolding replace_all join
exchange_unique m text old new out h e =
    let (n, r) = exchange-eq-ok m text old new 1 e in
    let (p, q, s) = two_pieces old text n in
    let full = borderless-IsFull old h in
    let free = subst (All (IsFree old)) s (pieces-IsFree old text full) in
    let whole : text ≡ p ++ (old ++ q) = sym (join-pieces old text full) ∙ ap (join old) s in
    (
      p,
      q,
      whole,
      r ∙ ap (join new) s,
      λ c d f. same_place old p q h free.0 free.1.0 c d (sym f ∙ whole),
    )

-- An exchange that succeeds on an anchor that cannot overlap itself puts the new text at the
-- anchor's only place: wherever one finds the anchor in the text, the result is the text with the new
-- text there, and the text before and behind as it was.
pub exchange_place :
    (m : String) (text old new out before behind : Text)
    → borderless old ≡ true
    → exchange m text old new 1 ≡ ok out
    → text ≡ before ++ (old ++ behind)
    → out ≡ before ++ (new ++ behind)
exchange_place m text old new out before behind h e p =
    let (a, b, whole, result, only) = exchange_unique m text old new out h e in
    let (s, t) = only before behind p in cc (result, s, t)
