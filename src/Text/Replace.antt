-- ===== src/Text/Replace.antt =====
-- What a replacement keeps, brings in and takes out.
use capybaragram_build.Prelude.{
  ℕ, zero, suc, true, List, [], ◌∷◌, ◌++◌, ◌≡◌, refl, sym, ap, subst, ◌∙◌, inl, inr, length, All,
  arith,
}
use capybaragram_build.Text.{Text, pieces, join, count, replace_all}
use capybaragram_build.Text.Occurs.{Occurs, apart, Occurs-beside, Occurs-left, Occurs-right}
use capybaragram_build.Text.Split.{
  IsFull, IsFree, IsFree-nil, join-pieces, pieces-IsFree, pieces-cons,
}

-- An occurrence of `x` survives the exchange of one separator for another that it cannot touch.
join-Occurs :
    (x old new : Text) (ps : List Text)
    → apart x old ≡ true
    → Occurs x (join old ps)
    → Occurs x (join new ps)
unfolding join
join-Occurs x old new [] h o = o
join-Occurs x old new (p ∷ []) h o = o
join-Occurs x old new (p ∷ q ∷ qs) h o = elim (Occurs-beside x old p (join old (q ∷ qs)) h o) [
  | inl l ↦ Occurs-left x p (new ++ join new (q ∷ qs)) l
  | inr r ↦
      Occurs-right x p (new ++ join new (q ∷ qs))
        (Occurs-right x new (join new (q ∷ qs)) (join-Occurs x old new (q ∷ qs) h r))
]

pub replace_all-keeps :
    (x old new t : Text)
    → IsFull old
    → apart x old ≡ true
    → Occurs x t
    → Occurs x (replace_all old new t)
unfolding replace_all
replace_all-keeps x old new t f h o =
    join-Occurs x old new (pieces old t) h (rw (join-pieces old t f) o)

-- What occurs behind a replacement, and cannot touch the new text, occurred before it.
pub replace_all-origin :
    (x old new t : Text)
    → IsFull old
    → apart x new ≡ true
    → Occurs x (replace_all old new t)
    → Occurs x t
unfolding replace_all
replace_all-origin x old new t f h o =
    rw (join-pieces old t f) at (join-Occurs x new old (pieces old t) h o)

join-IsFree :
    (old new : Text) (ps : List Text)
    → apart old new ≡ true
    → IsFree old []
    → All (IsFree old) ps
    → IsFree old (join new ps)
unfolding join
join-IsFree old new [] h e f o = e o
join-IsFree old new (p ∷ []) h e f o = f.0 o
join-IsFree old new (p ∷ q ∷ qs) h e f o = elim (Occurs-beside old new p (join new (q ∷ qs)) h o) [
  | inl l ↦ f.0 l
  | inr r ↦ join-IsFree old new (q ∷ qs) h e f.1 r
]

-- No occurrence of the old text is left.
pub replace_all-IsFree :
    (old new t : Text) → IsFull old → apart old new ≡ true → IsFree old (replace_all old new t)
unfolding replace_all
replace_all-IsFree old new t f h =
    join-IsFree old new (pieces old t) h (IsFree-nil old f) (pieces-IsFree old t f)

-- Two pieces or more are two ends of an occurrence.
join-two : (new p q : Text) (qs : List Text) → Occurs new (join new (p ∷ q ∷ qs))
unfolding join
join-two new p q qs = (p, join new (q ∷ qs), refl)

count-two :
    (old t p : Text) (ps : List Text) (k : ℕ)
    → pieces old t ≡ p ∷ ps
    → count old t ≡ suc k
    → (q : Text) × (qs : List Text) × (pieces old t ≡ p ∷ q ∷ qs)
unfolding count
count-two old t p [] k e h = absurd (omega (arith, ap length e, h))
count-two old t p (q ∷ qs) k e h = (q, qs, e)

pub count-Occurs : (old t : Text) (k : ℕ) → IsFull old → count old t ≡ suc k → Occurs old t
count-Occurs old t k f h =
    let (p, ps, e) = pieces-cons old t in
    let (q, qs, e') = count-two old t p ps k e h in
    subst (Occurs old) (ap (join old) (sym e') ∙ join-pieces old t f) (join-two old p q qs)

pub count-IsFree : (old t : Text) → IsFull old → IsFree old t → count old t ≡ 0
count-IsFree old t f free = go (count old t) refl
  where
    go : (n : ℕ) → count old t ≡ n → count old t ≡ 0
    go zero e = e
    go (suc n) e = absurd (free (count-Occurs old t n f e))

pub replace_all-Occurs :
    (old new t : Text) (k : ℕ) → count old t ≡ suc k → Occurs new (replace_all old new t)
unfolding replace_all
replace_all-Occurs old new t k h =
    let (p, ps, e) = pieces-cons old t in
    let (q, qs, e') = count-two old t p ps k e h in
    subst (λ l. Occurs new (join new l)) (sym e') (join-two new p q qs)
