-- ===== src/Text/Split.antt =====
-- What `split`, `count` and `replace` do: the pieces are what lies between the occurrences.
use capybaragram_build.Prelude.{
  ℕ, zero, suc, ◌-◌, true, false, List, [], ◌∷◌, ◌++◌, ◌≡◌, refl, sym, ap, subst, ◌∙◌, inl, inr,
  length, drop, drop-append, All, Bool-cases, append_assoc, append-nil, arith,
}
use capybaragram_build.Text.{Text, is_prefix, pieces_from, cons_head, pieces, join}
use capybaragram_build.Text.Occurs.{Occurs, is_prefix_sound, is_prefix-append}

-- a text that is not empty
abbrev pub IsFull : Text → Type 0
IsFull [] = ⊥
IsFull (c ∷ cs) = Unit

join-cons_head : (new : Text) (c : ℕ) (ps : List Text) → join new (cons_head c ps) ≡ c ∷ join new ps
unfolding join
join-cons_head new c [] = refl
join-cons_head new c (p ∷ []) = refl
join-cons_head new c (p ∷ q ∷ ps) = refl

pieces_from-cons :
    (old : Text) (k : ℕ) (t : Text) → (p : Text) × (ps : List Text) × (pieces_from old k t ≡ p ∷ ps)
unfolding pieces_from
pieces_from-cons old k [] = ([], [], refl)
pieces_from-cons old (suc k) (c ∷ cs) = pieces_from-cons old k cs
pieces_from-cons old zero (c ∷ cs) =
    let (p, ps, e) = pieces_from-cons old 0 cs in
    elim (Bool-cases (is_prefix old (c ∷ cs))) [
      | inl h ↦ ([], pieces_from old (length old - 1) cs, ground (arith, h))
      | inr h ↦ (c ∷ p, ps, ground (arith, h, e))
    ]

join-nil_cons :
    (old : Text) (k : ℕ) (t : Text)
    → join old ([] ∷ pieces_from old k t) ≡ old ++ join old (pieces_from old k t)
unfolding join
join-nil_cons old k t = let (p, ps, e) = pieces_from-cons old k t in rw e

drop_prefix :
    (old t : Text) (c : ℕ)
    → IsFull old
    → is_prefix old (c ∷ t) ≡ true
    → old ++ drop (length old - 1) t ≡ c ∷ t
drop_prefix [] t c f h = absurd f
drop_prefix (o ∷ os) t c f h = let (b, e) = is_prefix_sound (o ∷ os) (c ∷ t) h in go b e
  where
    go : (b : Text) → c ∷ t ≡ o ∷ (os ++ b) → o ∷ (os ++ drop (suc (length os) - 1) t) ≡ c ∷ t
    go b e =
        let tail : t ≡ os ++ b = cc e in
        let n : suc (length os) - 1 ≡ length os = omega arith in
        rw (n, tail, drop-append os b) (sym (cc (e, tail)))

pieces_from-hit :
    (old : Text) (c : ℕ) (cs : Text)
    → is_prefix old (c ∷ cs) ≡ true
    → pieces_from old 0 (c ∷ cs) ≡ [] ∷ pieces_from old (length old - 1) cs
unfolding pieces_from
pieces_from-hit old c cs h = ground (arith, h)

pieces_from-miss :
    (old : Text) (c : ℕ) (cs : Text)
    → is_prefix old (c ∷ cs) ≡ false
    → pieces_from old 0 (c ∷ cs) ≡ cons_head c (pieces_from old 0 cs)
unfolding pieces_from
pieces_from-miss old c cs h = ground (arith, h)

join-hit :
    (old : Text) (c : ℕ) (cs : Text)
    → IsFull old
    → is_prefix old (c ∷ cs) ≡ true
    → join old (pieces_from old (length old - 1) cs) ≡ drop (length old - 1) cs
    → join old (pieces_from old 0 (c ∷ cs)) ≡ c ∷ cs
join-hit old c cs f h ih =
    rw (pieces_from-hit old c cs h, join-nil_cons old (length old - 1) cs, ih)
      (drop_prefix old cs c f h)

join-miss :
    (old : Text) (c : ℕ) (cs : Text)
    → is_prefix old (c ∷ cs) ≡ false
    → join old (pieces_from old 0 cs) ≡ cs
    → join old (pieces_from old 0 (c ∷ cs)) ≡ c ∷ cs
join-miss old c cs h ih = rw (pieces_from-miss old c cs h, join-cons_head, ih)

-- The pieces, with `old` between them, are the text again.
join-pieces_from :
    (old : Text) (k : ℕ) (t : Text) → IsFull old → join old (pieces_from old k t) ≡ drop k t
unfolding pieces_from join
join-pieces_from old zero [] f = refl
join-pieces_from old (suc k) [] f = refl
join-pieces_from old (suc k) (c ∷ cs) f = join-pieces_from old k cs f
join-pieces_from old zero (c ∷ cs) f = elim (Bool-cases (is_prefix old (c ∷ cs))) [
  | inl h ↦ join-hit old c cs f h (join-pieces_from old (length old - 1) cs f)
  | inr h ↦ join-miss old c cs h (join-pieces_from old 0 cs f)
]

pub join-pieces : (old t : Text) → IsFull old → join old (pieces old t) ≡ t
join-pieces old t f = join-pieces_from old 0 t f

-- The first piece starts the joined text.
join-head : (old p : Text) (ps : List Text) → (r : Text) × (join old (p ∷ ps) ≡ p ++ r)
unfolding join
join-head old p [] = ([], sym (append-nil p))
join-head old p (q ∷ qs) = (old ++ join old (q ∷ qs), refl)

abbrev pub IsFree : Text → Text → Type 0
IsFree old p = ¬ Occurs old p

pub IsFree-nil : (old : Text) → IsFull old → IsFree old []
IsFree-nil [] f o = absurd f
IsFree-nil (x ∷ xs) f ([], b, e) = cc
IsFree-nil (x ∷ xs) f (y ∷ a, b, e) = cc

IsFree-cons :
    (old : Text) (c : ℕ) (p r : Text)
    → is_prefix old (c ∷ (p ++ r)) ≡ false
    → IsFree old p
    → IsFree old (c ∷ p)
IsFree-cons old c p r h f ([], b, e) =
    let whole : c ∷ (p ++ r) ≡ old ++ (b ++ r) = ap (λ t. t ++ r) e ∙ append_assoc old b r in
    cc (h, ap (is_prefix old) whole, is_prefix-append old (b ++ r))
IsFree-cons old c p r h f (y ∷ a, b, e) = f (a, b, cc)

IsFree-cons_head :
    (old : Text) (c : ℕ) (cs : Text) (ps : List Text)
    → join old ps ≡ cs
    → is_prefix old (c ∷ cs) ≡ false
    → (p : Text) × (qs : List Text) × (ps ≡ p ∷ qs)
    → All (IsFree old) ps
    → All (IsFree old) (cons_head c ps)
IsFree-cons_head old c cs [] e h full f = absurd (cc full.2)
IsFree-cons_head old c cs (p ∷ ps) e h full f =
    let (r, er) = join-head old p ps in
    (IsFree-cons old c p r (cc (h, ap (λ t. is_prefix old (c ∷ t)) (sym e ∙ er))) f.0, f.1)

hit-IsFree :
    (old : Text) (c : ℕ) (cs : Text)
    → IsFull old
    → is_prefix old (c ∷ cs) ≡ true
    → All (IsFree old) (pieces_from old (length old - 1) cs)
    → All (IsFree old) (pieces_from old 0 (c ∷ cs))
hit-IsFree old c cs f h ih =
    subst (All (IsFree old)) (sym (pieces_from-hit old c cs h)) (IsFree-nil old f, ih)

miss-IsFree :
    (old : Text) (c : ℕ) (cs : Text)
    → IsFull old
    → is_prefix old (c ∷ cs) ≡ false
    → All (IsFree old) (pieces_from old 0 cs)
    → All (IsFree old) (pieces_from old 0 (c ∷ cs))
miss-IsFree old c cs f h ih = subst (All (IsFree old)) (sym (pieces_from-miss old c cs h)) (
    IsFree-cons_head old c cs (pieces_from old 0 cs) (join-pieces_from old 0 cs f) h
      (pieces_from-cons old 0 cs) ih)

-- No piece holds `old`.
pieces_from-IsFree :
    (old : Text) (k : ℕ) (t : Text) → IsFull old → All (IsFree old) (pieces_from old k t)
unfolding pieces_from
pieces_from-IsFree old zero [] f = (IsFree-nil old f, tt)
pieces_from-IsFree old (suc k) [] f = (IsFree-nil old f, tt)
pieces_from-IsFree old (suc k) (c ∷ cs) f = pieces_from-IsFree old k cs f
pieces_from-IsFree old zero (c ∷ cs) f = elim (Bool-cases (is_prefix old (c ∷ cs))) [
  | inl h ↦ hit-IsFree old c cs f h (pieces_from-IsFree old (length old - 1) cs f)
  | inr h ↦ miss-IsFree old c cs f h (pieces_from-IsFree old 0 cs f)
]

pub pieces-IsFree : (old t : Text) → IsFull old → All (IsFree old) (pieces old t)
pieces-IsFree old t f = pieces_from-IsFree old 0 t f

pub pieces-cons : (old t : Text) → (p : Text) × (ps : List Text) × (pieces old t ≡ p ∷ ps)
pieces-cons old t = pieces_from-cons old 0 t
