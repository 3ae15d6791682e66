-- ===== src/Patch/Settled.antt =====
-- What a script's edits leave behind, from a test on the edits alone: a text that was put in and
-- that no later anchor can touch stays, and an anchor that no later text can rebuild is gone.
use capybaragram_build.Prelude.{
  ℕ, zero, suc, ◌++◌, String, Bool, true, false, not, ◌&&◌, subst, every-cons, ◌∙◌, Bool-cases, inl,
  inr, List, [], ◌∷◌, ◌≡◌, ◌≢◌, refl, ◌==◌, All, ok, err, value_error, arith, >>=-eq-ok, every,
}
use capybaragram_build.Text.{Text, count, replace_all}
use capybaragram_build.Text.Occurs.{Occurs, apart}
use capybaragram_build.Text.Split.{IsFull, IsFree}
use capybaragram_build.Text.Replace.{
  replace_all-keeps, replace_all-origin, replace_all-IsFree, replace_all-Occurs, count-IsFree,
}
use capybaragram_build.Patch.{Edit, exchange, apply}

pub exchange-eq-ok :
    (m : String) (text old new : Text) (n : ℕ) {out : Text}
    → exchange m text old new n ≡ ok out
    → (count old text ≡ n) × (out ≡ replace_all old new text)
unfolding exchange
exchange-eq-ok m text old new n h = ground (arith, h)

unfoldable pub full : Text → Bool
full [] = false
full (c ∷ cs) = true

pub full→IsFull : (t : Text) → full t ≡ true → IsFull t
unfolding full
full→IsFull [] h = cc
full→IsFull (c ∷ cs) h = tt

-- `e` puts `x` out of reach of its anchor.
unfoldable pub spares : Text → Edit → Bool
unfolding apart full
spares x e = full e.old && apart x e.old

-- Each new text is one that all later edits spare.
unfoldable pub installs : List Edit → Bool
unfolding spares every full
installs [] = true
installs (e ∷ es) = (full e.old && not (e.times == 0)) && (every (spares e.new) es && installs es)

-- `e` brings no `x` in.
unfoldable pub withholds : Text → Edit → Bool
unfolding apart full
withholds x e = full e.old && apart x e.new

-- `e` takes its anchor out, and no edit of `es` brings it back.
unfoldable pub clears : Edit → List Edit → Bool
unfolding withholds every
clears e es = every (withholds e.old) (e ∷ es)

both : (a b : Bool) → (a && b) ≡ true → (a ≡ true) × (b ≡ true)
both a b h = ground arith

positive : (n : ℕ) → not (n == 0) ≡ true → (k : ℕ) × (n ≡ suc k)
positive zero h = cc
positive (suc k) h = (k, refl)

module _ (m : String) where
  pub apply-cons :
      (e : Edit) (es : List Edit) (text out : Text)
      → apply (exchange m) (e ∷ es) text ≡ ok out
      → (mid : Text) × (count e.old text ≡ e.times)
        × (mid ≡ replace_all e.old e.new text)
        × (apply (exchange m) es mid ≡ ok out)
  unfolding apply
  apply-cons e es text out h =
      let (mid, a, b) = >>=-eq-ok (exchange m text e.old e.new e.times) (apply (exchange m) es) h in
      let (c, d) = exchange-eq-ok m text e.old e.new e.times a in (mid, c, d, b)

  apply-keeps :
      (x : Text) (es : List Edit) (text out : Text)
      → every (spares x) es ≡ true
      → Occurs x text
      → apply (exchange m) es text ≡ ok out
      → Occurs x out
  unfolding apply
  apply-keeps x [] text out h o e = subst (Occurs x) (cc) o
  apply-keeps x (f ∷ es) text out h o e =
      let (mid, n, r, rest) = apply-cons f es text out e in
      let (a, b) = every-cons (spares x) f es h in
      let (c, d) = both (full f.old) (apart x f.old) (unfold spares in a) in
      apply-keeps x es mid out b
        (rw r (replace_all-keeps x f.old f.new text (full→IsFull f.old c) d o)) rest

  -- If each replacement text is out of the reach of the later anchors, and the edits are accepted,
  -- every replacement text stands in the result.
  pub apply-Occurs :
      (es : List Edit) (text out : Text)
      → installs es ≡ true
      → apply (exchange m) es text ≡ ok out
      → All (λ e. Occurs e.new out) es
  unfolding installs
  apply-Occurs [] text out h e = tt
  apply-Occurs (f ∷ es) text out h e =
      let (mid, n, r, rest) = apply-cons f es text out e in
      let (a, b) = both (full f.old && not (f.times == 0)) _ h in
      let (c, d) = both (full f.old) (not (f.times == 0)) a in
      let (k, l) = both (every (spares f.new) es) (installs es) b in
      let (t, et) = positive f.times d in
      (
        apply-keeps f.new es mid out k (rw r (replace_all-Occurs f.old f.new text t (n ∙ et))) rest,
        apply-Occurs es mid out l rest,
      )

  apply-IsFree_rest :
      (x : Text) (es : List Edit) (text out : Text)
      → every (withholds x) es ≡ true
      → IsFree x text
      → apply (exchange m) es text ≡ ok out
      → IsFree x out
  unfolding apply
  apply-IsFree_rest x [] text out h f e = subst (IsFree x) (cc) f
  apply-IsFree_rest x (g ∷ es) text out h f e =
      let (mid, n, r, rest) = apply-cons g es text out e in
      let (a, b) = every-cons (withholds x) g es h in
      let (c, d) = both (full g.old) (apart x g.new) (unfold withholds in a) in
      apply-IsFree_rest x es mid out b
        (rw r (λ o. f (replace_all-origin x g.old g.new text (full→IsFull g.old c) d o))) rest

  -- If no replacement text of an edit and of those behind it can bring the edit's anchor back, and
  -- the edits are accepted, the anchor does not occur in the result.
  pub apply-IsFree :
      (fs : List Edit) (e : Edit) (es : List Edit) (text out : Text)
      → clears e es ≡ true
      → apply (exchange m) (fs ++ e ∷ es) text ≡ ok out
      → IsFree e.old out
  apply-IsFree [] e es text out c h =
      let (mid, n, r, rest) = apply-cons e es text out h in
      let (a, b) = every-cons (withholds e.old) e es (unfold clears in c) in
      let (k, l) = both (full e.old) (apart e.old e.new) (unfold withholds in a) in
      apply-IsFree_rest e.old es mid out b
        (rw r (replace_all-IsFree e.old e.new text (full→IsFull e.old k) l)) rest
  apply-IsFree (f ∷ fs) e es text out c h =
      let (mid, n, r, rest) = apply-cons f (fs ++ e ∷ es) text out h in
      apply-IsFree fs e es mid out c rest

  -- Without its anchor an edit is refused, whatever the edits before it do.
  pub apply-eq-err :
      (fs : List Edit) (e : Edit) (es : List Edit) (text : Text)
      → full e.old ≡ true
      → e.times ≢ 0
      → every (withholds e.old) fs ≡ true
      → IsFree e.old text
      → apply (exchange m) (fs ++ e ∷ es) text ≡ err (value_error m)
  unfolding apply exchange
  apply-eq-err [] e es text k n w f =
      ground (arith, count-IsFree e.old text (full→IsFull e.old k) f, n)
  apply-eq-err (g ∷ fs) e es text k n w f = elim (Bool-cases (count g.old text == g.times)) [
    | inl h ↦
        let (a, b) = every-cons (withholds e.old) g fs w in
        let (c, d) = both (full g.old) (apart e.old g.new) (unfold withholds in a) in
        rw h (
          apply-eq-err fs e es (replace_all g.old g.new text) k n b
            (λ o. f (replace_all-origin e.old g.old g.new text (full→IsFull g.old c) d o)))
    | inr h ↦ rw h
  ]

  -- The result of edits that were accepted is refused by a second run of them, if one edit
  -- must find its anchor, no edit before it brings that anchor in, and neither it nor one behind it does.
  pub apply_again :
      (fs : List Edit) (e : Edit) (es : List Edit) (text out : Text)
      → e.times ≢ 0
      → every (withholds e.old) fs ≡ true
      → clears e es ≡ true
      → apply (exchange m) (fs ++ e ∷ es) text ≡ ok out
      → apply (exchange m) (fs ++ e ∷ es) out ≡ err (value_error m)
  apply_again fs e es text out n w c h =
      let (a, b) = every-cons (withholds e.old) e es (unfold clears in c) in
      let (k, l) = both (full e.old) (apart e.old e.new) (unfold withholds in a) in
      apply-eq-err fs e es out k n w (apply-IsFree fs e es text out c h)
