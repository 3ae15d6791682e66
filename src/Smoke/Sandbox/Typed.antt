-- ===== src/Smoke/Sandbox/Typed.antt =====
-- When the sandbox script types.
use capybaragram_build.Prelude.{
  Bool, true, false, List, ◌&&◌, [], ◌∷◌, ◌≡◌, refl, ap, subst, ◌∙◌, any, arith,
}
use capybaragram_build.Text.{Text, codes, text_eq}
use capybaragram_build.Device.{
  Event, noted, text, Node, Tree, raise, require, World, Trace, Outcome, returned, raised, M,
  continue, finally, note, sleep, ◌>>=◌,
}
use capybaragram_build.Device.Emits.{Extends-trans, Extends, same, more, Emits}
use capybaragram_build.Device.Returns.{
  bind-returned, require-returned, return-returned, emit-returned,
}
use capybaragram_build.Device.Screen.{is, tap}
use capybaragram_build.Device.Snapshot.{snapshot}
use capybaragram_build.Device.Snapshot.Attempted.{Fresh, anything}
use capybaragram_build.Device.Snapshot.Fresh.{snapshot-Fresh}
use capybaragram_build.Smoke.{Setup}
use capybaragram_build.Smoke.Finish.{finish}
use capybaragram_build.Smoke.Silent.{silent, finish-silent}
use capybaragram_build.Smoke.Sandbox.{reach_form, sign_in, session, run}
use capybaragram_build.Smoke.Sandbox.Actions.{only}
use capybaragram_build.Smoke.Sandbox.Launch.{prepare}
use capybaragram_build.Smoke.Sandbox.Number.{backends, backend, select_backend}
use capybaragram_build.Smoke.Sandbox.Later.{sign_in-Emits}
use capybaragram_build.Smoke.Sandbox.Reach.{
  prepare-silent, reach_form-silent, select_backend-silent,
}

-- `result['test_backend_selected'] = 'PASS'`
unfoldable pub confirms : Event → Bool
unfolding text_eq
confirms (noted key (text value)) =
    text_eq key (codes "test_backend_selected") && text_eq value (codes "PASS")
confirms e = false

-- The confirmation is noted, and before that the script has read a hierarchy, dumped for the purpose, in
-- which the only selector of the test backend is checked.
pub record Confirmed (w : World) (t : Trace) : Type 0 where
  pub noted_once : any confirms t ≡ true
  pub asked : Trace
  pub seen : Trace
  pub xml : Text
  pub tree : Tree
  pub node : Node
  pub fresh : Fresh w asked seen xml tree
  pub single : backends tree ≡ node ∷ []
  pub checked : is node "checked" (codes "true") ≡ true
  pub since : Extends anything seen t

confirmed-later :
    {t u : Trace} → any confirms t ≡ true → Extends anything t u → any confirms u ≡ true
unfolding any
confirmed-later c same = c
confirmed-later c (more e h s) = ground (arith, confirmed-later c h)

paired : {A : Type 0} (r : Outcome A × Trace) {q : Outcome A} → r.0 ≡ q → r ≡ (q, r.1)
paired {A} r {q} e = ap (λ (x : Outcome A). let y : Outcome A × Trace = (x, r.1) in y) e

module _ (w : World) where
  -- Each event that types text has the confirmation before it.
  pub data IsGuarded : Trace → Type 0 where
    start : IsGuarded []
    quiet : {t : Trace} (e : Event) → IsGuarded t → silent e ≡ true → IsGuarded (e ∷ t)
    behind : {t : Trace} (e : Event) → IsGuarded t → Confirmed w t → IsGuarded (e ∷ t)

  Confirmed-later : {t u : Trace} → Confirmed w t → Extends anything t u → Confirmed w u
  Confirmed-later c h = record {
    noted_once = confirmed-later c.noted_once h;
    asked = c.asked;
    seen = c.seen;
    xml = c.xml;
    tree = c.tree;
    node = c.node;
    fresh = c.fresh;
    single = c.single;
    checked = c.checked;
    since = Extends-trans anything c.since h;
  }

  IsGuarded-silent : {t u : Trace} → IsGuarded t → Extends silent t u → IsGuarded u
  IsGuarded-silent g same = g
  IsGuarded-silent g (more e h s) = quiet e (IsGuarded-silent g h) s

  IsGuarded-confirmed :
      {t u : Trace} → IsGuarded t → Confirmed w t → Extends anything t u → IsGuarded u
  IsGuarded-confirmed g c same = g
  IsGuarded-confirmed g c (more e h s) = behind e (IsGuarded-confirmed g c h) (Confirmed-later c h)

  -- `m` types nothing before the confirmation.
  record Guards {A : Type 0} (m : M A) : Type 0 where
    at : (t : Trace) → IsGuarded t → IsGuarded (m t).1

  Guards-silent : {A : Type 0} (m : M A) → Emits silent m → Guards m
  Guards-silent m h = record { at = λ t g. IsGuarded-silent g (h.at t) }

  module _ {A B : Type 0} where
    Guards-continue :
        (r : Outcome A) (f : A → M B) (t : Trace)
        → IsGuarded t
        → ((a : A) → r ≡ returned a → IsGuarded (f a t).1)
        → IsGuarded (continue r f t).1
    unfolding continue
    Guards-continue (returned a) f t g h = h a refl
    Guards-continue (raised e) f t g h = g

    Guards-bind : (m : M A) (f : A → M B) → Guards m → ((a : A) → Guards (f a)) → Guards (m >>= f)
    unfolding ◌>>=◌
    Guards-bind m f h k = record {
      at = λ t g. Guards-continue (m t).0 f (m t).1 (h.at t g) (λ a e. (k a).at _ (h.at t g));
    }

    -- Behind an action that confirms the selection when it returns, anything may follow.
    Guards-then :
        (m : M A) (f : A → M B)
        → Guards m
        → ((t t' : Trace) (a : A) → m t ≡ (returned a, t') → Confirmed w t')
        → ((a : A) → Emits anything (f a))
        → Guards (m >>= f)
    unfolding ◌>>=◌
    Guards-then m f h c k = record {
      at = λ t g. Guards-continue (m t).0 f (m t).1 (h.at t g) (λ a e.
          IsGuarded-confirmed (h.at t g) (c t (m t).1 a (paired (m t) e)) ((k a).at (m t).1));
    }

  Guards-finally :
      {A : Type 0} (m : M A) (last : M (Unit {0}))
      → Guards m
      → Emits silent last
      → Guards (finally m last)
  unfolding finally
  Guards-finally m last h k = record { at = λ t g. IsGuarded-silent (h.at t g) (k.at (m t).1) }

only-returned :
    (message : Text) (nodes : List Node) (t t' : Trace) (n : Node)
    → only message nodes t ≡ (returned n, t')
    → (nodes ≡ n ∷ []) × (t ≡ t')
unfolding only raise
only-returned message [] t t' n h = cc h
only-returned message (x ∷ []) t t' n h =
    let (p, q) = return-returned x n t t' h in (ap (λ y. y ∷ []) p, q)
only-returned message (x ∷ y ∷ rest) t t' n h = cc h

backend-returned :
    (message state : Text) (tree : Tree) (t t' : Trace) (n : Node)
    → backend message state tree t ≡ (returned n, t')
    → (backends tree ≡ n ∷ []) × (is n "checked" state ≡ true) × (t ≡ t')
unfolding backend
backend-returned message state tree t t' n h =
    let (x, u1, p1, h1) = bind-returned (only message (backends tree)) _ t t' h in
    let (d, u2, p2, h2) = bind-returned (require (is x "checked" state) _) _ u1 t' h1 in
    let (a, b) = only-returned message (backends tree) t u1 x p1 in
    let (c, e) = require-returned (is x "checked" state) _ u1 u2 p2 in
    let (f, g) = return-returned x n u2 t' h2 in
    (a ∙ ap (λ y. y ∷ []) f, subst (λ y. is y "checked" state ≡ true) f c, b ∙ e ∙ g)

select_backend-confirms :
    (w : World) (s : Setup) (form : Tree) (t t' : Trace) (chosen : Tree)
    → select_backend w s form t ≡ (returned chosen, t')
    → Confirmed w t'
unfolding select_backend any confirms
select_backend-confirms w s form t t' chosen h =
    let (node, u1, p1, h1) = bind-returned (backend _ _ form) _ t t' h in
    let (x2, u2, p2, h2) = bind-returned (tap w node) _ u1 t' h1 in
    let (x3, u3, p3, h3) = bind-returned (sleep 10) _ u2 t' h2 in
    let (seen, u4, p4, h4) = bind-returned (snapshot w _) _ u3 t' h3 in
    let (checked, u5, p5, h5) = bind-returned (backend _ _ seen) _ u4 t' h4 in
    let (x6, u6, p6, h6) = bind-returned (note "test_backend_selected" _) _ u5 t' h5 in
    let (a, b) = return-returned seen chosen u6 t' h6 in
    let (xml, fresh) = snapshot-Fresh w _ u3 u4 seen p4 in
    let (single, state, c) = backend-returned _ _ seen u4 u5 checked p5 in
    let last = emit-returned _ u5 u6 p6 ∙ b in
    record {
      noted_once = subst (λ x. any confirms x ≡ true) last refl;
      asked = u3;
      seen = u4;
      xml = xml;
      tree = seen;
      node = checked;
      fresh = fresh;
      single = single;
      checked = state;
      since =
          subst (λ x. Extends anything u4 x) last
            (more _ (subst (λ x. Extends anything u4 x) c same) refl);
    }

module _ (w : World) (s : Setup) where
  session-Guards : (apk : Text) → Guards w (session w s apk)
  unfolding session
  session-Guards apk =
      Guards-bind w (reach_form w s apk) _
        (Guards-silent w (reach_form w s apk) (reach_form-silent w s apk))
        (λ reached.
          Guards-then w (select_backend w s reached.1) (sign_in w s reached.0)
            (Guards-silent w _ (select_backend-silent w s reached.1))
            (select_backend-confirms w s reached.1) (sign_in-Emits w s reached.0))

  -- Whatever the device answers, and however the script ends, it types no text before it has read a
  -- new hierarchy in which the only selector of the test backend is checked, and has noted that.
  pub run-IsGuarded : IsGuarded w (run w s []).1
  unfolding run
  run-IsGuarded =
      let guards =
        Guards-bind w (prepare w s) (λ apk. finally (session w s apk) (finish w))
          (Guards-silent w (prepare w s) (prepare-silent w s))
          (λ apk.
            Guards-finally w (session w s apk) (finish w) (session-Guards apk) (finish-silent w)) in
      guards.at [] start
