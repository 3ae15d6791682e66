-- ===== src/Device/Snapshot/Attempted.antt =====
-- What an attempt of `snapshot` reads is new.
use capybaragram_build.Prelude.{Bool, true, false, ◌∷◌, ◌++◌, ◌≡◌, refl, sym, ap, subst, ◌∙◌, some}
use capybaragram_build.Text.{Text, codes, text_eq, contains}
use capybaragram_build.Text.Equal.{text_eq_sound}
use capybaragram_build.Device.{
  Failure, called, Event, adb, read_clock, appended, slept, Trace, Tree, World, Outcome, printed, M,
  returned, return, raise, ◌>>=◌, emit, require, run, device, now, from_string,
}
use capybaragram_build.Device.Emits.{Extends, same, Extends-trans, Emits}
use capybaragram_build.Device.Returns.{
  bind-returned, return-returned, require-returned, emit-returned, run-returned, device-returned,
  from_string-returned,
}
use capybaragram_build.Device.Snapshot.Calls.{Allows}
use capybaragram_build.Device.Snapshot.{
  fresh, busy, ordinary, cat_command, dump_command, remote_at, read_dump, after_dump, attempt,
}

-- any event
abbrev pub anything : Event → Bool
anything e = true

pub anything-Allows : Allows anything
anything-Allows = record {
  clock = refl;
  sleeps = λ n. refl;
  writes = λ name text. refl;
  logs = λ name text. refl;
  reads = λ remote. refl;
  captures = refl;
}

module _ (w : World) where
  -- The hierarchy is what the parser makes of the answer to `cat`, and its root is `hierarchy`. The
  -- `cat` is of the path of a dump that was asked for just before, later than all of `t`.
  pub record Fresh (t t' : Trace) (xml : Text) (tree : Tree) : Type 0 where
    pub before : Trace
    pub line : Text
    pub errors : Text
    pub since : Extends anything t before
    pub answered :
        w.answer
          (appended (codes "hierarchy-dump.log") line
            ∷ adb (dump_command (remote_at (w.clock before)))
            ∷ read_clock
            ∷ before)
          (cat_command (remote_at (w.clock before)))
        ≡ printed xml errors
    pub parsed : w.parse xml ≡ some tree
    pub root : tree.tag ≡ codes "hierarchy"
    pub behind :
        Extends anything
          (adb (cat_command (remote_at (w.clock before)))
            ∷ appended (codes "hierarchy-dump.log") line
            ∷ adb (dump_command (remote_at (w.clock before)))
            ∷ read_clock
            ∷ before)
          t'

  read_dump-returned :
      (remote : Text) (t t' : Trace) (xml : Text) (tree : Tree)
      → read_dump w remote t ≡ (returned (fresh xml tree), t')
      → (errors : Text) × (w.answer t (cat_command remote) ≡ printed xml errors)
        × (w.parse xml ≡ some tree)
        × (tree.tag ≡ codes "hierarchy")
        × ((adb (cat_command remote) ∷ t) ≡ t')
  unfolding read_dump
  read_dump-returned remote t t' xml tree h =
      let (xml', u1, p1, h1) = bind-returned (device w (cat_command remote)) _ t t' h in
      let (tree', u2, p2, h2) = bind-returned (from_string w xml') _ u1 t' h1 in
      let (done, u3, p3, h3) =
        bind-returned (require (text_eq tree'.tag (codes "hierarchy")) _) _ u2 t' h2 in
      let (a, b) = return-returned (fresh xml' tree') (fresh xml tree) u3 t' h3 in
      let (errors, k, l) = device-returned w (cat_command remote) t u1 xml' p1 in
      let (m, n) = from_string-returned w xml' tree' u1 u2 p2 in
      let (r, s) = require-returned (text_eq tree'.tag (codes "hierarchy")) _ u2 u3 p3 in
      let same_xml : xml' ≡ xml = cc a in
      let same_tree : tree' ≡ tree = cc a in
      (
        errors,
        k ∙ ap (λ x. printed x errors) same_xml,
        cc (m, same_xml, same_tree),
        ap (λ (x : Tree). x.tag) (sym same_tree) ∙ text_eq_sound tree'.tag _ r,
        l ∙ n ∙ s ∙ b,
      )

  after_dump-returned :
      (idle : Bool) (remote : Text) (t t' : Trace) (xml : Text) (tree : Tree)
      → after_dump w remote idle t ≡ (returned (fresh xml tree), t')
      → read_dump w remote t ≡ (returned (fresh xml tree), t')
  unfolding after_dump
  after_dump-returned true remote t t' xml tree h =
      let (u, v, p, q) = bind-returned (emit (slept 2)) (λ x. return busy) t t' h in
      let (a, b) = return-returned busy (fresh xml tree) v t' q in cc a
  after_dump-returned false remote t t' xml tree h = h

  pub attempt-returned :
      (t t' : Trace) (xml : Text) (tree : Tree)
      → attempt w t ≡ (returned (fresh xml tree), t')
      → Fresh t t' xml tree
  unfolding attempt now ◌>>=◌
  attempt-returned t t' xml tree h =
      let remote = remote_at (w.clock t) in
      let log =
        λ (o : Text × Text). appended (codes "hierarchy-dump.log") (o.0 ++ o.1 ++ codes "\n") in
      let after = λ (o : Text × Text).
        after_dump w remote (contains (codes "ERROR: could not get idle state.") (o.0 ++ o.1)) in
      let (o, u1, p1, h1) =
        bind-returned (run w (dump_command remote)) (λ o. emit (log o) >>= λ d. after o)
          (read_clock ∷ t) t' h in
      let (done, u2, p2, h2) = bind-returned (emit (log o)) (λ d. after o) u1 t' h1 in
      let (k, l) = run-returned w (dump_command remote) (read_clock ∷ t) u1 o p1 in
      let e = emit-returned (log o) u1 u2 p2 in
      let (errors, a, b, c, d) =
        read_dump-returned remote u2 t' xml tree (after_dump-returned _ remote u2 t' xml tree h2) in
      let line = o.0 ++ o.1 ++ codes "\n" in
      let place : appended (codes "hierarchy-dump.log") line
            ∷ adb (dump_command remote)
            ∷ read_clock
            ∷ t
          ≡ u2 =
        ap (λ x. appended (codes "hierarchy-dump.log") line ∷ x) l ∙ e in
      record {
        before = t;
        line = line;
        errors = errors;
        since = same;
        answered = rw place a;
        parsed = b;
        root = c;
        behind = subst (Extends anything _) (ap (λ x. adb (cat_command remote) ∷ x) place ∙ d) same;
      }

  pub ordinary-fails :
      (e : Failure) (t t' : Trace) (xml : Text) (tree : Tree)
      → ordinary e t ≡ (returned (fresh xml tree), t')
      → ⊥
  unfolding ordinary return raise
  ordinary-fails (called out errors) t t' xml tree h = cc h
  ordinary-fails e t t' xml tree h = cc h

  pub Fresh-later :
      (t u t' t'' : Trace) (xml : Text) (tree : Tree)
      → Extends anything t u
      → Extends anything t' t''
      → Fresh u t' xml tree
      → Fresh t t'' xml tree
  Fresh-later t u t' t'' xml tree h k f = record {
    before = f.before;
    line = f.line;
    errors = f.errors;
    since = Extends-trans anything h f.since;
    answered = f.answered;
    parsed = f.parsed;
    root = f.root;
    behind = Extends-trans anything f.behind k;
  }

  -- A result of an action that makes any calls is behind its start.
  pub later :
      {A : Type 0} (m : M A) (t t' : Trace) (a : A)
      → Emits anything m
      → m t ≡ (returned a, t')
      → Extends anything t t'
  later {A} m t t' a h e =
      subst (Extends anything t) (ap (λ (x : Outcome A × Trace). x.1) e) (h.at t)
