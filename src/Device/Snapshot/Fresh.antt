-- ===== src/Device/Snapshot/Fresh.antt =====
-- A hierarchy that `snapshot` gives was dumped and read after the call, in one attempt.
use capybaragram_build.Prelude.{
  ℕ, zero, suc, ◌+◌, Bool, true, false, ◌≡◌, ◌⊎◌, inl, inr, refl, subst, Option, none, some, leb,
}
use capybaragram_build.Text.{Text}
use capybaragram_build.Device.{slept, Trace, Tree, World, M, returned, return, catch, choose, emit}
use capybaragram_build.Device.Emits.{same, Extends-trans, Emits, Emits-catch, Emits-emit}
use capybaragram_build.Device.Returns.{
  bind-returned, return-returned, catch-returned, Gives, Gives-bind, Gives-raise, Gives-return,
}
use capybaragram_build.Device.Snapshot.Calls.{attempt-Emits, ordinary-Emits, finish-Emits}
use capybaragram_build.Device.Snapshot.{
  Attempt, fresh, busy, failed, ordinary, attempt, next, attempts, finish, snapshot,
}
use capybaragram_build.Device.Snapshot.Attempted.{
  anything, anything-Allows, Fresh, attempt-returned, ordinary-fails, Fresh-later, later,
}

module _ (w : World) where
  caught : Emits anything (catch (attempt w) ordinary)
  caught = search (
    Emits-catch,
    attempt-Emits w anything anything-Allows (λ remote. refl),
    ordinary-Emits w anything anything-Allows,
  )

  caught-returned :
      (t t' : Trace) (xml : Text) (tree : Tree)
      → catch (attempt w) ordinary t ≡ (returned (fresh xml tree), t')
      → Fresh w t t' xml tree
  caught-returned t t' xml tree h =
      elim (catch-returned (attempt w) ordinary t t' (fresh xml tree) h) [
        | inl e ↦ attempt-returned w t t' xml tree e
        | inr (e, u, f, g) ↦ absurd (ordinary-fails w e u t' xml tree g)
      ]

  choose-cases :
      (b : Bool) (m n : M (Option (Text × Tree))) (t t' : Trace) {a : Option (Text × Tree)}
      → choose b m n t ≡ (returned a, t')
      → (m t ≡ (returned a, t')) ⊎ (n t ≡ (returned a, t'))
  unfolding choose
  choose-cases true m n t t' h = inl h
  choose-cases false m n t t' h = inr h

  finish-raises :
      (name : Text) (t t' : Trace) (tree : Tree) → finish w name none t ≡ (returned tree, t') → ⊥
  unfolding finish
  finish-raises name t t' tree h =
      let never : Gives (λ (x : Tree). ⊥) (finish w name none) =
        Gives-bind _ _ (λ o. Gives-bind _ _ (λ u. Gives-raise _)) in
      never.at t t' tree h

  finish-same :
      (name xml : Text) (found : Tree) (t t' : Trace) (tree : Tree)
      → finish w name (some (xml, found)) t ≡ (returned tree, t')
      → found ≡ tree
  unfolding finish
  finish-same name xml found t t' tree h =
      let gives : Gives (λ x. found ≡ x) (finish w name (some (xml, found))) = Gives-bind _ _ (λ u.
        Gives-bind _ _
          (λ o. Gives-bind _ _ (λ v. Gives-bind _ _ (λ x. Gives-return found refl)))) in
      gives.at t t' tree h

  attempts-returned :
      (left failures : ℕ) (t t' : Trace) (xml : Text) (tree : Tree)
      → attempts w left failures t ≡ (returned (some (xml, tree)), t')
      → Fresh w t t' xml tree
  unfolding attempts return next
  attempts-returned zero failures t t' xml tree h =
      let (a, b) = return-returned none (some (xml, tree)) t t' h in cc a
  attempts-returned (suc left) failures t t' xml tree h =
      let (ended, u, e, k) =
        bind-returned (catch (attempt w) ordinary) (next (attempts w left) failures) t t' h in
      go ended u e k (λ n s. attempts-returned left n s t' xml tree)
    where
      go :
          (ended : Attempt) (u : Trace)
          → catch (attempt w) ordinary t ≡ (returned ended, u)
          → next (attempts w left) failures ended u ≡ (returned (some (xml, tree)), t')
          → ((n : ℕ) (s : Trace)
              → attempts w left n s ≡ (returned (some (xml, tree)), t')
              → Fresh w s t' xml tree)
          → Fresh w t t' xml tree
      go (fresh xml' tree') u e k again =
          let (a, b) = return-returned (some (xml', tree')) (some (xml, tree)) u t' k in
          let same_xml : xml' ≡ xml = cc a in
          let same_tree : tree' ≡ tree = cc a in
          caught-returned t t' xml tree (cc (e, b, same_xml, same_tree))
      go busy u e k again =
          Fresh-later w t u t' t' xml tree (later w (catch (attempt w) ordinary) t u busy caught e)
            same (again failures u k)
      go (failed x) u e k again =
          elim (choose-cases (leb 4 (failures + 1)) (return none) _ u t' k) [
            | inl l ↦ (let (a, b) = return-returned none (some (xml, tree)) u t' l in cc a)
            | inr r ↦
                (let (done, v, f, g) =
                    bind-returned (emit (slept 2)) (λ d. attempts w left (failures + 1)) u t' r in
                  Fresh-later w t v t' t' xml tree
                    (Extends-trans anything
                      (later w (catch (attempt w) ordinary) t u (failed x) caught e)
                      (later w (emit (slept 2)) u v done (Emits-emit (slept 2) refl) f))
                    same (again (failures + 1) v g))
          ]

  -- A hierarchy that `snapshot` gives is the parsed answer to a `cat`, made after the call, of the path
  -- of a dump that was asked for just before it, after the call too. No earlier hierarchy is used.
  pub snapshot-Fresh :
      (name : Text) (t t' : Trace) (tree : Tree)
      → snapshot w name t ≡ (returned tree, t')
      → (xml : Text) × Fresh w t t' xml tree
  unfolding snapshot
  snapshot-Fresh name t t' tree h =
      let (found, u, e, k) = bind-returned (attempts w 12 0) (finish w name) t t' h in
      go found u e k
    where
      go :
          (found : Option (Text × Tree)) (u : Trace)
          → attempts w 12 0 t ≡ (returned found, u)
          → finish w name found u ≡ (returned tree, t')
          → (xml : Text) × Fresh w t t' xml tree
      go none u e k = absurd (finish-raises name u t' tree k)
      go (some (xml, tree')) u e k =
          let same_tree = finish-same name xml tree' u t' tree k in
          (
            xml,
            Fresh-later w t t u t' xml tree same
                (later w (finish w name (some (xml, tree'))) u t' tree
                  (finish-Emits w anything anything-Allows name (some (xml, tree'))) k)
                (subst (Fresh w t u xml) same_tree (attempts-returned 12 0 t u xml tree' e)),
          )
