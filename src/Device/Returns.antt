-- ===== src/Device/Returns.antt =====
-- What an action that returns has done: one inversion for each way to build an action.
use capybaragram_build.Prelude.{
  Bool, true, false, List, ◌∷◌, ◌≡◌, ◌⊎◌, inl, inr, refl, ap, subst, ◌∙◌, Option, none, some,
}
use capybaragram_build.Text.{Text}
use capybaragram_build.Device.{
  Failure, called, Event, adb, Trace, Tree, World, Reply, printed, exited, late, broken, Outcome,
  returned, raised, M, return, raise, handle, catch, choose, from_option, continue, ◌>>=◌, emit,
  require, reply, run, log_failure, device, from_string,
}

module _ {A B : Type 0} where
  pub bind-returned :
      (m : M A) (f : A → M B) (t t' : Trace) {b : B}
      → (m >>= f) t ≡ (returned b, t')
      → (a : A) × (u : Trace) × (m t ≡ (returned a, u)) × (f a u ≡ (returned b, t'))
  unfolding ◌>>=◌
  bind-returned m f t t' {b} h = go (m t).0 (m t).1 refl h
    where
      go :
          (r : Outcome A) (u : Trace)
          → m t ≡ (r, u)
          → continue r f u ≡ (returned b, t')
          → (a : A) × (u : Trace) × (m t ≡ (returned a, u)) × (f a u ≡ (returned b, t'))
      go (returned a) u e k = (a, u, e, k)
      go (raised x) u e k = cc k

module _ {A : Type 0} where
  pub return-returned :
      (a b : A) (t t' : Trace) → return a t ≡ (returned b, t') → (a ≡ b) × (t ≡ t')
  unfolding return
  return-returned a b t t' h = (cc h, ap (λ (x : Outcome A × Trace). x.1) h)

  pub from_option-returned :
      (e : Failure) (o : Option A) (a : A) (t t' : Trace)
      → from_option e o t ≡ (returned a, t')
      → (o ≡ some a) × (t ≡ t')
  unfolding from_option raise
  from_option-returned e none a t t' h = cc h
  from_option-returned e (some x) a t t' h =
      let (p, q) = return-returned x a t t' h in (ap some p, q)

  pub catch-returned :
      (m : M A) (handler : Failure → M A) (t t' : Trace) (a : A)
      → catch m handler t ≡ (returned a, t')
      → (m t ≡ (returned a, t'))
        ⊎ ((e : Failure) × (u : Trace) × (m t ≡ (raised e, u)) × (handler e u ≡ (returned a, t')))
  unfolding catch handle
  catch-returned m handler t t' a h = go (m t).0 (m t).1 refl h
    where
      go :
          (r : Outcome A) (u : Trace)
          → m t ≡ (r, u)
          → handle r handler u ≡ (returned a, t')
          → (m t ≡ (returned a, t'))
            ⊎ ((e : Failure) × (u : Trace) × (m t ≡ (raised e, u))
                × (handler e u ≡ (returned a, t')))
      go (returned b) u e k = inl (e ∙ k)
      go (raised x) u e k = inr (x, u, e, k)

pub require-returned :
    (b : Bool) (e : Failure) (t t' : Trace)
    → require b e t ≡ (returned tt, t')
    → (b ≡ true) × (t ≡ t')
unfolding require return raise
require-returned true e t t' h = (refl, ap (λ (x : Outcome (Unit {0}) × Trace). x.1) h)
require-returned false e t t' h = cc h

pub emit-returned : (e : Event) (t t' : Trace) → emit e t ≡ (returned tt, t') → (e ∷ t) ≡ t'
unfolding emit
emit-returned e t t' h = ap (λ (x : Outcome (Unit {0}) × Trace). x.1) h

module _ (w : World) where
  reply-returned : (r : Reply) (o : Text × Text) → reply r ≡ returned o → r ≡ printed o.0 o.1
  reply-returned (printed x y) o h = cc h
  reply-returned (exited x y) o h = cc h
  reply-returned late o h = cc h
  reply-returned broken o h = cc h

  pub run-returned :
      (command : List Text) (t t' : Trace) (o : Text × Text)
      → run w command t ≡ (returned o, t')
      → (w.answer t command ≡ printed o.0 o.1) × ((adb command ∷ t) ≡ t')
  unfolding run
  run-returned command t t' o h = (
    reply-returned (w.answer t command) o (ap (λ (x : Outcome (Text × Text) × Trace). x.0) h),
    ap (λ (x : Outcome (Text × Text) × Trace). x.1) h,
  )

  log_failure-raises :
      (command : List Text) (e : Failure) (t t' : Trace) (o : Text × Text)
      → log_failure w command e t ≡ (returned o, t')
      → ⊥
  unfolding log_failure ◌>>=◌ continue emit raise
  log_failure-raises command (called out errors) t t' o h = cc h
  log_failure-raises command e t t' o h = cc h

  -- `device` returns what the command printed.
  pub device-returned :
      (command : List Text) (t t' : Trace) (out : Text)
      → device w command t ≡ (returned out, t')
      → (errors : Text) × (w.answer t command ≡ printed out errors) × ((adb command ∷ t) ≡ t')
  unfolding device
  device-returned command t t' out h =
      let (o, u, p, q) = bind-returned (catch (run w command) (log_failure w command)) _ t t' h in
      let (a, b) = return-returned o.0 out u t' q in
      elim (catch-returned (run w command) (log_failure w command) t u o p) [
        | inl r ↦
            let (k, l) = run-returned command t u o r in (o.1, k ∙ ap (λ x. printed x o.1) a, l ∙ b)
        | inr (e, v, r, l) ↦ absurd (log_failure-raises command e v u o l)
      ]

  pub from_string-returned :
      (xml : Text) (tree : Tree) (t t' : Trace)
      → from_string w xml t ≡ (returned tree, t')
      → (w.parse xml ≡ some tree) × (t ≡ t')
  unfolding from_string
  from_string-returned xml tree t t' h = from_option-returned _ (w.parse xml) tree t t' h

-- Every value that `m` returns has this property.
pub record Gives {A : Type 0} (R : A → Type 0) (m : M A) : Type 0 where
  pub at : (t t' : Trace) (a : A) → m t ≡ (returned a, t') → R a

module _ {A : Type 0} {R : A → Type 0} where
  pub Gives-return : (a : A) → R a → Gives R (return a)
  Gives-return a h = record {
    at = λ t t' b e. let (p, q) = return-returned a b t t' e in subst R p h;
  }

  pub Gives-raise : (e : Failure) → Gives R (raise e)
  unfolding raise
  Gives-raise e = record { at = λ t t' b h. cc h }

  pub Gives-choose : (b : Bool) (m n : M A) → Gives R m → Gives R n → Gives R (choose b m n)
  unfolding choose
  Gives-choose true m n h k = h
  Gives-choose false m n h k = k

module _ {A B : Type 0} {R : B → Type 0} where
  pub Gives-bind : (m : M A) (f : A → M B) → ((a : A) → Gives R (f a)) → Gives R (m >>= f)
  Gives-bind m f h = record {
    at = λ t t' b e. let (a, u, p, q) = bind-returned m f t t' e in (h a).at u t' b q;
  }
