-- ===== src/Device/Counts.antt =====
-- How many calls of one kind an action makes at most.
use capybaragram_build.Prelude.{
  ℕ, suc, ◌+◌, ◌≤◌, Bool, true, false, not, [], ◌∷◌, ◌≡◌, refl, if◌then◌else◌, arith, List,
}
use capybaragram_build.Text.{Text}
use capybaragram_build.Device.{
  Failure, Event, Trace, World, Outcome, returned, raised, M, handle, catch, continue, ◌>>=◌, run,
  choose,
}
use capybaragram_build.Device.Emits.{Extends, same, more, Emits}

unfoldable pub counted : (Event → Bool) → Trace → ℕ
counted q [] = 0
counted q (e ∷ t) = let rest = counted q t in if q e then suc rest else rest

-- Whatever the outcome, `m` makes at most `k` calls that pass the test.
pub record Adds {A : Type 0} (q : Event → Bool) (k : ℕ) (m : M A) : Type 0 where
  pub at : (t : Trace) → counted q (m t).1 ≤ counted q t + k

Extends-counted :
    (q : Event → Bool) {t u : Trace} → Extends (λ e. not (q e)) t u → counted q u ≡ counted q t
unfolding counted
Extends-counted q same = refl
Extends-counted q (more e h n) = ground (arith, Extends-counted q h, n)

module _ {A : Type 0} {q : Event → Bool} where
  pub Adds-none : (k : ℕ) (m : M A) → Emits (λ e. not (q e)) m → Adds q k m
  Adds-none k m h = record { at = λ t. omega (arith, Extends-counted q (h.at t)) }

  Adds-handle :
      (k : ℕ) (r : Outcome A) (handler : Failure → M A)
      → ((e : Failure) → Adds q k (handler e))
      → Adds q k (handle r handler)
  unfolding handle
  Adds-handle k (returned a) handler h = record { at = λ t. omega arith }
  Adds-handle k (raised e) handler h = h e

  pub Adds-catch :
      (k l : ℕ) (m : M A) (handler : Failure → M A)
      → Adds q k m
      → ((e : Failure) → Adds q l (handler e))
      → Adds q (k + l) (catch m handler)
  unfolding catch
  Adds-catch k l m handler h g = record {
    at = λ t. let (r, t') = m t in omega (arith, h.at t, (Adds-handle l r handler g).at t');
  }

  pub Adds-choose :
      (k : ℕ) (b : Bool) (m n : M A) → Adds q k m → Adds q k n → Adds q k (choose b m n)
  unfolding choose
  Adds-choose k true m n g h = g
  Adds-choose k false m n g h = h

  pub Adds-le : (k l : ℕ) (m : M A) → k ≤ l → Adds q k m → Adds q l m
  Adds-le k l m h g = record { at = λ t. omega (arith, g.at t) }

module _ {A B : Type 0} {q : Event → Bool} where
  Adds-continue :
      (k : ℕ) (r : Outcome A) (f : A → M B) → ((a : A) → Adds q k (f a)) → Adds q k (continue r f)
  unfolding continue
  Adds-continue k (returned a) f h = h a
  Adds-continue k (raised e) f h = record { at = λ t. omega arith }

  pub Adds-bind :
      (k l : ℕ) (m : M A) (f : A → M B)
      → Adds q k m
      → ((a : A) → Adds q l (f a))
      → Adds q (k + l) (m >>= f)
  unfolding ◌>>=◌
  Adds-bind k l m f h g = record {
    at = λ t. let (r, t') = m t in omega (arith, h.at t, (Adds-continue l r f g).at t');
  }

pub Adds-run : (q : Event → Bool) (w : World) (command : List Text) → Adds q 1 (run w command)
unfolding run counted
Adds-run q w command = record { at = λ t. ground arith }
