-- ===== src/Smoke/Boot/Timely.antt =====
-- Calls that come to an end, at a clock that keeps time.
use capybaragram_build.Prelude.{
  ℕ, ◌+◌, ◌*◌, ◌≤◌, Bool, true, false, ◌∷◌, List, ◌≡◌, ◌≢◌, refl, ap, arith,
}
use capybaragram_build.Text.{Text}
use capybaragram_build.Device.{
  Failure, called, stuck, Event, adb, slept, Trace, World, Reply, printed, exited, late, broken,
  Outcome, returned, raised, M, return, raise, handle, catch, choose, continue, ◌>>=◌, emit, run,
  log_failure, reply, device,
}
use capybaragram_build.Smoke.Boot.{second}

-- The clock never goes back, and a sleep lasts as long as it says.
pub record IsTimely (w : World) : Type 0 where
  pub grows : (t : Trace) (e : Event) → w.clock t ≤ w.clock (e ∷ t)
  pub sleeps : (t : Trace) (n : ℕ) → w.clock t + n * second ≤ w.clock (slept n ∷ t)

-- `m` does not run out of fuel, and the clock does not go back.
pub record Goes {A : Type 0} (w : World) (m : M A) : Type 0 where
  pub ends : (t : Trace) → (m t).0 ≢ raised stuck
  pub later : (t : Trace) → w.clock t ≤ w.clock (m t).1

module _ {A : Type 0} (w : World) where
  pub Goes-return : (a : A) → Goes w (return a)
  unfolding return
  Goes-return a = record { ends = λ t h. cc h; later = λ t. omega arith }

  pub Goes-raise : (e : Failure) → e ≢ stuck → Goes w (raise {A = A} e)
  unfolding raise
  Goes-raise e h = record { ends = λ t k. h (cc k); later = λ t. omega arith }

  pub Goes-choose : (b : Bool) (m n : M A) → Goes w m → Goes w n → Goes w (choose b m n)
  unfolding choose
  Goes-choose true m n g h = g
  Goes-choose false m n g h = h

  pub Goes-handle :
      (r : Outcome A) (handler : Failure → M A)
      → r ≢ raised stuck
      → ((e : Failure) → e ≢ stuck → Goes w (handler e))
      → Goes w (handle r handler)
  unfolding handle
  Goes-handle (returned a) handler h k = record { ends = λ t n. cc n; later = λ t. omega arith }
  Goes-handle (raised e) handler h k = k e (λ n. h (ap raised n))

  pub Goes-catch :
      (m : M A) (handler : Failure → M A)
      → Goes w m
      → ((e : Failure) → e ≢ stuck → Goes w (handler e))
      → Goes w (catch m handler)
  unfolding catch
  Goes-catch m handler g h = record {
    ends = λ t. let (r, t') = m t in (Goes-handle r handler (g.ends t) h).ends t';
    later = λ t.
        let (r, t') = m t in
        omega (arith, g.later t, (Goes-handle r handler (g.ends t) h).later t');
  }

module _ {A B : Type 0} (w : World) where
  pub Goes-continue :
      (r : Outcome A) (f : A → M B)
      → r ≢ raised stuck
      → ((a : A) → Goes w (f a))
      → Goes w (continue r f)
  unfolding continue
  Goes-continue (returned a) f h k = k a
  Goes-continue (raised e) f h k = record { ends = λ t n. h (cc n); later = λ t. omega arith }

  pub Goes-bind : (m : M A) (f : A → M B) → Goes w m → ((a : A) → Goes w (f a)) → Goes w (m >>= f)
  unfolding ◌>>=◌
  Goes-bind m f g h = record {
    ends = λ t. let (r, t') = m t in (Goes-continue r f (g.ends t) h).ends t';
    later = λ t.
        let (r, t') = m t in omega (arith, g.later t, (Goes-continue r f (g.ends t) h).later t');
  }

  -- A sequence does not run out of fuel, if neither its first part does, nor its second behind any
  -- value that the first returns.
  pub continue-ends :
      (r : Outcome A) (u : Trace) (f : A → M B)
      → r ≢ raised stuck
      → ((a : A) → r ≡ returned a → (f a u).0 ≢ raised stuck)
      → (continue r f u).0 ≢ raised stuck
  unfolding continue
  continue-ends (returned a) u f h k = k a refl
  continue-ends (raised e) u f h k = λ n. h (cc n)

  pub bind-ends :
      (m : M A) (f : A → M B) (t : Trace)
      → (m t).0 ≢ raised stuck
      → ((a : A) → (m t).0 ≡ returned a → (f a (m t).1).0 ≢ raised stuck)
      → ((m >>= f) t).0 ≢ raised stuck
  unfolding ◌>>=◌
  bind-ends m f t h k = continue-ends (m t).0 (m t).1 f h k

pub run-Goes : (w : World) → IsTimely w → (command : List Text) → Goes w (run w command)
unfolding run
run-Goes w timely command = record {
  ends = λ t h. reply-ends (w.answer t command) h;
  later = λ t. timely.grows t (adb command);
}
  where
    reply-ends : (r : Reply) → reply r ≢ raised stuck
    reply-ends (printed out errors) h = cc h
    reply-ends (exited out errors) h = cc h
    reply-ends late h = cc h
    reply-ends broken h = cc h

log_failure-Goes :
    (w : World)
    → IsTimely w
    → (command : List Text) (e : Failure) → e ≢ stuck
    → Goes w (log_failure w command e)
unfolding log_failure emit
log_failure-Goes w timely command (called out errors) h =
    Goes-bind w _ _ (record { ends = λ t n. cc n; later = λ t. timely.grows t _ })
      (λ u. Goes-raise w (called out errors) h)
log_failure-Goes w timely command e h = Goes-raise w e h

pub device-Goes : (w : World) → IsTimely w → (command : List Text) → Goes w (device w command)
unfolding device
device-Goes w timely command =
    Goes-bind w _ _
      (Goes-catch w _ _ (run-Goes w timely command) (log_failure-Goes w timely command))
      (λ o. Goes-return w o.0)
