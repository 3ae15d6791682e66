-- ===== src/Smoke/Boot/Ends.antt =====
-- The wait for the boot ends, if the clock keeps time.
use capybaragram_build.Prelude.{
  ℕ, zero, suc, ◌+◌, ◌*◌, ◌≤◌, ◌<◌, ltb, Bool, true, false, List, ◌≡◌, ◌≢◌, refl, arith,
}
use capybaragram_build.Text.{Text}
use capybaragram_build.Device.{
  Failure, called, timed_out, runtime, stuck, slept, Trace, World, returned, raised, M, raise,
  choose, require, refuse, ◌>>=◌, ◌>>◌, emit, now, poll, device, read_clock,
}
use capybaragram_build.Smoke.Boot.{second, not_yet, booted, wait_boot, boot}
use capybaragram_build.Smoke.Boot.Timely.{
  IsTimely, Goes, Goes-return, Goes-raise, Goes-choose, Goes-catch, Goes-bind, bind-ends,
  device-Goes,
}

not_yet-Goes : (w : World) (e : Failure) → e ≢ stuck → Goes w (not_yet e)
unfolding not_yet
not_yet-Goes w timed_out h = Goes-return w false
not_yet-Goes w (called out errors) h = Goes-return w false
not_yet-Goes w e h = Goes-raise w e h

module _ (w : World) (timely : IsTimely w) (call : List Text → M Text)
    (each : (command : List Text) → Goes w (call command)) (locale stopped tardy : Text) where
  booted-Goes : Goes w (booted w call locale stopped tardy)
  unfolding booted
  booted-Goes = Goes-bind w _ _ (each _) (λ state.
      Goes-choose w _ _ _ (Goes-bind w _ _ (each _) (λ chosen. Goes-return w _))
        (Goes-return w false))

  require-Goes : (b : Bool) (e : Text) → Goes w (require b (runtime e))
  unfolding require
  require-Goes true e = Goes-return w tt
  require-Goes false e = Goes-raise w (runtime e) (λ n. cc n)

  refuse-Goes : (b : Bool) (e : Text) → Goes w (refuse b (runtime e))
  unfolding refuse
  refuse-Goes true e = Goes-raise w (runtime e) (λ n. cc n)
  refuse-Goes false e = Goes-return w tt

  refuse-false :
      (b : Bool) (e : Failure) (t : Trace) (u : Unit {0})
      → (refuse b e t).0 ≡ returned u
      → b ≡ false
  unfolding refuse raise
  refuse-false true e t u h = cc h
  refuse-false false e t u h = refl

  poll-Goes : Goes w (poll w)
  unfolding poll
  poll-Goes = record { ends = λ t h. cc h; later = λ t. timely.grows t _ }

  now-Goes : Goes w (now w)
  unfolding now
  now-Goes = record { ends = λ t h. cc h; later = λ t. timely.grows t read_clock }

  now-value : (t : Trace) (time : ℕ) → (now w t).0 ≡ returned time → time ≡ w.clock t
  unfolding now
  now-value t time h = cc h

  sleep-Goes : (t : Trace) → (emit (slept 5) t).0 ≢ raised stuck
  unfolding emit
  sleep-Goes t h = cc h

  sleep-clock : (t : Trace) → w.clock t + 5 * second ≤ w.clock (emit (slept 5) t).1
  unfolding emit
  sleep-clock t = timely.sleeps t 5

  choose-ends :
      (b : Bool) (m n : M (Unit {0})) (t : Trace)
      → (m t).0 ≢ raised stuck
      → (n t).0 ≢ raised stuck
      → (choose b m n t).0 ≢ raised stuck
  unfolding choose
  choose-ends true m n t h k = h
  choose-ends false m n t h k = k

  -- The end of a round in which the boot is not complete.
  rest-ends :
      (fuel deadline : ℕ) (t : Trace) (again : M (Unit {0}))
      → deadline < w.clock t + fuel * (5 * second)
      → ((u : Trace) → w.clock t + 5 * second ≤ w.clock u → 1 ≤ fuel → (again u).0 ≢ raised stuck)
      → ((do time ← now w; refuse (ltb deadline time) (runtime tardy); emit (slept 5); again) t).0
        ≢ raised stuck
  rest-ends fuel deadline t again h ih = bind-ends w _ _ t (now-Goes.ends t) λ time e.
      bind-ends w _ _ _ ((refuse-Goes (ltb deadline time) tardy).ends _) λ u f.
        bind-ends w _ _ _ (sleep-Goes _) λ v g.
          let value = now-value t time e in
          let early = refuse-false (ltb deadline time) _ _ u f in
          let a = now-Goes.later t in
          let b = (refuse-Goes (ltb deadline time) tardy).later (now w t).1 in
          let d = sleep-clock (refuse (ltb deadline time) (runtime tardy) (now w t).1).1 in
          let soon : time ≤ deadline = ground (arith, early) in
          ih _ (omega (arith, a, b, d)) (omega (arith, h, value, soon))

  -- With rounds left that outlast the deadline the wait ends.
  wait_boot-ends :
      (fuel deadline : ℕ) (t : Trace)
      → deadline + 5 * second < w.clock t + fuel * (5 * second)
      → 1 ≤ fuel
      → (wait_boot w call locale stopped tardy fuel deadline t).0 ≢ raised stuck
  unfolding wait_boot
  wait_boot-ends zero deadline t h k = absurd (omega (arith, k))
  wait_boot-ends (suc fuel) deadline t h k =
      let caught = Goes-catch w _ _ booted-Goes (not_yet-Goes w) in
      bind-ends w _ _ t (poll-Goes.ends t) λ alive e.
        bind-ends w _ _ _ ((require-Goes alive stopped).ends _) λ u f.
          bind-ends w _ _ _ (caught.ends _) λ done g.
            let a = poll-Goes.later t in
            let b = (require-Goes alive stopped).later (poll w t).1 in
            let c = caught.later (require alive (runtime stopped) (poll w t).1).1 in
            choose-ends done _ _ _ ((Goes-return w tt).ends _) (
              rest-ends fuel deadline _ (wait_boot w call locale stopped tardy fuel deadline)
                (omega (arith, h, a, b, c))
                (λ v later l. wait_boot-ends fuel deadline v (omega (arith, h, a, b, c, later)) l))

  boot-ends_with : (t : Trace) → (boot w call locale stopped tardy t).0 ≢ raised stuck
  unfolding boot
  boot-ends_with t = bind-ends w _ _ t (now-Goes.ends t) λ start e.
      let value = now-value t start e in
      let a = now-Goes.later t in
      wait_boot-ends 62 (start + 300 * second) _ (omega (arith, value, a)) (omega arith)

-- If the clock never goes back and sleeps take their time, the wait for the boot ends: the 62
-- rounds of the model are enough, whatever the device answers.
pub boot-ends :
    (w : World)
    → IsTimely w
    → (locale stopped tardy : Text) (t : Trace)
    → (boot w (device w) locale stopped tardy t).0 ≢ raised stuck
boot-ends w timely locale stopped tardy t =
    boot-ends_with w timely (device w) (device-Goes w timely) locale stopped tardy t
