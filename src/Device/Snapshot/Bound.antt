-- ===== src/Device/Snapshot/Bound.antt =====
-- How often `snapshot` dumps the hierarchy.
use capybaragram_build.Prelude.{
  ℕ, zero, suc, ◌+◌, ◌≤◌, Bool, false, not, ◌∷◌, ◌++◌, refl, Option, arith, leb,
}
use capybaragram_build.Text.{Text, codes, text_eq, contains}
use capybaragram_build.Device.{Event, adb, Tree, World, M, appended, slept, ◌>>◌, Trace, emit}
use capybaragram_build.Device.Emits.{Emits, emits_rules, Emits-now}
use capybaragram_build.Device.Counts.{
  counted, Adds, Adds-none, Adds-catch, Adds-choose, Adds-bind, Adds-run, Adds-le,
}
use capybaragram_build.Device.Snapshot.{
  Attempt, fresh, busy, failed, remote_at, after_dump, attempt, next, attempts, finish, snapshot,
}
use capybaragram_build.Device.Snapshot.Calls.{
  Allows, ordinary-Emits, after_dump-Emits, finish-Emits,
}

-- Whether an event is a dump of the hierarchy.
unfoldable pub is_dump : Event → Bool
unfolding text_eq
is_dump (adb (a ∷ b ∷ c ∷ rest)) = text_eq b (codes "uiautomator")
is_dump e = false

abbrev other : Event → Bool
other e = not (is_dump e)

other-Allows : Allows other
unfolding is_dump
other-Allows = record {
  clock = refl;
  sleeps = λ n. refl;
  writes = λ name text. refl;
  logs = λ name text. refl;
  reads = λ remote. refl;
  captures = refl;
}

module _ (w : World) where
  rest-Emits :
      (ns : ℕ) (o : Text × Text)
      → Emits other (
          emit (appended (codes "hierarchy-dump.log") (o.0 ++ o.1 ++ codes "\n"))
          >> after_dump w
              (remote_at ns)
              (contains (codes "ERROR: could not get idle state.") (o.0 ++ o.1)))
  unfolding is_dump
  rest-Emits ns o = search (emits_rules, after_dump-Emits w other other-Allows)

  attempt-Adds : Adds is_dump 1 (attempt w)
  unfolding attempt is_dump
  attempt-Adds =
      Adds-bind 0 1 _ _ (Adds-none 0 _ (Emits-now w refl))
        (λ ns. Adds-bind 1 0 _ _ (Adds-run is_dump w _) (λ o. Adds-none 0 _ (rest-Emits ns o)))

  next-Adds :
      (k failures : ℕ) (again : ℕ → M (Option (Text × Tree))) (ended : Attempt)
      → ((n : ℕ) → Adds is_dump k (again n))
      → Adds is_dump k (next again failures ended)
  unfolding next is_dump
  next-Adds k failures again (fresh xml tree) h = Adds-none k _ (search emits_rules)
  next-Adds k failures again busy h = h failures
  next-Adds k failures again (failed e) h =
      Adds-choose k (leb 4 (failures + 1)) _ _ (Adds-none k _ (search emits_rules)) (
        Adds-le (0 + k) k _ (omega arith) (
          Adds-bind 0 k (emit (slept 2)) (λ u. again (failures + 1))
            (Adds-none 0 _ (search emits_rules)) (λ u. h (failures + 1))))

  attempts-Adds : (left failures : ℕ) → Adds is_dump left (attempts w left failures)
  unfolding attempts
  attempts-Adds zero failures = Adds-none 0 _ (search emits_rules)
  attempts-Adds (suc left) failures = Adds-le (1 + left) (suc left) _ (omega arith) (
      Adds-bind 1 left _ _
        (Adds-catch 1 0 _ _ attempt-Adds
          (λ e. Adds-none 0 _ (ordinary-Emits w other other-Allows e)))
        (λ ended. next-Adds left failures (attempts w left) ended (λ n. attempts-Adds left n)))

  -- Whatever the device answers, and however `snapshot` ends, it dumps the hierarchy twelve times at most.
  pub snapshot-dumps :
      (name : Text) (t : Trace) → counted is_dump (snapshot w name t).1 ≤ counted is_dump t + 12
  unfolding snapshot
  snapshot-dumps name t =
      (Adds-bind 12 0 (attempts w 12 0) (finish w name) (attempts-Adds 12 0)
          (λ found. Adds-none 0 _ (finish-Emits w other other-Allows name found))).at
        t
