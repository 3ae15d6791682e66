-- ===== src/Device/Snapshot/Calls.antt =====
-- The calls that `snapshot` makes, whatever the device answers.
use capybaragram_build.Prelude.{ℕ, zero, suc, Bool, true, false, ◌≡◌, Option, none, some}
use capybaragram_build.Text.{Text}
use capybaragram_build.Device.{
  Failure, called, Event, adb, read_clock, appended, saved, slept, Tree, World, M,
}
use capybaragram_build.Device.Emits.{Emits, emits_rules, Emits-return}
use capybaragram_build.Device.Snapshot.{
  Attempt, fresh, busy, failed, ordinary, cat_command, dump_command, capture_command, read_dump,
  after_dump, attempt, next, attempts, finish, snapshot,
}

-- A test that every call of `snapshot` but the dump passes.
pub record Allows (p : Event → Bool) : Type 0 where
  pub clock : p read_clock ≡ true
  pub sleeps : (n : ℕ) → p (slept n) ≡ true
  pub writes : (name text : Text) → p (saved name text) ≡ true
  pub logs : (name text : Text) → p (appended name text) ≡ true
  pub reads : (remote : Text) → p (adb (cat_command remote)) ≡ true
  pub captures : p (adb capture_command) ≡ true

module _ (w : World) (p : Event → Bool) (a : Allows p) where
  open a use {clock, sleeps, writes, logs, reads, captures}

  pub ordinary-Emits : (e : Failure) → Emits p (ordinary e)
  unfolding ordinary
  ordinary-Emits (called out errors) = search emits_rules
  ordinary-Emits e = search emits_rules

  read_dump-Emits : (remote : Text) → Emits p (read_dump w remote)
  unfolding read_dump
  read_dump-Emits remote = search (emits_rules, logs, reads)

  pub after_dump-Emits : (remote : Text) (idle : Bool) → Emits p (after_dump w remote idle)
  unfolding after_dump
  after_dump-Emits remote true = search (emits_rules, sleeps)
  after_dump-Emits remote false = read_dump-Emits remote

  next-Emits :
      (again : ℕ → M (Option (Text × Tree))) (failures : ℕ) (ended : Attempt)
      → ((n : ℕ) → Emits p (again n))
      → Emits p (next again failures ended)
  unfolding next
  next-Emits again failures (fresh xml tree) h = search emits_rules
  next-Emits again failures busy h = h failures
  next-Emits again failures (failed e) h = search (emits_rules, sleeps, h) depth 12

  pub finish-Emits : (name : Text) (found : Option (Text × Tree)) → Emits p (finish w name found)
  unfolding finish
  finish-Emits name none = search (emits_rules, captures, writes)
  finish-Emits name (some (xml, tree)) = search (emits_rules, captures, writes) depth 14

module _ (w : World) (p : Event → Bool) (a : Allows p)
    (dumps : (remote : Text) → p (adb (dump_command remote)) ≡ true) where
  open a use {clock, logs}

  pub attempt-Emits : Emits p (attempt w)
  unfolding attempt
  attempt-Emits = search (emits_rules, after_dump-Emits w p a, clock, dumps, logs)

  pub attempts-Emits : (left failures : ℕ) → Emits p (attempts w left failures)
  unfolding attempts
  attempts-Emits zero failures = Emits-return none
  attempts-Emits (suc left) failures =
      search
        (emits_rules, attempt-Emits, ordinary-Emits w p a, next-Emits w p a, attempts-Emits left)

  pub snapshot-Emits : (name : Text) → Emits p (snapshot w name)
  unfolding snapshot
  snapshot-Emits name = search (emits_rules, attempts-Emits, finish-Emits w p a)
