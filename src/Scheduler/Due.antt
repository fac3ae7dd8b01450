-- ===== src/Scheduler/Due.antt =====
-- A tick tries the entries that are due, and no others (taskturbine-cli/src/scheduler.rs).
use taskturbine.Base.{
  ℕ, ◌-◌, ◌*◌, ◌/◌, ◌^◌, ◌<◌, ◌≤◌, Option, some, none, Bool, ◌≡◌, refl, ap, sym, List, [], ◌∷◌,
  true, false, rows_where, All, arith, Bool-cases, inl, inr,
}
use taskturbine.Base.Sorting.{IsOrdered, IsOrder, sort-IsOrdered}
use taskturbine.Base.Int.{ℤ, pos, sub_ℕ, leb_ℤ}
use taskturbine.Base.Rows.{All-sort_by}
use taskturbine.Base.Text.{Text}
use taskturbine.Models.{second}
use taskturbine.Sql.Session.{Env, Session}
use taskturbine.Scheduler.{
  Schedule, cron, timedelta, schedule_due, schedule_remaining, gap_seconds, StorageEntry, is_due,
  remaining_seconds, entry_le, run_due, run_entry, sort_entries,
}

-- In the order of the time that remains.
abbrev pub IsSorted : ℕ → List StorageEntry → Type 0
IsSorted now vs = IsOrdered (entry_le now) vs

none_due :
    (now : ℕ) (v : StorageEntry) (vs : List StorageEntry)
    → is_due now v ≡ false
    → All (λ w. entry_le now v w ≡ true) vs
    → rows_where (is_due now) vs ≡ []
none_due now v [] h a = refl
none_due now v (w ∷ ws) h a = ground (arith, none_due now v ws h a.1)

-- From entries in order, the loop of a tick tries exactly the entries that are due, in their order:
-- the early end of the loop skips none.
pub run_due-tries :
    (now : ℕ) (vs : List StorageEntry) (e : Env) (s : Session)
    → IsSorted now vs
    → (run_due now vs e s).2 ≡ rows_where (is_due now) vs
unfolding run_due
run_due-tries now [] e s o = refl
run_due-tries now (v ∷ vs) e s o = elim (Bool-cases (is_due now v)) [
  | inl due ↦ rw due (ap (◌∷◌ v) (run_due-tries now vs e (run_entry now v e s).1 o.1))
  | inr early ↦ rw early (sym (none_due now v vs early o.0))
]

entry_le-IsOrder : (now : ℕ) → IsOrder (entry_le now)
entry_le-IsOrder now = record { total = λ a b h. ground arith; trans = λ a b c h k. ground arith }

-- sort_entries puts the entries in the order of the time that remains.
pub sort_entries-IsSorted : (now : ℕ) (vs : List StorageEntry) → IsSorted now (sort_entries now vs)
unfolding sort_entries
sort_entries-IsSorted now vs = sort-IsOrdered (entry_le now) (entry_le-IsOrder now) vs

seconds_between : (x y : ℕ) → (x * second - y * second) / second ≡ x - y
seconds_between x y = omega arith

gap_seconds-whole : (x y : ℕ) → gap_seconds (x * second) (y * second) ≡ sub_ℕ x y
gap_seconds-whole x y = ground (arith, seconds_between x y, seconds_between y x)

-- The clock `now`, in seconds, is not before the last run, which is at a whole second, and the
-- schedule has a next time: a duration that fits an i64, or a cron expression that is due again, at
-- a whole second.
abbrev pub NextKnown : Schedule → ℕ → Type 0
NextKnown (cron expression after) last_run = (n : ℕ) × (after last_run ≡ some (n * second))
NextKnown (timedelta duration) last_run = duration < 2 ^ 63

abbrev pub IsTimed : ℕ → StorageEntry → Type 0
IsTimed now v = (k : ℕ) × (v.last_run ≡ k * second) × (k ≤ now) × NextKnown v.schedule v.last_run

-- A later time at which the schedule is due, by what remained before.
due_later :
    (w : Schedule) (last k a b : ℕ)
    → last ≡ k * second
    → k ≤ a
    → a ≤ b
    → NextKnown w last
    → schedule_due w (b * second) last
      ≡ leb_ℤ (schedule_remaining w (a * second) last) (pos (b - a))
unfolding schedule_remaining
due_later (cron expression after) last k a b h i j (n, next) =
    rw (next, gap_seconds-whole n a, gap_seconds-whole n b) (ground arith)
due_later (timedelta duration) last k a b h i j fits =
    rw (h, gap_seconds-whole a k, gap_seconds-whole b k) (ground arith)

entry_later :
    (a b : ℕ) (v : StorageEntry)
    → a ≤ b
    → IsTimed a v
    → is_due (b * second) v ≡ leb_ℤ (remaining_seconds (a * second) v) (pos (b - a))
entry_later a b v j (k, last, i, next) = due_later v.schedule v.last_run k a b last i j next

none_later :
    (a b : ℕ) (v : StorageEntry) (vs : List StorageEntry)
    → a ≤ b
    → IsTimed a v
    → is_due (b * second) v ≡ false
    → All (λ w. entry_le (a * second) v w ≡ true) vs
    → All (IsTimed a) vs
    → rows_where (is_due (b * second)) vs ≡ []
none_later a b v [] j t h o ts = refl
none_later a b v (w ∷ ws) j t h o ts =
    rw
      (not_yet (remaining_seconds (a * second) v) (remaining_seconds (a * second) w) (b - a) o.0
        (rw (entry_later a b v j t) at h) (entry_later a b w j ts.0))
      (none_later a b v ws j t h o.1 ts.1)
  where
    not_yet :
        (x y : ℤ) (n : ℕ) {d : Bool}
        → leb_ℤ x y ≡ true
        → leb_ℤ x (pos n) ≡ false
        → d ≡ leb_ℤ y (pos n)
        → d ≡ false
    not_yet x y n h k l = ground arith

due_prefix :
    (a b : ℕ) (vs : List StorageEntry) (e : Env) (s : Session)
    → a ≤ b
    → IsSorted (a * second) vs
    → All (IsTimed a) vs
    → (run_due (b * second) vs e s).2 ≡ rows_where (is_due (b * second)) vs
unfolding run_due
due_prefix a b [] e s j o t = refl
due_prefix a b (v ∷ vs) e s j o t = elim (Bool-cases (is_due (b * second) v)) [
  | inl due ↦ rw due (ap (◌∷◌ v) (due_prefix a b vs e (run_entry (b * second) v e s).1 j o.1 t.1))
  | inr early ↦ rw early (sym (none_later a b v vs j t.0 early o.0 t.1))
]

timed :
    (a : ℕ) (vs : List StorageEntry)
    → All (IsTimed a) vs
    → All (IsTimed a) (sort_entries (a * second) vs)
unfolding sort_entries
timed a vs t = All-sort_by (entry_le (a * second)) (IsTimed a) vs t

-- The early end of a tick's loop skips no entry: where the entries were sorted by the clock at one
-- second, and the tick is at that second or a later one, it tries exactly the entries that are due
-- by then, in their order. This is for entries whose last run is not after the sort and whose
-- schedules have a next time: durations below 2 ^ 63 seconds, and cron expressions that are due again.
pub tick_skips_none :
    (a b : ℕ) (vs : List StorageEntry) (e : Env) (s : Session)
    → a ≤ b
    → All (IsTimed a) vs
    → (run_due (b * second) (sort_entries (a * second) vs) e s).2
      ≡ rows_where (is_due (b * second)) (sort_entries (a * second) vs)
tick_skips_none a b vs e s j t =
    due_prefix a b (sort_entries (a * second) vs) e s j (sort_entries-IsSorted (a * second) vs)
      (timed a vs t)

-- A cron expression without a next time holds up the entry behind it: where the other entry had a
-- second or more to wait when the two were sorted, the tick tries neither, whatever its time, and so
-- also where the other entry is due by then.
pub cron_holds_up :
    (a b : ℕ) (v w : StorageEntry) (expression : Text) (after : ℕ → Option ℕ) (e : Env)
    (s : Session)
    → v.schedule ≡ cron expression after
    → after v.last_run ≡ none
    → leb_ℤ (pos 1) (remaining_seconds (a * second) w) ≡ true
    → (run_due (b * second) (sort_entries (a * second) (v ∷ w ∷ [])) e s).2 ≡ []
unfolding run_due sort_entries schedule_remaining
cron_holds_up a b v w expression after e s is never waits =
    rw (always (a * second), waits) (rw (always (b * second)) refl)
  where
    always : (now : ℕ) → schedule_remaining v.schedule now v.last_run ≡ pos 1
    always now = rw (is, never) refl
