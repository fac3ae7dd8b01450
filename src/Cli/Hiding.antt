-- ===== src/Cli/Hiding.antt =====
-- What get-task prints of results without --show-results (taskturbine-cli/src/task_get.rs).
use taskturbine.Base.{
  ◌≡◌, refl, sym, ap, ◌∙◌, Bool, false, Option, none, some, List, [], ◌∷◌, ◌==◌, map, rows_where,
  sort_by, insert_by, arith,
}
use taskturbine.Base.Text.{Text, Bytes}
use taskturbine.Models.{Uuid, Run, Checkpoint}
use taskturbine.Sql.Session.{Db, Env, Session, Result, ok, err, panic, effects}
use taskturbine.Cli.Admin.{TaskDetails, task_get, run_order, by_time}
use taskturbine.Cli.Commands.{CliResult}
use taskturbine.Cli.Formatters.{Display, payload_line, dump_run, dump_checkpoint}
use taskturbine.Cli.Printing.{printed, lines_of, show_task, TaskGetArgs, get_task}

abbrev without_result : Run → Run
without_result r = record r { result = none }

abbrev without_state : Checkpoint → Checkpoint
without_state c = record c { state = [] }

-- The tables without what the runs and the steps returned.
abbrev pub erased : Db → Db
erased db = record db {
  runs = map without_result db.runs;
  checkpoints = map without_state db.checkpoints;
}

module _ {ℓ} {A : Type ℓ} (f : A → A) where
  rows_where-map :
      (p : A → Bool) (xs : List A)
      → ((x : A) → p (f x) ≡ p x)
      → rows_where p (map f xs) ≡ map f (rows_where p xs)
  rows_where-map p [] h = refl
  rows_where-map p (x ∷ xs) h = ground (arith, h x, rows_where-map p xs h)

  lines_of-map :
      (line : A → List Text) (xs : List A)
      → ((x : A) → line (f x) ≡ line x)
      → lines_of line (map f xs) ≡ lines_of line xs
  lines_of-map line [] h = refl
  lines_of-map line (x ∷ xs) h = rw (h x, lines_of-map line xs h) refl

  insert_by-map :
      (le : A → A → Bool) (x : A) (xs : List A)
      → ((a b : A) → le (f a) (f b) ≡ le a b)
      → insert_by le (f x) (map f xs) ≡ map f (insert_by le x xs)
  insert_by-map le x [] h = refl
  insert_by-map le x (y ∷ ys) h = ground (arith, h x y, h y x, insert_by-map le x ys h)

  sort_by-map :
      (le : A → A → Bool) (xs : List A)
      → ((a b : A) → le (f a) (f b) ≡ le a b)
      → sort_by le (map f xs) ≡ map f (sort_by le xs)
  sort_by-map le [] h = refl
  sort_by-map le (x ∷ xs) h =
      ap (insert_by le (f x)) (sort_by-map le xs h) ∙ insert_by-map le x (sort_by le xs) h

  sorted :
      (p : A → Bool) (le : A → A → Bool) (xs : List A)
      → ((x : A) → p (f x) ≡ p x)
      → ((a b : A) → le (f a) (f b) ≡ le a b)
      → sort_by le (rows_where p (map f xs)) ≡ map f (sort_by le (rows_where p xs))
  sorted p le xs h k = ap (sort_by le) (rows_where-map p xs h) ∙ sort_by-map le (rows_where p xs) k

abbrev erased_details : TaskDetails → TaskDetails
erased_details x = record {
  task = x.task;
  runs = map without_result x.runs;
  checkpoints = map without_state x.checkpoints;
}

show_task-erased :
    (d : Display) (x : TaskDetails) → show_task d false (erased_details x) ≡ show_task d false x
unfolding show_task dump_run dump_checkpoint
show_task-erased d x =
    rw
      (
        lines_of-map without_result (λ r. dump_run d r false false) x.runs hidden,
        lines_of-map without_state (λ c. dump_checkpoint d c false) x.checkpoints (λ c. refl),
      )
      refl
  where
    no_line : (o : Option Bytes) → payload_line d false o ≡ []
    no_line none = refl
    no_line (some b) = refl

    hidden : (r : Run) → dump_run d (without_result r) false false ≡ dump_run d r false false
    hidden r = rw (no_line r.result) refl

abbrev erased_answer : Result TaskDetails → Result TaskDetails
erased_answer (ok x) = ok (erased_details x)
erased_answer (err x) = err x
erased_answer panic = panic

task_get-erased :
    (task_id : Uuid) (e : Env) (s : Session)
    → (task_get task_id e (record s { store = erased s.store })).0
      ≡ erased_answer (task_get task_id e s).0
unfolding task_get effects
task_get-erased task_id e s =
    let runs = sorted without_result (λ (r : Run). r.task_id == task_id) run_order s.store.runs in
    let checkpoints =
      sorted without_state (λ (c : Checkpoint). c.task_id == task_id) by_time s.store.checkpoints in
    ground (arith, runs (λ r. refl) (λ a b. refl), checkpoints (λ c. refl) (λ a b. refl))

-- How a command with this answer ends, and what it prints.
abbrev shown_of : Display → Result TaskDetails × Session → CliResult × List Text
shown_of d p = ((printed (show_task d false) p).0, (printed (show_task d false) p).1)

printed-erased :
    (d : Display) (r : Result TaskDetails) (s s' : Session)
    → shown_of d (r, s) ≡ shown_of d (erased_answer r, s')
printed-erased d (ok x) s s' = rw (show_task-erased d x) refl
printed-erased d (err x) s s' = refl
printed-erased d panic s s' = refl

-- The arguments without --show-results.
abbrev pub without_results : Uuid → TaskGetArgs
without_results task_id = record { task_id = task_id; show_results = false }

-- Without --show-results, get-task does not show what runs and steps returned: on two databases that
-- differ only there it ends in the same way and prints the same lines, whatever statements fail.
pub get_task_hides :
    (d : Display) (task_id : Uuid) (e : Env) (s : Session) (db : Db)
    → erased s.store ≡ erased db
    → let a = without_results task_id in
      let other : Session = record s { store = db } in
      ((get_task d a e s).0 ≡ (get_task d a e other).0)
      × ((get_task d a e s).1 ≡ (get_task d a e other).1)
unfolding get_task
get_task_hides d task_id e s db h =
    let other : Session = record s { store = db } in
    let same : erased_answer (task_get task_id e s).0 ≡ erased_answer (task_get task_id e other).0 =
      sym (task_get-erased task_id e s)
      ∙ (ap (λ x. (task_get task_id e (record s { store = x })).0) h
          ∙ task_get-erased task_id e other) in
    let shown : shown_of d (task_get task_id e s) ≡ shown_of d (task_get task_id e other) =
      printed-erased d (task_get task_id e s).0 (task_get task_id e s).1 s
      ∙ (ap (λ r. shown_of d (r, s)) same
          ∙ sym (printed-erased d (task_get task_id e other).0 (task_get task_id e other).1 s)) in
    (ap (λ p. p.0) shown, ap (λ p. p.1) shown)
