-- ===== src/Cli/Queries.antt =====
-- What the queries of AdminStorage answer (taskturbine-cli/src/admin_storage.rs).
use taskturbine.Base.{
  ℕ, ◌≤◌, ◌≡◌, refl, some, Bool, true, ◌&&◌, List, [], ◌∷◌, ◌==◌, All, length, take, find_first,
  arith, rows_where, sort_by,
}
use taskturbine.Base.Int.{ℤ, pos, negsuc, pos_part}
use taskturbine.Base.Rows.{All-take, All-rows_where, All-sort_by, length-take_le}
use taskturbine.Base.Sorting.{IsOrdered, IsOrder, sort-IsOrdered, take-IsOrdered}
use taskturbine.Base.Text.{Text, text_eq}
use taskturbine.Models.{Uuid, Task, Run}
use taskturbine.Sql.Session.{Env, Session, ok, effects}
use taskturbine.Storage.Rows.{find_task, is_run, is_task}
use taskturbine.Cli.Admin.{
  TaskListOptions, RunListOptions, TaskDetails, RunDetails, task_selected, selected_tasks,
  task_list, task_get, run_list, run_get, run_order, run_selected, newest_first, own_row,
}

newest_first-IsOrder : IsOrder (λ (a b : Task). newest_first a.created_at b.created_at)
newest_first-IsOrder = record { total = λ a b h. ground arith; trans = λ a b c h k. ground arith }

-- What a list of tasks is that answers a query.
pub record IsAnswer (matches : Text → Text → Bool) (e : Env) (o : TaskListOptions)
    (tasks ts : List Task) : Type 0 where
  pub selected : All (λ t. task_selected matches e o t ≡ true) ts
  pub bounded : length ts ≤ pos_part o.limit
  pub ordered : IsOrdered (λ (a b : Task). newest_first a.created_at b.created_at) ts
  pub page : ts ≡ take (pos_part o.limit) (selected_tasks matches e o tasks)

page-IsAnswer :
    (matches : Text → Text → Bool) (e : Env) (o : TaskListOptions) (tasks : List Task) (n : ℕ)
    → o.limit ≡ pos n
    → IsAnswer matches e o tasks (take n (selected_tasks matches e o tasks))
page-IsAnswer matches e o tasks n h = record {
  selected =
      All-take _ n (selected_tasks matches e o tasks)
        (All-sort_by _ _ _ (All-rows_where _ (task_selected matches e o) tasks (λ t k. k)));
  bounded = rw h (length-take_le n (selected_tasks matches e o tasks));
  ordered =
      take-IsOrdered _ n _
        (sort-IsOrdered _ newest_first-IsOrder (rows_where (task_selected matches e o) tasks));
  page = rw h refl;
}

task_list_page :
    (matches : Text → Text → Bool) (o : TaskListOptions) (e : Env) (s : Session) (ts : List Task)
    → (task_list matches o e s).0 ≡ ok ts
    → (n : ℕ) × (o.limit ≡ pos n) × (ts ≡ take n (selected_tasks matches e o s.store.tasks))
unfolding task_list effects
task_list_page matches o e s ts h = go o.limit refl
  where
    go :
        (l : ℤ)
        → o.limit ≡ l
        → (n : ℕ) × (o.limit ≡ pos n) × (ts ≡ take n (selected_tasks matches e o s.store.tasks))
    go (pos n) k = (n, k, ground arith)
    go (negsuc n) k = ground arith

-- Under any failing statements, a task_list that succeeds answers with tasks of its usecase that pass
-- every filter given, at most the limit of them and the newest first: the first page of all such tasks.
pub task_list-IsAnswer :
    (matches : Text → Text → Bool) (o : TaskListOptions) (e : Env) (s : Session) (ts : List Task)
    → (task_list matches o e s).0 ≡ ok ts
    → IsAnswer matches e o s.store.tasks ts
task_list-IsAnswer matches o e s ts h =
    let (n, k, t) = task_list_page matches o e s ts h in
    rw t (page-IsAnswer matches e o s.store.tasks n k)

first_passes {ℓ} :
    {A : Type ℓ} (p : A → Bool) (xs : List A) (x : A) → find_first p xs ≡ some x → p x ≡ true
first_passes p [] x h = cc
first_passes p (y ∷ ys) x h = ground (arith, first_passes p ys x)

task_get_rows :
    (e : Env) (s : Session) (task_id : Uuid) (d : TaskDetails)
    → (task_get task_id e s).0 ≡ ok d
    → (find_first (λ t. is_task task_id t && text_eq t.usecase e.config.usecase) s.store.tasks
        ≡ some d.task)
      × (d.runs ≡ sort_by run_order (rows_where (λ r. r.task_id == task_id) s.store.runs))
unfolding task_get effects
task_get_rows e s task_id d h = (ground arith, ground arith)

run_list_rows :
    (e : Env) (s : Session) (o : RunListOptions) (rs : List Run)
    → (run_list o e s).0 ≡ ok rs
    → rs
      ≡ sort_by
          (λ a b. newest_first a.created_at b.created_at)
          (rows_where (run_selected e o s.store.tasks) s.store.runs)
unfolding run_list effects
run_list_rows e s o rs h = ground arith

run_get_row :
    (e : Env) (s : Session) (run_id : Uuid) (d : RunDetails)
    → (run_get run_id e s).0 ≡ ok d
    → find_first
        (λ r. is_run run_id r && own_row e (find_task r.task_id s.store.tasks))
        s.store.runs
      ≡ some d.run
unfolding run_get effects
run_get_row e s run_id d h = ground arith

-- No query leaves the usecase. Under any failing statements, a task_get that succeeds answers with a
-- task of the usecase and runs of that task, a run_list with runs whose tasks are of the usecase, and
-- a run_get with such a run.
pub queries_own :
    (e : Env) (s : Session) (task_id run_id : Uuid) (o : RunListOptions) (d : TaskDetails)
    (rs : List Run) (d' : RunDetails)
    → (task_get task_id e s).0 ≡ ok d
    → (run_list o e s).0 ≡ ok rs
    → (run_get run_id e s).0 ≡ ok d'
    → (text_eq d.task.usecase e.config.usecase ≡ true)
      × All (λ r. (r.task_id == task_id) ≡ true) d.runs
      × All (λ r. own_row e (find_task r.task_id s.store.tasks) ≡ true) rs
      × (own_row e (find_task d'.run.task_id s.store.tasks) ≡ true)
queries_own e s task_id run_id o d rs d' h k l =
    let got = task_get_rows e s task_id d h in
    (
      ground (arith, first_passes _ s.store.tasks d.task got.0),
      rw got.1 (
          All-sort_by _ _ _
            (All-rows_where _ (λ (r : Run). r.task_id == task_id) s.store.runs (λ r i. i))),
      rw (run_list_rows e s o rs k) (
          All-sort_by _ _ _
            (All-rows_where _ (run_selected e o s.store.tasks) s.store.runs (λ r i. ground arith))),
      ground (arith, first_passes _ s.store.runs d'.run (run_get_row e s run_id d' l)),
    )
