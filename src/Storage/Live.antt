-- ===== src/Storage/Live.antt =====
-- Live runs: those that a worker may still execute. A run is live in an active state, and where it
-- awaits an event, since an emission makes it pending whatever its state.
pub mod Statements
pub mod Methods
pub mod Spawns
pub mod Due
pub mod Expiry
pub mod Course
use taskturbine.Base.{
  ℕ, ◌≡◌, refl, sym, ◌∙◌, Option, none, some, Bool, true, false, List, [], ◌∷◌, ◌==◌, ◌||◌, ◌&&◌,
  not, any, All, is_some, find_first, update_where, delete_where, ==_iff, ==_refl, Bool-cases, inl,
  inr, arith,
}
use taskturbine.Base.Rows.{Distinct}
use taskturbine.Models.{Uuid, Task, Run}
use taskturbine.Sql.Session.{Db}
use taskturbine.Storage.Rows.{is_run, is_active, find_run}
use taskturbine.Storage.Cleanup.{HasTask}
use taskturbine.Storage.Invariant.Statements.{run_key}

abbrev pub is_live : Run → Bool
is_live r = is_active r.state || is_some r.wait_event_name

-- A live run of the task.
abbrev pub lives : Uuid → Run → Bool
lives id r = r.task_id == id && is_live r

-- No two live runs are of one task.
abbrev pub OneLive : List Run → Type 0
OneLive [] = Unit
OneLive (r ∷ rs) = ((not (is_live r) || not (any (lives r.task_id) rs)) ≡ true) × OneLive rs

-- No two runs share an identifier, every run has its task, and no task has two live runs.
pub record Sound (db : Db) : Type 0 where
  pub run_ids : Distinct run_key db.runs
  pub owners : All (HasTask db.tasks) db.runs
  pub single : OneLive db.runs

-- An update that makes no run live that was not.
abbrev pub Shrinks : (Run → Run) → Run → Type 0
Shrinks f r = (not (is_live (f r)) || is_live r) ≡ true

module _ (p : Run → Bool) (f : Run → Run) (same : (r : Run) → (f r).task_id ≡ r.task_id) where
  any-update_lives :
      (id : Uuid) (rs : List Run)
      → All (λ r. p r ≡ true → Shrinks f r) rs
      → any (lives id) rs ≡ false
      → any (lives id) (update_where p f rs) ≡ false
  any-update_lives id [] k h = refl
  any-update_lives id (r ∷ rs) k h = ground (arith, same r, k.0, any-update_lives id rs k.1)

  pub update-OneLive :
      (rs : List Run)
      → All (λ r. p r ≡ true → Shrinks f r) rs
      → OneLive rs
      → OneLive (update_where p f rs)
  update-OneLive [] k h = tt
  update-OneLive (r ∷ rs) k h =
      (ground (arith, same r, k.0, any-update_lives r.task_id rs k.1), update-OneLive rs k.1 h.1)

any-delete_lives :
    (p : Run → Bool) (id : Uuid) (rs : List Run)
    → any (lives id) rs ≡ false
    → any (lives id) (delete_where p rs) ≡ false
any-delete_lives p id [] h = refl
any-delete_lives p id (r ∷ rs) h = ground (arith, any-delete_lives p id rs)

pub delete-OneLive : (p : Run → Bool) (rs : List Run) → OneLive rs → OneLive (delete_where p rs)
delete-OneLive p [] h = tt
delete-OneLive p (r ∷ rs) h =
    let rest = delete-OneLive p rs h.1 in ground (arith, any-delete_lives p r.task_id rs)

pub any-found {ℓ} :
    {A : Type ℓ} (p q : A → Bool) (xs : List A) {x : A}
    → find_first p xs ≡ some x
    → q x ≡ true
    → any q xs ≡ true
any-found p q [] f h = cc
any-found p q (y ∷ ys) {x} f h = elim (Bool-cases (p y)) [
  | inl hit ↦ ground arith
  | inr miss ↦ ground (arith, any-found p q ys {x = x})
]

All-Shrinks :
    (p : Run → Bool) (f : Run → Run) (rs : List Run)
    → ((r : Run) → Shrinks f r)
    → All (λ r. p r ≡ true → Shrinks f r) rs
All-Shrinks p f [] k = tt
All-Shrinks p f (r ∷ rs) k = (λ h. k r, All-Shrinks p f rs k)

-- Where the only live run of a task is ended, none is left.
pub ended-none :
    (f : Run → Run) (run_id : Uuid) (rs : List Run) {r : Run}
    → ((x : Run) → (f x).task_id ≡ x.task_id)
    → ((x : Run) → is_live (f x) ≡ false)
    → OneLive rs
    → find_run run_id rs ≡ some r
    → is_live r ≡ true
    → any (lives r.task_id) (update_where (is_run run_id) f rs) ≡ false
ended-none f run_id [] same over h found live = cc
ended-none f run_id (x ∷ xs) {r} same over h found live = elim (Bool-cases (is_run run_id x)) [
  | inl hit ↦
      let x_r : x ≡ r = ground arith in
      ground (
        arith,
        over x,
        same x,
        h.0,
        x_r,
        ==_refl r.task_id,
        any-update_lives (is_run run_id) f same r.task_id xs
            (All-Shrinks _ f xs (λ y. ground (arith, over y))),
      )
  | inr miss ↦
      let rest : find_run run_id xs ≡ some r = ground arith in
      ground (
        arith,
        h.0,
        (==_iff x.task_id r.task_id).0,
        ==_refl r.task_id,
        any-found (is_run run_id) (lives r.task_id) xs rest,
        ended-none f run_id xs {r = r} same over h.1 rest live,
      )
]

All-absent {ℓ} :
    {A : Type ℓ} (p : A → Bool) (xs : List A) → any p xs ≡ false → All (λ x. p x ≡ false) xs
All-absent p [] h = tt
All-absent p (x ∷ xs) h = let rest = All-absent p xs in ground arith

found_cons :
    (x : Run) (all xs : List Run)
    → All (λ y. is_run x.run_id y ≡ false) xs
    → All (λ y. find_run y.run_id all ≡ some y) xs
    → All (λ y. find_run y.run_id (x ∷ all) ≡ some y) xs
found_cons x all [] a h = tt
found_cons x all (y ∷ ys) a h = (
  ground (arith, (==_iff x.run_id y.run_id).0, a.0, h.0, ==_refl x.run_id),
  found_cons x all ys a.1 h.1,
)

-- Every row is found under its identifier.
pub found_each : (rs : List Run) → Distinct run_key rs → All (λ r. find_run r.run_id rs ≡ some r) rs
found_each [] d = tt
found_each (r ∷ rs) d = (
  rw (==_refl r.run_id) refl,
  found_cons r rs rs (All-absent (is_run r.run_id) rs d.0) (found_each rs d.1),
)
