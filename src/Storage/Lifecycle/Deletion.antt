-- ===== src/Storage/Lifecycle/Deletion.antt =====
-- What the methods that delete runs leave of one: cleanup_tasks and clear_storage.
use taskturbine.Base.{
  ℕ, ◌≡◌, refl, ◌⊎◌, inl, inr, Option, none, some, Bool, true, false, List, [], ◌∷◌, any,
  find_first, delete_where, is_some, Bool-cases, arith,
}
use taskturbine.Base.Int.{ℤ}
use taskturbine.Base.Rows.{
  Distinct, Distinct-delete_where, find_first-delete_where, find_first-none,
}
use taskturbine.Models.{Uuid, Run, Task}
use taskturbine.Sql.Session.{Db, Env}
use taskturbine.Sql.Keeps.{Keeps, Writes, keeps_rules}
use taskturbine.Storage.Rows.{is_run, find_run}
use taskturbine.Storage.Upkeep.{cleanup_tasks, cleanup_tasks_statement, delete_tasks, clear_storage}
use taskturbine.Storage.Invariant.Statements.{run_key}
use taskturbine.Storage.Lifecycle.{Life, Tracks}

-- No two runs share an identifier, and the run `id` is the row, or it is gone.
pub record Stays (id : Uuid) (row : Run) (db : Db) : Type 0 where
  pub keys : Distinct run_key db.runs
  pub same : (find_run id db.runs ≡ none) ⊎ (find_run id db.runs ≡ some row)

any-none {ℓ} : {A : Type ℓ} (p : A → Bool) (xs : List A) → find_first p xs ≡ none → any p xs ≡ false
any-none p [] h = refl
any-none p (x ∷ xs) h = ground (arith, any-none p xs)

module _ (id : Uuid) (row : Run) where
  deleted-Stays :
      (p : Run → Bool) (db d : Db)
      → d.runs ≡ delete_where p db.runs
      → Stays id row db
      → Stays id row d
  deleted-Stays p db d h t = record {
    keys = rw h (Distinct-delete_where run_key p db.runs t.keys);
    same = elim t.same [
      | inl gone ↦
          inl (rw h (find_first-none run_key p id db.runs (any-none (is_run id) db.runs gone)))
      | inr there ↦ elim (Bool-cases (p row)) [
        | inl hit ↦ inl (ground (arith, find_first-delete_where run_key p id db.runs t.keys there))
        | inr miss ↦ inr (ground (arith, find_first-delete_where run_key p id db.runs t.keys there))
      ]
    ];
  }

  same-Stays : (db d : Db) → d.runs ≡ db.runs → Stays id row db → Stays id row d
  same-Stays db d h t = record { keys = rw h t.keys; same = rw h t.same }

  empty-Stays : (db : Db) → Stays id row db → Stays id row (record db { runs = [] })
  empty-Stays db t = record { keys = tt; same = inl refl }

  delete_tasks-Stays :
      (db : Db) (o : Option (List Task))
      → Stays id row db
      → Writes (Stays id row) (delete_tasks db o)
  delete_tasks-Stays db none t = tt
  delete_tasks-Stays db (some picked) t = deleted-Stays _ db _ refl t

  cleanup_statement-Stays :
      (e : Env) (older_than : ℕ) (limit : ℤ) (db : Db)
      → Stays id row db
      → Writes (Stays id row) (cleanup_tasks_statement e older_than limit db)
  unfolding cleanup_tasks_statement
  cleanup_statement-Stays e older_than limit db t = delete_tasks-Stays db _ t

  pub cleanup_tasks-Stays :
      (older_than : ℕ) (limit : ℤ) → Keeps (Stays id row) (cleanup_tasks older_than limit)
  unfolding cleanup_tasks
  cleanup_tasks-Stays older_than limit = search (keeps_rules, cleanup_statement-Stays)

  pub clear_storage-Stays : Keeps (Stays id row) clear_storage
  unfolding clear_storage
  clear_storage-Stays = search (keeps_rules, same-Stays, empty-Stays) depth 12

module _ (id : Uuid) (start : Life) where
  pub stays : (db : Db) (t : Tracks id start [] db) → Stays id t.row db
  stays db t = record { keys = t.keys; same = inr t.found }

  pub still :
      (db d : Db) (t : Tracks id start [] db)
      → Stays id t.row d
      → is_some (find_run id d.runs) ≡ true
      → Tracks id start [] d
  still db d t h there = record {
    row = t.row;
    found = elim h.same [ inl gone ↦ ground arith | inr same ↦ same ];
    moved = t.moved;
    keys = h.keys;
    expects = refl;
  }
