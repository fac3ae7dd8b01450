-- ===== src/Cache/Loads.antt =====
-- What the cache holds after a task's checkpoints are loaded into it
-- (taskturbine-core/src/models.rs).
use taskturbine.Base.{
  ◌≡◌, refl, ◌∙◌, ◌⊎◌, inl, inr, Option, none, some, true, false, List, [], ◌∷◌, leb, ◌==◌, ==_refl,
  ==_iff, All, any, rows_where, sort_by, arith, Bool-cases,
}
use taskturbine.Base.Rows.{any-sort_by, All-sort_by}
use taskturbine.Base.Text.{Text, text_eq, text_eq_sound}
use taskturbine.Models.{Uuid, Checkpoint}
use taskturbine.Storage.Rows.{find_checkpoint}
use taskturbine.Cache.{get, insert_all, is_key}

-- The rows of a task, in the order of their times.
abbrev pub task_rows : Uuid → List Checkpoint → List Checkpoint
task_rows id cs =
    sort_by (λ a b. leb a.updated_at b.updated_at) (rows_where (λ c. c.task_id == id) cs)

pub insert_all_missing :
    (id : Uuid) (name : Text) (ks : List Checkpoint) (m : List ((Uuid × Text) × Checkpoint))
    → any (λ k. text_eq k.step_name name) ks ≡ false
    → get (is_key id name) m ≡ none
    → get (is_key id name) (insert_all id ks m) ≡ none
unfolding insert_all
insert_all_missing id name [] m h e = e
insert_all_missing id name (k ∷ ks) m h e =
    insert_all_missing id name ks (((id, k.step_name), k) ∷ m) (ground arith) (ground arith)

pub unsorted_missing :
    (id : Uuid) (name : Text) (cs : List Checkpoint)
    → find_checkpoint id name cs ≡ none
    → any (λ k. text_eq k.step_name name) (rows_where (λ c. c.task_id == id) cs) ≡ false
unsorted_missing id name [] h = refl
unsorted_missing id name (k ∷ ks) h = ground (arith, unsorted_missing id name ks)

-- A row of the name is the row `c`.
abbrev IsOnly : Text → Checkpoint → Checkpoint → Type 0
IsOnly name c k = text_eq k.step_name name ≡ true → k ≡ c

insert_all_only :
    (id : Uuid) (name : Text) (c : Checkpoint) (ks : List Checkpoint)
    (m : List ((Uuid × Text) × Checkpoint))
    → All (IsOnly name c) ks
    → (any (λ k. text_eq k.step_name name) ks ≡ true) ⊎ (get (is_key id name) m ≡ some c)
    → get (is_key id name) (insert_all id ks m) ≡ some c
unfolding insert_all
insert_all_only id name c [] m h (inl e) = cc
insert_all_only id name c [] m h (inr e) = e
insert_all_only id name c (k ∷ ks) m h e =
    insert_all_only id name c ks (((id, k.step_name), k) ∷ m) h.1 (ground (arith, h.0, ==_refl id))

-- The primary key of the checkpoints: no two rows of a task have the same step name.
abbrev pub HasKey : List Checkpoint → Type 0
HasKey [] = Unit
HasKey (c ∷ cs) = (find_checkpoint c.task_id c.step_name cs ≡ none) × HasKey cs

none-IsOnly :
    (id : Uuid) (name : Text) (c : Checkpoint) (cs : List Checkpoint)
    → find_checkpoint id name cs ≡ none
    → All (IsOnly name c) (rows_where (λ k. k.task_id == id) cs)
none-IsOnly id name c [] h = tt
none-IsOnly id name c (k ∷ ks) h = elim (Bool-cases (k.task_id == id)) [
  | inl own ↦ rw own ((λ e. ground arith), none-IsOnly id name c ks (ground arith))
  | inr other ↦ rw other (none-IsOnly id name c ks (ground arith))
]

found-IsOnly :
    (id : Uuid) (name : Text) (c : Checkpoint) (cs : List Checkpoint)
    → HasKey cs
    → find_checkpoint id name cs ≡ some c
    → All (IsOnly name c) (rows_where (λ k. k.task_id == id) cs)
      × (any (λ k. text_eq k.step_name name) (rows_where (λ k. k.task_id == id) cs) ≡ true)
found-IsOnly id name c [] u h = cc
found-IsOnly id name c (k ∷ ks) u h = elim (Bool-cases (k.task_id == id)) [
  | inl own ↦ elim (Bool-cases (text_eq k.step_name name)) [
    | inl same ↦
        let rest =
          none-IsOnly id name c ks (
            ground
              (arith, (==_iff k.task_id id).0 own, text_eq_sound k.step_name name same, u.0)) in
        rw own (ground (arith, rest))
    | inr new ↦
        let rest = found-IsOnly id name c ks u.1 (ground arith) in rw own (ground (arith, rest))
  ]
  | inr other ↦ let rest = found-IsOnly id name c ks u.1 (ground arith) in rw other rest
]

-- A load fills the cache with the rows of the task as a query by key finds them, each under its name.
pub load_lem :
    (id : Uuid) (name : Text) (cs : List Checkpoint)
    → HasKey cs
    → get (is_key id name) (insert_all id (task_rows id cs) []) ≡ find_checkpoint id name cs
load_lem id name cs u = load_at (find_checkpoint id name cs) refl
  where
    load_at :
        (o : Option Checkpoint)
        → find_checkpoint id name cs ≡ o
        → get (is_key id name) (insert_all id (task_rows id cs) []) ≡ o
    load_at none h =
        insert_all_missing id name (task_rows id cs) []
          (any-sort_by _ (λ (k : Checkpoint). text_eq k.step_name name) _
            ∙ unsorted_missing id name cs h)
          refl
    load_at (some c) h =
        let rows = found-IsOnly id name c cs u h in
        insert_all_only id name c (task_rows id cs) [] (All-sort_by _ (IsOnly name c) _ rows.0)
          (inl (any-sort_by _ (λ (k : Checkpoint). text_eq k.step_name name) _ ∙ rows.1))
