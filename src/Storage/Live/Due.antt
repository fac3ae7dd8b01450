-- ===== src/Storage/Live/Due.antt =====
-- The runs whose claims have expired, while they are failed one by one.
use taskturbine.Base.{
  ◌≡◌, some, Bool, true, false, List, [], ◌∷◌, any, All, rows_where, update_where, ==_iff, ==_refl,
  Bool-cases, inl, inr, arith,
}
use taskturbine.Base.Rows.{find_first-update_ne, find_first-key}
use taskturbine.Models.{Uuid, Run}
use taskturbine.Storage.Rows.{is_run, find_run, is_active}
use taskturbine.Storage.Invariant.Statements.{run_key}
use taskturbine.Storage.Live.{any-found}

-- The runs that are still to be failed: each is in the table and active.
abbrev pub Due : List Run → List Run → Type 0
Due all = All (λ r. (find_run r.run_id all ≡ some r) × (is_active r.state ≡ true))

pub Due-insert :
    (new : Run) (all rs : List Run)
    → any (is_run new.run_id) all ≡ false
    → Due all rs
    → Due (new ∷ all) rs
Due-insert new all [] h d = tt
Due-insert new all (r ∷ rs) h d = (
  (
    ground (
      arith,
      (==_iff new.run_id r.run_id).0,
      d.0.0,
      h,
      ==_refl r.run_id,
      any-found (is_run r.run_id) (is_run r.run_id) all d.0.0,
      find_first-key run_key r.run_id all d.0.0,
    ),
    d.0.1,
  ),
  Due-insert new all rs h d.1,
)

pub Due-update :
    (f : Run → Run) (id : Uuid) (all rs : List Run)
    → ((x : Run) → (f x).run_id ≡ x.run_id)
    → any (is_run id) rs ≡ false
    → Due all rs
    → Due (update_where (is_run id) f all) rs
Due-update f id all [] same h d = tt
Due-update f id all (r ∷ rs) same h d = (
  (
    rw
        (find_first-update_ne run_key f r.run_id id all same
          (λ e. ground (arith, h, (==_iff r.run_id id).1 e)))
        d.0.0,
    d.0.1,
  ),
  Due-update f id all rs same (ground arith) d.1,
)

-- The selected rows of a table in which every row is found.
pub Due-selected :
    (p : Run → Bool) (all rs : List Run)
    → ((r : Run) → p r ≡ true → is_active r.state ≡ true)
    → All (λ r. find_run r.run_id all ≡ some r) rs
    → Due all (rows_where p rs)
Due-selected p all [] k f = tt
Due-selected p all (r ∷ rs) k f = elim (Bool-cases (p r)) [
  | inl hit ↦ rw hit ((f.0, k r hit), Due-selected p all rs k f.1)
  | inr miss ↦ rw miss (Due-selected p all rs k f.1)
]
