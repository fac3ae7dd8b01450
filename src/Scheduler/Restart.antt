-- ===== src/Scheduler/Restart.antt =====
-- What a restarted scheduler takes up (taskturbine-cli/src/scheduler.rs with the state that
-- taskturbine-core/src/storage.rs keeps for it).
use taskturbine.Base.{
  ℕ, ◌≡◌, ◌≢◌, refl, some, false, List, [], ◌∷◌, map, rows_where, Bool-cases, inl, inr, arith,
}
use taskturbine.Base.Text.{Text, text_eq, text_eq_refl, text_eq_sound}
use taskturbine.Models.{SchedulerState}
use taskturbine.Sql.Session.{Env, Session, ok, effects}
use taskturbine.Storage.Upkeep.{get_scheduler_last_run, set_scheduler_last_run, upsert_schedule}
use taskturbine.Cache.{get}
use taskturbine.Scheduler.{StorageEntry, restore, storage_key}

-- The entries of the usecase, as get_scheduler_last_run answers them.
abbrev pub state_of : Text → List SchedulerState → List (Text × ℕ)
state_of usecase rows =
    map (λ w. (w.schedule_id, w.last_run)) (rows_where (λ w. text_eq w.usecase usecase) rows)

text_ne : (a b : Text) → a ≢ b → text_eq a b ≡ false
text_ne a b h = elim (Bool-cases (text_eq a b)) [
  | inl same ↦ absurd (h (text_eq_sound a b same))
  | inr other ↦ other
]

get-upsert_self :
    (w : SchedulerState) (rows : List SchedulerState)
    → get (text_eq w.schedule_id) (state_of w.usecase (upsert_schedule w rows)) ≡ some w.last_run
unfolding upsert_schedule
get-upsert_self w [] = rw (text_eq_refl w.usecase, text_eq_refl w.schedule_id) refl
get-upsert_self w (x ∷ xs) = elim (Bool-cases (text_eq x.usecase w.usecase)) [
  | inl own ↦ elim (Bool-cases (text_eq x.schedule_id w.schedule_id)) [
    | inl same ↦ rw (own, same) (rw (own, text_eq_sound _ _ same, text_eq_refl w.schedule_id) refl)
    | inr other ↦ ground (
      arith,
      get-upsert_self w xs,
      text_eq_sound w.schedule_id x.schedule_id,
      text_eq_refl w.schedule_id,
    )
  ]
  | inr foreign ↦ ground (arith, get-upsert_self w xs)
]

get-upsert_other :
    (k : Text) (w : SchedulerState) (rows : List SchedulerState)
    → k ≢ w.schedule_id
    → get (text_eq k) (state_of w.usecase (upsert_schedule w rows))
      ≡ get (text_eq k) (state_of w.usecase rows)
unfolding upsert_schedule
get-upsert_other k w [] h = rw (text_eq_refl w.usecase, text_ne k w.schedule_id h) refl
get-upsert_other k w (x ∷ xs) h = elim (Bool-cases (text_eq x.usecase w.usecase)) [
  | inl own ↦ elim (Bool-cases (text_eq x.schedule_id w.schedule_id)) [
    | inl same ↦
        ground (arith, text_eq_sound x.schedule_id w.schedule_id same, text_ne k w.schedule_id h)
    | inr other ↦ ground (arith, get-upsert_other k w xs h)
  ]
  | inr foreign ↦ ground (arith, get-upsert_other k w xs h)
]

recorded :
    (key : Text) (t : ℕ) (e : Env) (s : Session)
    → (set_scheduler_last_run key t e s).0 ≡ ok tt
    → (set_scheduler_last_run key t e s).1.store.scheduler_state
      ≡ upsert_schedule
          (record { usecase = e.config.usecase; schedule_id = key; last_run = t })
          s.store.scheduler_state
unfolding set_scheduler_last_run effects
recorded key t e s h = ground arith

answered :
    (e : Env) (s : Session) (state : List (Text × ℕ))
    → (get_scheduler_last_run e s).0 ≡ ok state
    → state ≡ state_of e.config.usecase s.store.scheduler_state
unfolding get_scheduler_last_run effects
answered e s state h = ground arith

-- A restart goes on where the scheduler was. After the time `t` of a run of the entry `v` was
-- recorded, a scheduler of the usecase that reads the state starts an entry with the key of `v` at
-- `t`, and an entry with another key as it would have before, under any failing statements in either.
pub restart_restores :
    (e e' : Env) (s s' : Session) (t : ℕ) (v w x : StorageEntry) (state : List (Text × ℕ))
    → (set_scheduler_last_run (storage_key v) t e s).0 ≡ ok tt
    → s'.store ≡ (set_scheduler_last_run (storage_key v) t e s).1.store
    → e'.config.usecase ≡ e.config.usecase
    → (get_scheduler_last_run e' s').0 ≡ ok state
    → storage_key w ≡ storage_key v
    → storage_key x ≢ storage_key v
    → ((restore text_eq state w).last_run ≡ t)
      × (restore text_eq state x
          ≡ restore text_eq (state_of e.config.usecase s.store.scheduler_state) x)
unfolding restore
restart_restores e e' s s' t v w x state written kept own read same other =
    let row : SchedulerState = record {
      usecase = e.config.usecase;
      schedule_id = storage_key v;
      last_run = t;
    } in
    let states : state ≡ state_of e.config.usecase (upsert_schedule row s.store.scheduler_state) =
      rw (answered e' s' state read, own, kept, recorded (storage_key v) t e s written) refl in
    (
      rw (states, same, get-upsert_self row s.store.scheduler_state) refl,
      rw (states, get-upsert_other (storage_key x) row s.store.scheduler_state other) refl,
    )
