-- ===== src/Storage/Live/Spawns.antt =====
-- A spawn with a new identifier keeps tables sound: the task that it inserts gets its only live run.
use taskturbine.Base.{
  ◌≡◌, refl, Option, none, some, Bool, true, false, any, ◌==◌, Bool-cases, inl, inr, or_else, not,
}
use taskturbine.Base.Text.{Text, Bytes}
use taskturbine.Models.{Uuid, Task, SpawnResult, pending}
use taskturbine.Sql.Session.{
  Db, Env, Session, M, ◌>>=◌, ◌>>◌, pure, guard, begin, now_v7, execute_checked, commit, effects,
  fails, StorageError, duplicate_spawn, encode_error, validation_error, retry_factor_too_small,
}
use taskturbine.Sql.Hoare.{
  Triple, now_v7-Triple, guard-Triple, bind-Triple, pure-Triple, commit-Triple,
  execute_checked-Triple, inserts-Triple, weaken-Triple,
}
use taskturbine.Storage.Rows.{is_task, new_run, insert_run}
use taskturbine.Storage.Spawn.{
  spawn_task, insert_task, new_task, lift_option, default_options, TaskOptions,
}
use taskturbine.Storage.Live.{Sound}
use taskturbine.Storage.Live.Statements.{insert_run-Sound}
use taskturbine.Storage.Live.Methods.{NewTask, insert_task-New}

-- The tables before the insertion.
abbrev Fresh : Uuid → Db → Type 0
Fresh id w = Sound w × (any (is_task id) w.tasks ≡ false)

-- The statements of a spawn from the insertion of the task.
abbrev insertion : Env → Task → M SpawnResult
insertion e t = do
  spawned ← execute_checked (insert_task t)
  guard (spawned == t.task_id) (duplicate_spawn spawned)
  run_id ← now_v7
  execute_checked (insert_run (new_run e run_id t.task_id 0 pending e.now))
  commit
  pure (record { task_id = t.task_id; run_id = run_id })

insertion-Sound : (e : Env) (t : Task) → Triple Sound (Fresh t.task_id) (insertion e t) (λ r. Sound)
insertion-Sound e t =
    bind-Triple _ _
      (execute_checked-Triple {Q = λ spawned w. (spawned == t.task_id) ≡ true → NewTask t.task_id w}
        _ λ w h. insert_task-New t w h.0 h.1)
      λ spawned.
        bind-Triple _ _
          (weaken-Triple {R = λ u. NewTask t.task_id} _ (λ u w h. h.0 h.1) (guard-Triple _ _))
          λ _. bind-Triple _ _ now_v7-Triple λ run_id.
            bind-Triple _ _
              (inserts-Triple {R = Sound} _
                λ w h. insert_run-Sound (new_run e run_id t.task_id 0 pending e.now) w h.0 h.1 h.2)
              λ _. bind-Triple _ _ (commit-Triple λ w v. v) λ _. pure-Triple _ λ w v. v

-- What comes before the insertion changes no table and draws no identifier.
before_insert :
    {A : Type 0} (R : Db → Type 0) (b : Bool) (x : StorageError) (rest : Uuid → M A) (e : Env)
    (s : Session)
    → R s.store
    → ((s' : Session)
        → s'.store ≡ s.store
        → s'.work ≡ s.store
        → R (rest (e.new_v7 s.drawn) e s').1.store)
    → R ((guard b x >> (begin >> (now_v7 >>= rest))) e s).1.store
unfolding effects
before_insert R false x rest e s h k = h
before_insert R true x rest e s h k = elim (Bool-cases (fails s.faults)) [
  | inl fault ↦ rw fault h
  | inr fine ↦ rw fine (k _ refl refl)
]

lifted :
    {A B : Type 0} (R : Db → Type 0) (x : StorageError) (o : Option A) (rest : A → M B) (e : Env)
    (s : Session)
    → R s.store
    → ((a : A) → R (rest a e s).1.store)
    → R ((lift_option x o >>= rest) e s).1.store
unfolding effects
lifted R x none rest e s h k = h
lifted R x (some a) rest e s h k = k a

pub spawn_task-Sound :
    (channel task_name : Text) (params : Bytes) (options : Option TaskOptions) (e : Env)
    (s : Session)
    → Sound s.store
    → any (is_task (e.new_v7 s.drawn)) s.store.tasks ≡ false
    → Sound (spawn_task channel task_name params options e s).1.store
unfolding spawn_task effects
spawn_task-Sound channel task_name params options e s v fresh =
    let o = or_else options default_options in
    let insert : Text → Uuid → M SpawnResult =
      λ json id. insertion e (new_task e id channel task_name params json o) in
    lifted {B = SpawnResult} Sound encode_error (e.to_json o.headers)
      (λ json.
        guard (not (e.floats.lt_one o.retry_factor)) (validation_error retry_factor_too_small)
        >> (begin >> (now_v7 >>= insert json)))
      e s v
      λ json.
        before_insert {A = SpawnResult} Sound (not (e.floats.lt_one o.retry_factor))
          (validation_error retry_factor_too_small) (insert json) e s v
          λ s' same work.
            ((insertion-Sound e (new_task e (e.new_v7 s.drawn) channel task_name params json o)).at
              e s' (rw same v) (rw work (v, fresh))).0
