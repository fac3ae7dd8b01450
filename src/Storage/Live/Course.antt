-- ===== src/Storage/Live/Course.antt =====
-- Sound tables after any history of calls.
use mathlib.Core.Path.{subst}
use taskturbine.Base.{◌≡◌, false, List, [], ◌∷◌, any}
use taskturbine.Sql.Session.{Db, empty_db}
use taskturbine.Storage.Rows.{is_task}
use taskturbine.Storage.Calls.{Call, spawns, Event, perform, replay, opened}
use taskturbine.Storage.Kept.Calls.{perform-Kept}
use taskturbine.Storage.Live.{Sound}
use taskturbine.Storage.Live.Methods.{Sound-Kept, cleanup_tasks-Sound, clear_storage-Sound}
use taskturbine.Storage.Live.Spawns.{spawn_task-Sound}
use taskturbine.Storage.Live.Expiry.{fail_run-Sound, run_upkeep-Sound}

-- Where the call is a spawn, the identifier that it draws for its task is that of no task there is.
abbrev pub FreshFor : Call → Event → Db → Type 0
FreshFor (spawns c n p o) v db = any (is_task (v.env.new_v7 v.drawn)) db.tasks ≡ false
FreshFor _ v db = Unit

abbrev pub IsFresh : Event → Db → Type 0
IsFresh v db = FreshFor v.call v db

-- The same of each call of a history, when its turn comes.
abbrev pub AllFresh : Db → List Event → Type 0
AllFresh db [] = Unit
AllFresh db (v ∷ vs) = IsFresh v db × AllFresh (perform v.call v.env (opened v db)).store vs

perform-Sound :
    (v : Event) (db : Db)
    → IsFresh v db
    → Sound db
    → Sound (perform v.call v.env (opened v db)).store
perform-Sound v db fresh d =
    let e = v.env in
    let s = opened v db in
    perform-Kept Sound-Kept e s d d v.call (record {
      spawned = λ ch n p o same.
          spawn_task-Sound ch n p o e s d (subst (λ c. FreshFor c v db) same fresh);
      failed = λ r b t. ((fail_run-Sound r b t).at e s d d).0;
      kept_up = λ l. ((run_upkeep-Sound l).at e s d d).0;
      cleaned = λ t l same. ((cleanup_tasks-Sound t l).at e s (d, d)).0;
      cleared = λ same. clear_storage-Sound e s d;
    })

-- From sound tables, whatever the calls, their times and the statements that fail, a task never gets
-- two live runs, that is, runs that are active or await an event, if each spawn draws an identifier
-- that no task in the tables has. Run identifiers stay unique, and each run has its task.
pub replay-Sound : (vs : List Event) (db : Db) → Sound db → AllFresh db vs → Sound (replay db vs)
unfolding replay
replay-Sound [] db v f = v
replay-Sound (h ∷ hs) db v f = replay-Sound hs _ (perform-Sound h db f.0 v) f.1

pub empty-Sound : Sound empty_db
empty-Sound = record { run_ids = tt; owners = tt; single = tt }
