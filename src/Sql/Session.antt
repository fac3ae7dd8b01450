-- ===== src/Sql/Session.antt =====
-- The tables, the session of one storage method, and the statements it is made of.
use taskturbine.Base.{ℕ, ◌+◌, List, [], ◌∷◌, Option, none, some, Bool, true, false, if◌then◌else◌}
use taskturbine.Base.Text.{Text, Bytes}
use taskturbine.Models.{Uuid, Task, Run, Checkpoint, EventRow, Wait, SchedulerState, Config, Floats}

-- The tables of the taskturbine schema. Rows stand in the order in which a scan meets them.
pub record Db : Type 0 where
  pub tasks : List Task
  pub runs : List Run
  pub checkpoints : List Checkpoint
  pub events : List EventRow
  pub waits : List Wait
  pub scheduler_state : List SchedulerState

abbrev pub empty_db : Db
empty_db = record {
  tasks = [];
  runs = [];
  checkpoints = [];
  events = [];
  waits = [];
  scheduler_state = [];
}

-- The texts of the ValidationError messages.
pub data Message : Type 0 where
  retry_factor_too_small qty_not_positive claim_timeout_past currently_running : Message
  no_task_named : Text → Message

pub data StorageError : Type 0 where
  encode_error sql_error : StorageError
  not_found not_running duplicate_spawn : Uuid → StorageError
  validation_error : Message → StorageError

-- `panic` is an `unwrap` of an error: the method does not return.
pub data Result {ℓ} (A : Type ℓ) : Type ℓ where
  ok : A → Result A
  err : StorageError → Result A
  panic : Result A

-- What a method reads and does not change: the configuration, NOW() of the database, Utc::now() of
-- the process, the supply of UUIDs (the nth call of Uuid::now_v7), the floats, the JSON encoder,
-- and the runs and tasks that other transactions have locked.
pub record Env : Type 0 where
  pub config : Config
  pub now : ℕ
  pub utc_now : ℕ
  pub new_v7 : ℕ → Uuid
  pub floats : Floats
  pub to_json : List (Text × Text) → Option Bytes
  pub locked : Uuid → Bool

-- `store` is what is committed, `work` what the open transaction sees; `faults` says for each
-- statement to come whether it fails (past its end none does), `drawn` counts the UUIDs drawn.
pub record Session : Type 0 where
  pub store : Db
  pub work : Db
  pub faults : List Bool
  pub drawn : ℕ

-- A session none of whose statements fails.
abbrev pub clean : Db → Db → ℕ → Session
clean db work drawn = record { store = db; work = work; faults = []; drawn = drawn }

abbrev pub M {ℓ} : Type ℓ → Type ℓ
M A = Env → Session → Result A × Session

-- `?` on a result: the rest of the method runs on success only.
abbrev pub and_then {ℓ κ} :
    {A : Type ℓ} {B : Type κ}
    → Result A
    → Session
    → (A → Session → Result B × Session)
    → Result B × Session
and_then (ok a) s k = k a s
and_then (err x) s k = (err x, s)
and_then panic s k = (panic, s)

infixl 5 ◌>>=◌ ◌>>◌
unfoldable pub ◌>>=◌ {ℓ κ} : {A : Type ℓ} {B : Type κ} → M A → (A → M B) → M B
◌>>=◌ m f e s = and_then (m e s).0 (m e s).1 (λ a s'. f a e s')

abbrev pub ◌>>◌ {κ} : {B : Type κ} → M (Unit {0}) → M B → M B
m >> k = m >>= λ _. k

unfoldable pub pure {ℓ} : {A : Type ℓ} → A → M A
pure a e s = (ok a, s)

unfoldable pub raise {ℓ} : {A : Type ℓ} → StorageError → M A
raise x e s = (err x, s)

unfoldable pub ask : M Env
ask e s = (ok e, s)

unfoldable pub guard : Bool → StorageError → M (Unit {0})
guard true x = pure tt
guard false x = raise x

-- Uuid::now_v7.
unfoldable pub now_v7 : M Uuid
now_v7 e s = (ok (e.new_v7 s.drawn), record s { drawn = s.drawn + 1 })

abbrev pub fails : List Bool → Bool
fails [] = false
fails (b ∷ bs) = b

abbrev pub later : List Bool → List Bool
later [] = []
later (b ∷ bs) = bs

-- One statement: a fault, or the step it stands for.
abbrev attempt {ℓ} :
    {A : Type ℓ} → StorageError → (Session → Result A × Session) → Session → Result A × Session
attempt x step s =
    let s' : Session = record s { faults = later s.faults } in
    if fails s.faults then (err x, s') else step s'

unfoldable pub begin : M (Unit {0})
begin e = attempt sql_error λ s. (ok tt, record s { work = s.store })

unfoldable pub commit : M (Unit {0})
commit e = attempt sql_error λ s. (ok tt, record s { store = s.work })

-- `atomic.commit().await.unwrap()`.
abbrev unwrapped {ℓ} : {A : Type ℓ} → Result A × Session → Result A × Session
unwrapped (ok a, s) = (ok a, s)
unwrapped (err x, s) = (panic, s)
unwrapped (panic, s) = (panic, s)

unfoldable pub commit_or_panic : M (Unit {0})
unfolding commit
commit_or_panic e s = unwrapped (commit e s)

-- An explicit rollback. A transaction that is dropped, as on `?`, has no statement of its own:
-- the next `begin` takes a fresh working copy.
unfoldable pub rollback : M (Unit {0})
rollback e = attempt sql_error λ s. (ok tt, record s { work = s.store })

-- `let _ = atomic.rollback().await`.
unfoldable pub try_rollback : M (Unit {0})
unfolding rollback
try_rollback e s = (ok tt, (rollback e s).1)

abbrev found {ℓ} : {A : Type ℓ} → StorageError → Option A → Result A
found x none = err x
found x (some a) = ok a

-- fetch_one: a fault and a missing row are the same error.
unfoldable pub fetch_one {ℓ} : {A : Type ℓ} → StorageError → (Db → Option A) → M A
fetch_one x q e = attempt x λ s. (found x (q s.work), s)

-- fetch_optional and fetch_all.
unfoldable pub fetch {ℓ} : {A : Type ℓ} → (Db → A) → M A
fetch q e = attempt sql_error λ s. (ok (q s.work), s)

-- execute, in the transaction.
unfoldable pub execute : (Db → Db) → M (Unit {0})
execute f e = attempt sql_error λ s. (ok tt, record s { work = f s.work })

-- A statement that a constraint can refuse, with what it returns.
abbrev applied {ℓ} : {A : Type ℓ} → Session → Option (A × Db) → Result A × Session
applied s none = (err sql_error, s)
applied s (some (a, d)) = (ok a, record s { work = d })

unfoldable pub execute_checked {ℓ} : {A : Type ℓ} → (Db → Option (A × Db)) → M A
execute_checked f e = attempt sql_error λ s. applied s (f s.work)

-- A statement on the pool: it is committed at once, and an open transaction sees it too.
unfoldable pub pool_execute {ℓ} : {A : Type ℓ} → (Db → A × Db) → M A
pool_execute f e =
    attempt sql_error
      λ s. (ok (f s.store).0, record s { store = (f s.store).1; work = (f s.work).1 })

unfoldable pub pool_fetch {ℓ} : {A : Type ℓ} → (Db → A) → M A
pool_fetch q e = attempt sql_error λ s. (ok (q s.store), s)

-- A statement on the pool that the server can refuse.
abbrev pool_applied {ℓ} :
    {A : Type ℓ} → Session → Option (A × Db) → Option (A × Db) → Result A × Session
pool_applied s (some (a, d)) (some (b, w)) = (ok a, record s { store = d; work = w })
pool_applied s _ _ = (err sql_error, s)

unfoldable pub pool_execute_checked {ℓ} : {A : Type ℓ} → (Db → Option (A × Db)) → M A
pool_execute_checked f e = attempt sql_error λ s. pool_applied s (f s.store) (f s.work)

-- To unfold `effects` is to unfold every effect.
unfoldable pub effects : Unit {0}
unfolding ◌>>=◌ pure raise ask guard now_v7 begin commit commit_or_panic rollback try_rollback
    fetch_one fetch execute execute_checked pool_execute pool_fetch pool_execute_checked
effects = tt
