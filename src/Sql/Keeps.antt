-- ===== src/Sql/Keeps.antt =====
-- Invariants of the tables: what every method keeps, on what is committed and in its transaction.
use taskturbine.Base.{Bool, true, false, Option, none, some, if◌then◌else◌, arith}
use taskturbine.Sql.Session.{
  Db, Env, Session, Result, ok, err, panic, StorageError, M, ◌>>=◌, and_then, pure, raise, ask,
  guard, now_v7, begin, commit, commit_or_panic, rollback, try_rollback, fetch_one, fetch, execute,
  execute_checked, pool_execute, pool_fetch, pool_execute_checked, effects,
}

abbrev pub Both : (Db → Type 0) → Session → Type 0
Both P s = P s.store × P s.work

-- The method keeps `P`, whether it succeeds, fails or panics, and whichever statements fail.
pub record Keeps {ℓ} {A : Type ℓ} (P : Db → Type 0) (m : M A) : Type ℓ where
  pub at : (e : Env) (s : Session) → Both P s → Both P (m e s).1

-- What a constraint-checked statement writes.
abbrev pub Writes {ℓ} : {A : Type ℓ} → (Db → Type 0) → Option (A × Db) → Type 0
Writes P none = Unit
Writes P (some (a, d)) = P d

module _ {ℓ} {A : Type ℓ} {P : Db → Type 0} where
  pub pure-Keeps : (a : A) → Keeps P (pure a)
  unfolding effects
  pure-Keeps a = record { at = λ e s h. h }

  pub raise-Keeps : (x : StorageError) → Keeps P (raise {A = A} x)
  unfolding effects
  raise-Keeps x = record { at = λ e s h. h }

  pub fetch_one-Keeps : (x : StorageError) (q : Db → Option A) → Keeps P (fetch_one x q)
  unfolding effects
  fetch_one-Keeps x q = record { at = λ e s h. ground arith }

  pub fetch-Keeps : (q : Db → A) → Keeps P (fetch q)
  unfolding effects
  fetch-Keeps q = record { at = λ e s h. ground arith }

  pub pool_fetch-Keeps : (q : Db → A) → Keeps P (pool_fetch q)
  unfolding effects
  pool_fetch-Keeps q = record { at = λ e s h. ground arith }

  pub pool_execute-Keeps :
      (f : Db → A × Db) → ((db : Db) → P db → P (f db).1) → Keeps P (pool_execute f)
  unfolding effects
  pool_execute-Keeps f k = record { at = λ e s h. ground (arith, k s.store h.0, k s.work h.1) }

  pub execute_checked-Keeps :
      (f : Db → Option (A × Db))
      → ((db : Db) → P db → Writes P (f db))
      → Keeps P (execute_checked f)
  unfolding effects
  execute_checked-Keeps f k = record { at = λ e s h. ground (arith, k s.work h.1) }

  pub pool_execute_checked-Keeps :
      (f : Db → Option (A × Db))
      → ((db : Db) → P db → Writes P (f db))
      → Keeps P (pool_execute_checked f)
  unfolding effects
  pool_execute_checked-Keeps f k = record {
    at = λ e s h. ground (arith, k s.store h.0, k s.work h.1);
  }

  pub if-Keeps : (b : Bool) (m n : M A) → Keeps P m → Keeps P n → Keeps P (if b then m else n)
  if-Keeps true m n hm hn = hm
  if-Keeps false m n hm hn = hn

module _ {P : Db → Type 0} where
  pub ask-Keeps : Keeps P ask
  unfolding effects
  ask-Keeps = record { at = λ e s h. h }

  pub now_v7-Keeps : Keeps P now_v7
  unfolding effects
  now_v7-Keeps = record { at = λ e s h. h }

  pub guard-Keeps : (b : Bool) (x : StorageError) → Keeps P (guard b x)
  unfolding effects
  guard-Keeps b x = record { at = λ e s h. ground arith }

  pub begin-Keeps : Keeps P begin
  unfolding effects
  begin-Keeps = record { at = λ e s h. ground arith }

  pub commit-Keeps : Keeps P commit
  unfolding effects
  commit-Keeps = record { at = λ e s h. ground arith }

  pub commit_or_panic-Keeps : Keeps P commit_or_panic
  unfolding effects
  commit_or_panic-Keeps = record { at = λ e s h. ground arith }

  pub rollback-Keeps : Keeps P rollback
  unfolding effects
  rollback-Keeps = record { at = λ e s h. ground arith }

  pub try_rollback-Keeps : Keeps P try_rollback
  unfolding effects
  try_rollback-Keeps = record { at = λ e s h. ground arith }

  pub execute-Keeps : (f : Db → Db) → ((db : Db) → P db → P (f db)) → Keeps P (execute f)
  unfolding effects
  execute-Keeps f k = record { at = λ e s h. ground (arith, k s.work h.1) }

module _ {ℓ κ} {A : Type ℓ} {B : Type κ} {P : Db → Type 0} where
  pub bind-Keeps :
      (m : M A) (f : A → M B) → Keeps P m → ((a : A) → Keeps P (f a)) → Keeps P (m >>= f)
  unfolding effects
  bind-Keeps m f hm hf = record { at = λ e s h. kept e (m e s).0 (m e s).1 (hm.at e s h) }
    where
      kept :
          (e : Env) (r : Result A) (s' : Session)
          → Both P s'
          → Both P (and_then r s' (λ a t. f a e t)).1
      kept e (ok a) s' h = (hf a).at e s' h
      kept e (err x) s' h = h
      kept e panic s' h = h

pub ruleset keeps_rules = (
  pure-Keeps, raise-Keeps, fetch_one-Keeps, fetch-Keeps, pool_fetch-Keeps, pool_execute-Keeps,
  execute_checked-Keeps, pool_execute_checked-Keeps, if-Keeps, ask-Keeps, now_v7-Keeps, guard-Keeps,
  begin-Keeps, commit-Keeps, commit_or_panic-Keeps, rollback-Keeps, try_rollback-Keeps,
  execute-Keeps, bind-Keeps,
)
