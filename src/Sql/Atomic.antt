-- ===== src/Sql/Atomic.antt =====
-- Transactions: what a method that fails has committed.
use taskturbine.Base.{
  ◌≡◌, refl, ◌∙◌, Bool, true, false, ◌⊎◌, inl, inr, Option, if◌then◌else◌, arith,
}
use taskturbine.Sql.Session.{
  Db, Env, Session, Result, ok, err, panic, StorageError, M, ◌>>=◌, ◌>>◌, and_then, pure, raise,
  ask, guard, now_v7, begin, commit, commit_or_panic, rollback, try_rollback, fetch_one, fetch,
  execute, execute_checked, effects,
}

-- The method commits nothing, whatever it returns.
pub record Uncommitted {ℓ} {A : Type ℓ} (m : M A) : Type ℓ where
  pub keeps : (e : Env) (s : Session) → (m e s).1.store ≡ s.store

abbrev pub Succeeds {ℓ} : {A : Type ℓ} → Result A → Type 0
Succeeds (ok a) = Unit
Succeeds _ = ⊥

-- The method commits all of its work and succeeds, or commits nothing.
pub record IsAtomic {ℓ} {A : Type ℓ} (m : M A) : Type ℓ where
  pub all_or_nothing : (e : Env) (s : Session) → Succeeds (m e s).0 ⊎ ((m e s).1.store ≡ s.store)

module _ {ℓ} {A : Type ℓ} where
  pub pure-Uncommitted : (a : A) → Uncommitted (pure a)
  unfolding effects
  pure-Uncommitted a = record { keeps = λ e s. refl }

  pub raise-Uncommitted : (x : StorageError) → Uncommitted (raise {A = A} x)
  unfolding effects
  raise-Uncommitted x = record { keeps = λ e s. refl }

  pub fetch_one-Uncommitted : (x : StorageError) (q : Db → Option A) → Uncommitted (fetch_one x q)
  unfolding effects
  fetch_one-Uncommitted x q = record { keeps = λ e s. ground arith }

  pub fetch-Uncommitted : (q : Db → A) → Uncommitted (fetch q)
  unfolding effects
  fetch-Uncommitted q = record { keeps = λ e s. ground arith }

  pub execute_checked-Uncommitted : (f : Db → Option (A × Db)) → Uncommitted (execute_checked f)
  unfolding effects
  execute_checked-Uncommitted f = record { keeps = λ e s. ground arith }

  pub if-Uncommitted :
      (b : Bool) (m n : M A) → Uncommitted m → Uncommitted n → Uncommitted (if b then m else n)
  if-Uncommitted true m n hm hn = hm
  if-Uncommitted false m n hm hn = hn

  pub Uncommitted-IsAtomic : (m : M A) → Uncommitted m → IsAtomic m
  Uncommitted-IsAtomic m h = record { all_or_nothing = λ e s. inr (h.keeps e s) }

  pub commit_then : (a : A) → IsAtomic (commit >> pure a)
  unfolding effects
  commit_then a = record { all_or_nothing = λ e s. ground arith }

  pub commit_or_panic_then : (a : A) → IsAtomic (commit_or_panic >> pure a)
  unfolding effects
  commit_or_panic_then a = record { all_or_nothing = λ e s. ground arith }

pub ask-Uncommitted : Uncommitted ask
unfolding effects
ask-Uncommitted = record { keeps = λ e s. refl }

pub now_v7-Uncommitted : Uncommitted now_v7
unfolding effects
now_v7-Uncommitted = record { keeps = λ e s. refl }

pub guard-Uncommitted : (b : Bool) (x : StorageError) → Uncommitted (guard b x)
unfolding effects
guard-Uncommitted b x = record { keeps = λ e s. ground arith }

pub begin-Uncommitted : Uncommitted begin
unfolding effects
begin-Uncommitted = record { keeps = λ e s. ground arith }

pub rollback-Uncommitted : Uncommitted rollback
unfolding effects
rollback-Uncommitted = record { keeps = λ e s. ground arith }

pub try_rollback-Uncommitted : Uncommitted try_rollback
unfolding effects
try_rollback-Uncommitted = record { keeps = λ e s. ground arith }

pub execute-Uncommitted : (f : Db → Db) → Uncommitted (execute f)
unfolding effects
execute-Uncommitted f = record { keeps = λ e s. ground arith }

pub commit-IsAtomic : IsAtomic commit
unfolding effects
commit-IsAtomic = record { all_or_nothing = λ e s. ground arith }

module _ {ℓ κ} {A : Type ℓ} {B : Type κ} where
  pub bind-Uncommitted :
      (m : M A) (f : A → M B)
      → Uncommitted m
      → ((a : A) → Uncommitted (f a))
      → Uncommitted (m >>= f)
  unfolding effects
  bind-Uncommitted m f hm hf = record { keeps = λ e s. kept e s (m e s).0 (m e s).1 (hm.keeps e s) }
    where
      kept :
          (e : Env) (s : Session) (r : Result A) (s' : Session)
          → s'.store ≡ s.store
          → (and_then r s' (λ a t. f a e t)).1.store ≡ s.store
      kept e s (ok a) s' h = (hf a).keeps e s' ∙ h
      kept e s (err x) s' h = h
      kept e s panic s' h = h

  -- A transaction: what comes before its last, atomic part commits nothing.
  pub bind-IsAtomic :
      (m : M A) (f : A → M B) → Uncommitted m → ((a : A) → IsAtomic (f a)) → IsAtomic (m >>= f)
  unfolding effects
  bind-IsAtomic m f hm hf = record {
    all_or_nothing = λ e s. kept e s (m e s).0 (m e s).1 (hm.keeps e s);
  }
    where
      kept :
          (e : Env) (s : Session) (r : Result A) (s' : Session)
          → s'.store ≡ s.store
          → Succeeds (and_then r s' (λ a t. f a e t)).0
            ⊎ ((and_then r s' (λ a t. f a e t)).1.store ≡ s.store)
      kept e s (ok a) s' h = after_ok ((hf a).all_or_nothing e s')
        where
          after_ok :
              Succeeds (f a e s').0 ⊎ ((f a e s').1.store ≡ s'.store)
              → Succeeds (f a e s').0 ⊎ ((f a e s').1.store ≡ s.store)
          after_ok (inl done) = inl done
          after_ok (inr same) = inr (same ∙ h)
      kept e s (err x) s' h = inr h
      kept e s panic s' h = inr h

pub ruleset uncommitted_rules = (
  pure-Uncommitted, raise-Uncommitted, fetch_one-Uncommitted, fetch-Uncommitted,
  execute_checked-Uncommitted, if-Uncommitted, ask-Uncommitted, now_v7-Uncommitted,
  guard-Uncommitted, begin-Uncommitted, rollback-Uncommitted, try_rollback-Uncommitted,
  execute-Uncommitted, bind-Uncommitted,
)

pub ruleset atomic_rules =
    (uncommitted_rules, commit_then, commit_or_panic_then, commit-IsAtomic, bind-IsAtomic)
