-- ===== src/Sql/Hoare.antt =====
-- Triples: what a method keeps of the committed tables, from what holds in its transaction before it
-- to what holds there after its value.
use taskturbine.Base.{◌≡◌, Bool, true, false, Option, none, some, if◌then◌else◌, arith}
use taskturbine.Sql.Session.{
  Db, Env, Session, Result, ok, err, panic, StorageError, M, ◌>>=◌, and_then, pure, raise, ask,
  guard, now_v7, begin, commit, fetch_one, fetch, execute, execute_checked, rollback, try_rollback,
  ◌>>◌, effects,
}
use taskturbine.Sql.Keeps.{Keeps, Writes}

-- A property of the value and the transaction's tables, where there is a value.
abbrev pub Yields {ℓ} : {A : Type ℓ} → (A → Db → Type 0) → Result A × Session → Type 0
Yields Q (ok a, s) = Q a s.work
Yields Q (err x, s) = Unit
Yields Q (panic, s) = Unit

-- `S` of the committed tables is kept on every way through the method; `P` of the transaction's
-- tables before it leads to `Q` of its value and the tables after it.
pub record Triple {ℓ} {A : Type ℓ} (S : Db → Type 0) (P : Db → Type 0) (m : M A)
    (Q : A → Db → Type 0) : Type ℓ where
  pub at : (e : Env) (s : Session) → S s.store → P s.work → S (m e s).1.store × Yields Q (m e s)

abbrev pub Checked {ℓ} : {A : Type ℓ} → (A → Db → Type 0) → Option (A × Db) → Type 0
Checked Q none = Unit
Checked Q (some (a, d)) = Q a d

module _ {ℓ} {A : Type ℓ} {S P : Db → Type 0} where
  pub pure-Triple : {Q : A → Db → Type 0} (a : A) → ((w : Db) → P w → Q a w) → Triple S P (pure a) Q
  unfolding effects
  pure-Triple a k = record { at = λ e s c h. (c, k s.work h) }

  pub raise-Triple : {Q : A → Db → Type 0} (x : StorageError) → Triple S P (raise x) Q
  unfolding effects
  raise-Triple x = record { at = λ e s c h. (c, tt) }

  pub fetch-Triple : (q : Db → A) → Triple S P (fetch q) (λ a w. P w)
  unfolding effects
  fetch-Triple q = record { at = λ e s c h. ground arith }

  pub execute_checked-Triple :
      {Q : A → Db → Type 0} (f : Db → Option (A × Db))
      → ((w : Db) → P w → Checked Q (f w))
      → Triple S P (execute_checked f) Q
  unfolding effects
  execute_checked-Triple f k = record { at = λ e s c h. ground (arith, k s.work h) }

Writes-Checked {ℓ} :
    {A : Type ℓ} (P : Db → Type 0) (o : Option (A × Db)) → Writes P o → Checked (λ a. P) o
Writes-Checked P none h = tt
Writes-Checked P (some (a, d)) h = h

module _ {ℓ} {A : Type ℓ} {S P : Db → Type 0} where
  -- A statement that a constraint can refuse, and that keeps what holds before it.
  pub writes-Triple :
      (f : Db → Option (A × Db))
      → ((w : Db) → P w → Writes P (f w))
      → Triple S P (execute_checked f) (λ a. P)
  writes-Triple f k = execute_checked-Triple f λ w h. Writes-Checked P (f w) (k w h)

  pub inserts-Triple :
      {R : Db → Type 0} (f : Db → Option (A × Db))
      → ((w : Db) → P w → Writes R (f w))
      → Triple S P (execute_checked f) (λ a. R)
  inserts-Triple {R = R} f k = execute_checked-Triple f λ w h. Writes-Checked R (f w) (k w h)

  pub if-Triple :
      {Q : A → Db → Type 0} (b : Bool) (m n : M A)
      → Triple S P m Q
      → Triple S P n Q
      → Triple S P (if b then m else n) Q
  if-Triple true m n hm hn = hm
  if-Triple false m n hm hn = hn

module _ {A : Type 0} {S P : Db → Type 0} where
  -- The row that is found is known to be the one in the tables.
  pub fetch_one-Triple :
      (x : StorageError) (q : Db → Option A)
      → Triple S P (fetch_one x q) (λ a w. P w × (q w ≡ some a))
  unfolding effects
  fetch_one-Triple x q = record { at = λ e s c h. ground arith }

module _ {S P : Db → Type 0} where
  pub ask-Triple : Triple S P ask (λ e w. P w)
  unfolding effects
  ask-Triple = record { at = λ e s c h. (c, h) }

  pub now_v7-Triple : Triple S P now_v7 (λ id w. P w)
  unfolding effects
  now_v7-Triple = record { at = λ e s c h. (c, h) }

  -- What is tested is known afterwards.
  pub guard-Triple :
      (b : Bool) (x : StorageError) → Triple S P (guard b x) (λ u w. P w × (b ≡ true))
  unfolding effects
  guard-Triple b x = record { at = λ e s c h. ground arith }

  -- What is tested is known after a test whose failure rolls back.
  pub rollback-raise-Triple :
      {Q : Db → Type 0} (x : StorageError) → Triple S P (rollback >> raise x) (λ (u : Unit {0}). Q)
  unfolding effects
  rollback-raise-Triple x = record { at = λ e s c h. ground arith }

  pub try_rollback-raise-Triple :
      {Q : Db → Type 0} (x : StorageError)
      → Triple S P (try_rollback >> raise x) (λ (u : Unit {0}). Q)
  unfolding effects
  try_rollback-raise-Triple x = record { at = λ e s c h. ground arith }

  -- The transaction starts from the committed tables.
  pub begin-Triple : Triple S P begin (λ u. S)
  unfolding effects
  begin-Triple = record { at = λ e s c h. ground arith }

  -- What is committed must be fit for it.
  pub commit-Triple : ((w : Db) → P w → S w) → Triple S P commit (λ u. P)
  unfolding effects
  commit-Triple k = record { at = λ e s c h. ground (arith, k s.work h) }

  pub execute-Triple :
      {Q : Db → Type 0} (f : Db → Db) → ((w : Db) → P w → Q (f w)) → Triple S P (execute f) (λ u. Q)
  unfolding effects
  execute-Triple f k = record { at = λ e s c h. ground (arith, k s.work h) }

module _ {ℓ κ} {A : Type ℓ} {B : Type κ} {S P : Db → Type 0} where
  pub bind-Triple :
      {Q : A → Db → Type 0} {R : B → Db → Type 0} (m : M A) (f : A → M B)
      → Triple S P m Q
      → ((a : A) → Triple S (Q a) (f a) R)
      → Triple S P (m >>= f) R
  unfolding effects
  bind-Triple {Q = Q} {R = R} m f hm hf = record {
    at = λ e s c h. next e (m e s).0 (m e s).1 (hm.at e s c h).0 (hm.at e s c h).1;
  }
    where
      next :
          (e : Env) (r : Result A) (s : Session)
          → S s.store
          → Yields Q (r, s)
          → S (and_then r s (λ a t. f a e t)).1.store × Yields R (and_then r s (λ a t. f a e t))
      next e (ok a) s c h = (hf a).at e s c h
      next e (err x) s c h = (c, tt)
      next e panic s c h = (c, tt)

module _ {ℓ} {A : Type ℓ} {S : Db → Type 0} where
  -- A method that keeps `S` on what is committed and in the transaction.
  pub Keeps-Triple : (m : M A) → Keeps S m → Triple S S m (λ a. S)
  Keeps-Triple m h = record {
    at = λ e s c w. ((h.at e s (c, w)).0, yields (m e s) (h.at e s (c, w)).1);
  }
    where
      yields : (p : Result A × Session) → S p.1.work → Yields (λ a. S) p
      yields (ok a, s) w = w
      yields (err x, s) w = tt
      yields (panic, s) w = tt

-- The rules of consequence.
module _ {ℓ} {A : Type ℓ} {S P : Db → Type 0} where
  pub weaken-Triple :
      {Q R : A → Db → Type 0} (m : M A)
      → ((a : A) (w : Db) → Q a w → R a w)
      → Triple S P m Q
      → Triple S P m R
  weaken-Triple {Q = Q} {R = R} m k t = record {
    at = λ e s c h. ((t.at e s c h).0, weaken (m e s) (t.at e s c h).1);
  }
    where
      weaken : (p : Result A × Session) → Yields Q p → Yields R p
      weaken (ok a, s) h = k a s.work h
      weaken (err x, s) h = tt
      weaken (panic, s) h = tt

  pub strengthen-Triple :
      {R : Db → Type 0} {Q : A → Db → Type 0} (m : M A)
      → ((w : Db) → R w → P w)
      → Triple S P m Q
      → Triple S R m Q
  strengthen-Triple m k t = record { at = λ e s c h. t.at e s c (k s.work h) }

  -- What holds of no tables in particular is known to the method.
  pub fact-Triple :
      {K : Type 0} {Q : A → Db → Type 0} (m : M A)
      → ((w : Db) → P w → K)
      → (K → Triple S P m Q)
      → Triple S P m Q
  fact-Triple m f k = record { at = λ e s c h. (k (f s.work h)).at e s c h }
