-- ===== src/Store/Exec.antt =====
-- Store operations: they read and change the database, draw identifiers, and may fail.
use tekes_memory.Prelude.{ℕ, suc, ℤ, Bool, String, List, [], ◌∷◌, if◌then◌else◌}
use tekes_memory.Common.{Env, Error, Result, ok, err, storage_error}
use tekes_memory.Store.Tables.{Db}

-- `Store`: the clock is read as one value throughout an operation.
pub record Settings : Type 0 where
  pub env : Env
  pub episode_days : ℤ
  pub clock : ℤ
  -- whether SQLite refuses the `COMMIT` of the operation
  pub commit_fails : Bool
  -- whether SQLite refuses to write the journal back, at the end of `maintain`
  pub checkpoint_fails : Bool

-- The database, and the number of identifiers drawn so far, which a rollback does not take back.
pub record State : Type 0 where
  pub db : Db
  pub draws : ℕ

abbrev pub Exec {ℓ} : Type ℓ → Type ℓ
Exec A = State → Result A × State

module _ {ℓ} {A : Type ℓ} where
  unfoldable pub pure : A → Exec A
  pure a s = (ok a, s)

  unfoldable pub fail : Error → Exec A
  fail e s = (err e, s)

  unfoldable pub lift : Result A → Exec A
  lift r s = (r, s)

  -- A query.
  unfoldable pub query : (Db → A) → Exec A
  query f s = (ok (f s.db), s)

-- A statement that changes tables.
unfoldable pub execute : (Db → Db) → Exec (Unit {0})
execute f s = (ok tt, record s { db = f s.db })

-- `uid()`
unfoldable pub draw : Env → Exec String
draw env s = (ok (env.uid s.draws), record s { draws = suc s.draws })

abbrev pub continue {ℓ κ} :
    {A : Type ℓ} {B : Type κ} → Result A → (A → Exec B) → State → Result B × State
continue (ok a) f s = f a s
continue (err e) f s = (err e, s)

infixl 5 ◌>>=◌ ◌>>◌
-- To unfold this is to unfold the actions above.
unfoldable pub ◌>>=◌ {ℓ κ} : {A : Type ℓ} {B : Type κ} → Exec A → (A → Exec B) → Exec B
unfolding pure fail lift query execute draw
◌>>=◌ m f s = let (r, s') = m s in continue r f s'

abbrev pub ◌>>◌ {ℓ} : {B : Type ℓ} → Exec (Unit {0}) → Exec B → Exec B
m >> k = m >>= λ _. k

-- The end of a transaction that began at `before`: a failure, of the body or of the `COMMIT` itself,
-- leaves the database as it was.
unfoldable pub settle {ℓ} : {A : Type ℓ} → Settings → Db → Result A × State → Result A × State
settle st before (ok a, s) =
    if st.commit_fails then (err storage_error, record s { db = before }) else (ok a, s)
settle st before (err e, s) = (err e, record s { db = before })

-- `BEGIN IMMEDIATE`, the body, and `commit` or `ROLLBACK`.
unfoldable pub transaction {ℓ} : {A : Type ℓ} → Settings → Exec A → Exec A
unfolding settle
transaction st m s = settle st s.db (m s)

-- A loop over a list whose rounds may fail.
unfoldable pub for_each {ℓ} : {A : Type ℓ} → List A → (A → Exec (Unit {0})) → Exec (Unit {0})
for_each [] f = pure tt
for_each (a ∷ l) f = f a >> for_each l f

-- A loop over a list that carries a value.
unfoldable pub fold_each {ℓ} : {A B : Type ℓ} → List A → B → (A → B → Exec B) → Exec B
fold_each [] b f = pure b
fold_each (a ∷ l) b f = f a b >>= λ b'. fold_each l b' f
