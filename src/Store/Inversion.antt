-- ===== src/Store/Inversion.antt =====
-- Successful runs of store operations, taken apart and put together.
use tekes_memory.Prelude.{◌≡◌, refl, ap, false, arith}
use tekes_memory.Common.{Error, Result, ok, err}
use tekes_memory.Store.Tables.{Db}
use tekes_memory.Store.Exec.{
  Settings, State, Exec, pure, lift, ◌>>=◌, continue, settle, transaction,
}

module _ {ℓ κ} {A : Type ℓ} {B : Type κ} where
  continue_ok :
      (r : Result A) (s1 : State) (f : A → Exec B) {b : B} {s' : State}
      → continue r f s1 ≡ (ok b, s')
      → (a : A) × (r ≡ ok a) × (f a s1 ≡ (ok b, s'))
  continue_ok (ok a) s1 f h = (a, refl, h)
  continue_ok (err e) s1 f h = cc

  -- A bind that succeeds: both parts do.
  pub bind_ok :
      (m : Exec A) (f : A → Exec B) (s : State) {b : B} {s' : State}
      → (m >>= f) s ≡ (ok b, s')
      → (a : A) × (s1 : State) × (m s ≡ (ok a, s1)) × (f a s1 ≡ (ok b, s'))
  unfolding ◌>>=◌
  bind_ok m f s h =
      let (r, s1) = m s in
      let i = continue_ok r s1 f h in (i.0, s1, ap (λ (x : Result A). (x, s1)) i.1, i.2)

  pub bind_of_ok :
      (m : Exec A) (f : A → Exec B) (s s1 : State) (a : A) → m s ≡ (ok a, s1) → (m >>= f) s ≡ f a s1
  unfolding ◌>>=◌
  bind_of_ok m f s s1 a h = rw h refl

  pub bind_of_err :
      (m : Exec A) (f : A → Exec B) (s s1 : State) (e : Error)
      → m s ≡ (err e, s1)
      → (m >>= f) s ≡ (err e, s1)
  unfolding ◌>>=◌
  bind_of_err m f s s1 e h = rw h refl

  -- A check that succeeds leaves the state alone.
  pub lift_bind_ok :
      (r : Result A) (f : A → Exec B) (s : State) {b : B} {s' : State}
      → (lift r >>= f) s ≡ (ok b, s')
      → (a : A) × (r ≡ ok a) × (f a s ≡ (ok b, s'))
  unfolding ◌>>=◌
  lift_bind_ok r f s h = continue_ok r s f h

  pub lift_bind :
      (r : Result A) (f : A → Exec B) (s : State) (a : A) → r ≡ ok a → (lift r >>= f) s ≡ f a s
  unfolding ◌>>=◌
  lift_bind r f s a h = rw h refl

module _ {ℓ} {A : Type ℓ} where
  pub lift_ok :
      (r : Result A) (s : State) {a : A} {s' : State}
      → lift r s ≡ (ok a, s')
      → (r ≡ ok a) × (s' ≡ s)
  unfolding lift
  lift_ok r s h = (ground arith, ground arith)

  pub pure_ok : (x : A) (s : State) {a : A} {s' : State} → pure x s ≡ (ok a, s') → a ≡ x
  unfolding pure
  pure_ok x s h = ground arith

  settle_ok :
      (st : Settings) (before : Db) (r : Result A) (s1 : State) {a : A} {s' : State}
      → settle st before (r, s1) ≡ (ok a, s')
      → (st.commit_fails ≡ false) × (r ≡ ok a) × (s1 ≡ s')
  unfolding settle
  settle_ok st before (ok x) s1 h = (ground arith, ground arith, ground arith)
  settle_ok st before (err e) s1 h = cc

  -- A transaction that succeeds: its body does, and the commit.
  pub transaction_ok :
      (st : Settings) (m : Exec A) (s : State) {a : A} {s' : State}
      → transaction st m s ≡ (ok a, s')
      → (st.commit_fails ≡ false) × (m s ≡ (ok a, s'))
  unfolding transaction
  transaction_ok st m s h =
      let (r, s1) = m s in let i = settle_ok st s.db r s1 h in (i.0, λ j. (i.1 j, i.2 j))

  pub transaction_of_ok :
      (st : Settings) (m : Exec A) (s s' : State) (a : A)
      → st.commit_fails ≡ false
      → m s ≡ (ok a, s')
      → transaction st m s ≡ (ok a, s')
  unfolding transaction settle
  transaction_of_ok st m s s' a c h = rw h (rw (c, settle) refl)

  pub settle_err :
      (st : Settings) (before : Db) (r : Result A) (s1 : State) {e : Error} {s' : State}
      → settle st before (r, s1) ≡ (err e, s')
      → s'.db ≡ before
  unfolding settle
  settle_err st before (ok x) s1 h = ground arith
  settle_err st before (err e) s1 h = ground arith

  -- A transaction that fails, in its body or at its commit, has changed nothing.
  pub transaction_err :
      (st : Settings) (m : Exec A) (s : State) {e : Error} {s' : State}
      → transaction st m s ≡ (err e, s')
      → s'.db ≡ s.db
  unfolding transaction
  transaction_err st m s h = let (r, s1) = m s in settle_err st s.db r s1 h

  -- A body that fails at once leaves the whole state alone.
  pub transaction_of_err :
      (st : Settings) (m : Exec A) (s : State) (e : Error)
      → m s ≡ (err e, s)
      → transaction st m s ≡ (err e, s)
  unfolding transaction settle
  transaction_of_err st m s e h = rw h refl
