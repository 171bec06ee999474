-- ===== src/Store/Maintain/Atomic.antt =====
-- The transaction of `maintain` in src/store.rs.
use tekes_memory.Prelude.{
  ◌≡◌, refl, ◌⊎◌, inl, inr, sym, ap, arith, Bool, Bool-cases, true, false, Option, none, some,
}
use tekes_memory.Common.{Error, Result, ok, err, storage_error}
use tekes_memory.Store.Tables.{Db}
use tekes_memory.Store.Exec.{Settings, State}
use tekes_memory.Store.Inversion.{settle_err}
use tekes_memory.Store.Maintain.{
  Task, expire_and_choose, run_task, bump_if, task_end, maintain_end, maintain_round, checkpoint,
  maintain,
}

task_end_err :
    (st : Settings) (before : Db) (t : Task) (r : Result Bool) (s : State) {e : Error} {s' : State}
    → task_end st before t (r, s) ≡ (err e, s')
    → s'.db ≡ before
unfolding task_end
task_end_err st before t (err e) s h = absurd (cc)
task_end_err st before t (ok more) s h =
    let (r, s1) = bump_if more true s in settle_err st before r s1 h

maintain_end_err :
    (st : Settings) (before : Db) (r : Result (Bool × Option Task)) (s : State) {e : Error}
    {s' : State}
    → maintain_end st before (r, s) ≡ (err e, s')
    → s'.db ≡ before
unfolding maintain_end
maintain_end_err st before (err e) s h = ap (λ (x : Result Bool × State). x.1.db) (sym h)
maintain_end_err st before (ok (expired, none)) s h =
    let (r, s1) = bump_if expired false s in settle_err st before r s1 h
maintain_end_err st before (ok (expired, some t)) s h =
    let (r, s1) = run_task st t s in task_end_err st before t r s1 h

pair {ℓ} : {A B : Type ℓ} {a a' : A} {b b' : B} → a ≡ a' → b ≡ b' → ◌≡◌ {A = A × B} (a, b) (a', b')
pair e f = λ i. (e i, f i)

round_err :
    (st : Settings) (s s' : State) (e : Error) → maintain_round st s ≡ (err e, s') → s'.db ≡ s.db
unfolding maintain_round
round_err st s s' e h = let (r, s1) = expire_and_choose st s in maintain_end_err st s.db r s1 h

checkpoint_err :
    (st : Settings) (r : Result Bool) (s s' : State) (e : Error)
    → checkpoint st (r, s) ≡ (err e, s')
    → ((r ≡ err e) × (s ≡ s'))
      ⊎ ((e ≡ storage_error)
          × (st.checkpoint_fails ≡ true)
          × (job : Bool) × (r ≡ ok job)
          × (s ≡ s'))
unfolding checkpoint
checkpoint_err st (err x) s s' e h = inl (ground arith, ground arith)
checkpoint_err st (ok job) s s' e h = elim (Bool-cases st.checkpoint_fails) [
  | inl t ↦ inr (ground arith, t, job, refl, ground arith)
  | inr t ↦ absurd (ground arith)
]

-- A round of maintenance that returns an error has left the database as it was, or the error is
-- `storage_error` of the checkpoint after the transaction, and the state is the one that the same round
-- reaches before the checkpoint, up to which it has no error.
pub maintain_atomic :
    (st : Settings) (s s' : State) (e : Error)
    → maintain st s ≡ (err e, s')
    → (s'.db ≡ s.db)
      ⊎ ((e ≡ storage_error)
          × (st.checkpoint_fails ≡ true)
          × (job : Bool) × (maintain_round st s ≡ (ok job, s')))
unfolding maintain
maintain_atomic st s s' e h =
    let x = maintain_round st s in
    elim (checkpoint_err st x.0 x.1 s' e h) [
      | inl same ↦ inl (round_err st s s' e (pair same.0 same.1))
      | inr late ↦ inr (late.0, late.1, late.2, pair late.3 late.4)
    ]
