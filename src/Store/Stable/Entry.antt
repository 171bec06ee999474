-- ===== src/Store/Stable/Entry.antt =====
-- Stable outlast `maintain` and every call of a tool.
use tekes_memory.Prelude.{if-elim, refl, Bool, true, false, String, List, Option, none, some}
use tekes_memory.Json.{Value}
use tekes_memory.Common.{Result, ok, err}
use tekes_memory.Store.Tables.{Db, OperationRow, ReceiptRow}
use tekes_memory.Store.Exec.{Settings, State, Exec, settle, execute}
use tekes_memory.Store.Keeps.{
  Keeps, Keeps-execute, Keeps-bind, Keeps-pure, Keeps-settle, keeps_rules,
}
use tekes_memory.Store.Reads.{operation_status-Keeps, read_tool-Keeps}
use tekes_memory.Store.Maintain.{
  Task, bump, bump_if, expire_record, expire_one, reconcile_scope, expire_and_choose, complete_task,
  run_task, fail_task, task_end, maintain_end, maintain_round, checkpoint, maintain,
}
use tekes_memory.Store.Call.{
  replay_result, write_tool, add_operation, perform, operate_on, operate, receipt_or, with_receipt,
  write_body, call_with_effect,
}
use tekes_memory.Store.Stable.{
  Framed, Stable, Keeps-frame, save-Keeps, correct-Keeps, reconcile-Keeps,
}
use tekes_memory.Store.Stable.Erasure.{erase_derived-Keeps, forget-Keeps, observe-Keeps}

module _ {P : Db → Type 0} (framed : Framed P) where
  abbrev Kept {ℓ} : {A : Type ℓ} → Exec A → Type ℓ
  Kept m = Keeps P m

  bump-Keeps : Kept bump
  unfolding bump
  bump-Keeps = Keeps-frame framed _ (λ db. refl) (λ db. refl) (λ db. refl)

  expire_record-Keeps : (id : String) (db : Db) → P db → P (expire_record id db)
  unfolding expire_record
  expire_record-Keeps id db = framed.frame db _ refl refl refl

  expire_one-Keeps : (st : Settings) (r : Value) (l : List String) → Kept (expire_one st r l)
  unfolding expire_one
  expire_one-Keeps st r l = search (keeps_rules, Keeps-execute, expire_record-Keeps) depth 10

  reconcile_scope-Keeps : (st : Settings) (s : String) → Kept (reconcile_scope st s)
  unfolding reconcile_scope
  reconcile_scope-Keeps st s = search (keeps_rules, reconcile-Keeps framed)

  expire_and_choose-Keeps : (st : Settings) → Kept (expire_and_choose st)
  unfolding expire_and_choose
  expire_and_choose-Keeps st =
      search (keeps_rules, expire_one-Keeps, reconcile_scope-Keeps) depth 10

  complete_task-Keeps : (r id : String) (db : Db) → P db → P (complete_task r id db)
  unfolding complete_task
  complete_task-Keeps r id db = framed.frame db _ refl refl refl

  run_task-Keeps : (st : Settings) (t : Task) → Kept (run_task st t)
  unfolding run_task
  run_task-Keeps st t =
      search
        (
          keeps_rules,
          Keeps-execute,
          erase_derived-Keeps framed,
          save-Keeps framed,
          complete_task-Keeps,
        )
        depth 20

  bump_if-Keeps : (changed job : Bool) → Kept (bump_if changed job)
  unfolding bump_if
  bump_if-Keeps changed job = search (keeps_rules, bump-Keeps)

  bump_end-Keeps :
      (st : Settings) (before : Db) (changed job : Bool) (s : State)
      → P before
      → P s.db
      → P (settle st before (bump_if changed job s)).1.db
  bump_end-Keeps st before changed job s hb hs =
      let (r, s') = bump_if changed job s in
      Keeps-settle P st before r s' hb ((bump_if-Keeps changed job).at s hs)

  task_end-Keeps :
      (st : Settings) (before : Db) (t : Task) (r : Result Bool) (s : State)
      → P before
      → P s.db
      → P (task_end st before t (r, s)).1.db
  unfolding task_end fail_task
  task_end-Keeps st before t (err e) s hb hs = framed.frame before _ refl refl refl hb
  task_end-Keeps st before t (ok more) s hb hs = bump_end-Keeps st before more true s hb hs

  maintain_end-Keeps :
      (st : Settings) (before : Db) (r : Result (Bool × Option Task)) (s : State)
      → P before
      → P s.db
      → P (maintain_end st before (r, s)).1.db
  unfolding maintain_end
  maintain_end-Keeps st before (err e) s hb hs = hb
  maintain_end-Keeps st before (ok (expired, none)) s hb hs =
      bump_end-Keeps st before expired false s hb hs
  maintain_end-Keeps st before (ok (expired, some t)) s hb hs =
      let (r, s') = run_task st t s in
      task_end-Keeps st before t r s' hb ((run_task-Keeps st t).at s hs)

  maintain_round-Keeps : (st : Settings) → Kept (maintain_round st)
  unfolding maintain_round
  maintain_round-Keeps st = record {
    at = λ s h.
        let (r, s') = expire_and_choose st s in
        maintain_end-Keeps st s.db r s' h ((expire_and_choose-Keeps st).at s h);
  }

  checkpoint-Keeps :
      (st : Settings) (r : Result Bool) (s : State) → P s.db → P (checkpoint st (r, s)).1.db
  unfolding checkpoint
  checkpoint-Keeps st (err e) s h = h
  checkpoint-Keeps st (ok job) s h =
      if-elim (λ (x : Result Bool × State). P x.1.db) st.checkpoint_fails _ _ (λ t. h) (λ t. h)

  pub maintain-Keeps : (st : Settings) → Kept (maintain st)
  unfolding maintain
  maintain-Keeps st = record {
    at = λ s h.
        let (r, s') = maintain_round st s in
        checkpoint-Keeps st r s' ((maintain_round-Keeps st).at s h);
  }

  pub write_tool-Keeps : (st : Settings) (name : String) (a : Value) → Kept (write_tool st name a)
  unfolding write_tool
  write_tool-Keeps st name a =
      search
        (
          keeps_rules,
          save-Keeps framed,
          correct-Keeps framed,
          forget-Keeps framed,
          observe-Keeps framed,
        )
        depth 10

module _ {P : Db → Type 0} (framed : Framed P)
    (operation : (o : OperationRow) (db : Db) → P db → P (add_operation o db)) where
  abbrev Writes {ℓ} : {A : Type ℓ} → Exec A → Type ℓ
  Writes m = Keeps P m

  operation-Keeps : (o : OperationRow) → Writes (execute (add_operation o))
  operation-Keeps o = Keeps-execute _ (operation o)

  perform-Keeps :
      (st : Settings) (p : Value) (name : String) (a : Value) (sc dg : String)
      → Writes (perform st p name a sc dg)
  unfolding perform
  perform-Keeps st p name a sc dg =
      search (keeps_rules, operation-Keeps, write_tool-Keeps framed, Keeps-frame framed) depth 20

  operate_on-Keeps :
      (st : Settings) (p : Value) (name : String) (a : Value) (sc dg : String)
      (o : Option OperationRow)
      → Writes (operate_on st p name a sc dg o)
  unfolding operate_on replay_result
  operate_on-Keeps st p name a sc dg none = perform-Keeps st p name a sc dg
  operate_on-Keeps st p name a sc dg (some o) = search keeps_rules

  pub operate-Keeps :
      (st : Settings) (p : Value) (name : String) (a : Value) (sc dg : String)
      → Writes (operate st p name a sc dg)
  unfolding operate
  operate-Keeps st p name a sc dg = search (keeps_rules, operate_on-Keeps) depth 10

module _ {P : Db → Type 0} (stable : Stable P) where
  abbrev Lasts {ℓ} : {A : Type ℓ} → Exec A → Type ℓ
  Lasts m = Keeps P m

  receipt_or-Keeps :
      (st : Settings) (pr k sc dg : String) (body : Exec Value) (o : Option ReceiptRow)
      → Lasts body
      → Lasts (receipt_or st pr k sc dg body o)
  unfolding receipt_or replay_result
  receipt_or-Keeps st pr k sc dg body none kb =
      Keeps-bind _ _ kb
        (λ r. Keeps-bind _ _ (Keeps-execute _ (stable.receipt _)) (λ _. Keeps-pure r))
  receipt_or-Keeps st pr k sc dg body (some o) kb = search keeps_rules

  write_body-Keeps :
      (st : Settings) (p : Value) (name : String) (a : Value) (k : Option String)
      → Lasts (write_body st p name a k)
  unfolding write_body with_receipt
  write_body-Keeps st p name a none = operate-Keeps stable.framed stable.operation st p name a _ _
  write_body-Keeps st p name a (some k) =
      search (keeps_rules, receipt_or-Keeps, operate-Keeps stable.framed stable.operation) depth 10

  pub call-Keeps :
      (st : Settings) (p : Value) (name : String) (a : Value) (k : Option String)
      → Lasts (call_with_effect st p name a k)
  unfolding call_with_effect
  call-Keeps st p name a k =
      search (keeps_rules, operation_status-Keeps, read_tool-Keeps, write_body-Keeps) depth 30
