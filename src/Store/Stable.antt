-- ===== src/Store/Stable.antt =====
-- What no operation takes away: tombstones, stored operations and effect receipts are only added.
pub mod Erasure
pub mod Entry
use tekes_memory.Prelude.{
  ◌≡◌, refl, ◌==◌, false, if◌then◌else◌, Bool, true, false, String, List, [], ◌∷◌, ◌++◌, Option,
  none, some, arith, any, ◌==◌, ◌&&◌, ℕ, zero, suc,
}
use tekes_memory.Json.{Value}
use tekes_memory.Common.{Env, exhausted}
use tekes_memory.Store.Tables.{Db, OperationRow, ReceiptRow, ObservationRow, JobRow}
use tekes_memory.Store.Exec.{Settings, Exec, execute}
use tekes_memory.Store.Keeps.{
  Keeps, Keeps-execute, Keeps-bind, Keeps-if, Keeps-option, Keeps-pure, Keeps-query, Keeps-lift,
  Keeps-for_each, keeps_rules,
}
use tekes_memory.Store.Reads.{blocked-Keeps, status-Keeps, row-Keeps}
use tekes_memory.Store.Facts.{settle_fact, settle_groups, reconcile_keys, reconcile}
use tekes_memory.Store.Write.{save, correct}
use tekes_memory.Store.Put.{is_tombstoned, put, blocked, check_source, status}
use tekes_memory.Store.Rows.{put_dependency, put_index, row, current_status}
use tekes_memory.Store.Call.{add_operation, add_receipt}
use tekes_memory.Store.Lineage.{
  add_tombstone, add_tombstones, aliases, clear_observations, complete_jobs, clear_dependent,
  job_exists,
}

-- A property of the database that rests on those three tables alone, and that a new tombstone does
-- not break.
pub record Framed (P : Db → Type 0) : Type 0 where
  pub frame :
      (db db' : Db)
      → db'.tombstones ≡ db.tombstones
      → db'.operations ≡ db.operations
      → db'.effect_receipts ≡ db.effect_receipts
      → P db
      → P db'
  pub tombstone : (scope key : String) (db : Db) → P db → P (add_tombstone scope key db)

-- Nor does a new operation or receipt.
pub record Stable (P : Db → Type 0) : Type 0 where
  pub framed : Framed P
  pub open framed use *
  pub operation : (o : OperationRow) (db : Db) → P db → P (add_operation o db)
  pub receipt : (r : ReceiptRow) (db : Db) → P db → P (add_receipt r db)

module _ {P : Db → Type 0} (framed : Framed P) where
  -- A statement on another table.
  pub Keeps-frame :
      (f : Db → Db)
      → ((db : Db) → (f db).tombstones ≡ db.tombstones)
      → ((db : Db) → (f db).operations ≡ db.operations)
      → ((db : Db) → (f db).effect_receipts ≡ db.effect_receipts)
      → Keeps P (execute f)
  Keeps-frame f t o r = Keeps-execute f (λ db. framed.frame db (f db) (t db) (o db) (r db))

module _ {P : Db → Type 0} (framed : Framed P) where
  pub put_dependency-Keeps : (id : String) (v : Value) → Keeps P (put_dependency id v)
  put_dependency-Keeps id v =
      Keeps-option _ _ _ (Keeps-pure tt)
        (λ k. Keeps-frame framed _ (λ db. refl) (λ db. refl) (λ db. refl))

  pub put_index-Keeps : (env : Env) (id : String) (v : Value) → Keeps P (put_index env id v)
  put_index-Keeps env id v = search (keeps_rules, Keeps-frame framed) depth 10

  pub put-Keeps : (st : Settings) (r : Value) → Keeps P (put st r)
  unfolding put
  put-Keeps st r =
      search (keeps_rules, Keeps-frame framed, put_dependency-Keeps, put_index-Keeps) depth 30

  pub settle_fact-Keeps :
      (st : Settings) (g : List Value) (a : Value) → Keeps P (settle_fact st g a)
  unfolding settle_fact
  settle_fact-Keeps st g a = search (keeps_rules, put-Keeps)

  pub settle_groups-Keeps :
      (st : Settings) (gs : List (String × List Value)) → Keeps P (settle_groups st gs)
  unfolding settle_groups
  settle_groups-Keeps st [] = Keeps-pure tt
  settle_groups-Keeps st ((k, g) ∷ gs) =
      Keeps-bind _ _ (Keeps-for_each g (settle_fact st g) (settle_fact-Keeps st g))
        (λ _. settle_groups-Keeps st gs)

  pub reconcile_keys-Keeps :
      (st : Settings) (sc : Value) (ks : List String) → Keeps P (reconcile_keys st sc ks)
  unfolding reconcile_keys
  reconcile_keys-Keeps st sc ks = search (keeps_rules, settle_groups-Keeps) depth 10

  pub reconcile-Keeps : (st : Settings) (sc : Value) → Keeps P (reconcile st sc)
  unfolding reconcile
  reconcile-Keeps st sc = reconcile_keys-Keeps st sc []

  pub save-Keeps : (st : Settings) (a : Value) → Keeps P (save st a)
  unfolding save
  save-Keeps st a =
      search (keeps_rules, blocked-Keeps, put-Keeps, reconcile_keys-Keeps, status-Keeps) depth 40

  pub correct-Keeps : (st : Settings) (a : Value) → Keeps P (correct st a)
  unfolding correct
  correct-Keeps st a =
      search (keeps_rules, blocked-Keeps, put-Keeps, reconcile_keys-Keeps, status-Keeps, row-Keeps)
        depth 40

  add_tombstones-Keeps :
      (sc : String) (ks : List String) (db : Db) → P db → P (add_tombstones sc ks db)
  unfolding add_tombstones
  add_tombstones-Keeps sc [] db h = h
  add_tombstones-Keeps sc (k ∷ ks) db h = add_tombstones-Keeps sc ks _ (framed.tombstone sc k db h)

  block-Keeps :
      (b : Bool) (sc k : String) (ks : List String) (db : Db)
      → P db
      → P (if b then add_tombstone sc k (add_tombstones sc ks db) else db)
  block-Keeps true sc k ks db h = framed.tombstone sc k _ (add_tombstones-Keeps sc ks db h)
  block-Keeps false sc k ks db h = h

  clear_job-Keeps :
      (b : Bool) (id : String) (db : Db)
      → P db
      → P (if b then complete_jobs (λ (j : JobRow). j.id == id) db else db)
  unfolding complete_jobs
  clear_job-Keeps true id db h = framed.frame db _ refl refl refl h
  clear_job-Keeps false id db h = h

  pub clear_dependent-Keeps :
      (sc : String) (b : Bool) (o : ObservationRow) (v : Value) (db : Db)
      → P db
      → P (clear_dependent sc b o v db)
  unfolding clear_dependent clear_observations
  clear_dependent-Keeps sc b o v db h =
      let blocked_db =
        if b then add_tombstone sc o.source_key (add_tombstones sc (aliases v) db) else db in
      clear_job-Keeps (job_exists o.id db) o.id
        (clear_observations "deleted" (λ (x : ObservationRow). x.id == o.id) blocked_db)
        (framed.frame blocked_db _ refl refl refl (block-Keeps b sc o.source_key (aliases v) db h))
