-- ===== src/Store/Maintain.antt =====
-- `maintain` of src/store.rs: expired records go, and one waiting observation becomes a record.
pub mod Atomic
use Prim.Native.Nat.{Ordering}
use Prim.Native.String.{compare}
use tekes_memory.Prelude.{
  ℕ, suc, ℤ, pos, ◌+◌, ◌+ℤ◌, ◌^◌, lt_int, le_int, leb, Bool, true, false, not, ◌&&◌, ◌||◌, String,
  List, [], ◌∷◌, map, Option, none, some, ◌==◌, select, find_first, update_where, if◌then◌else◌,
}
use tekes_memory.Json.{Value}
use tekes_memory.Json.Access.{index}
use tekes_memory.Common.{Result, ok, err, storage_error}
use tekes_memory.Common.Access.{text, array}
use tekes_memory.Common.Authorize.{set_insert}
use tekes_memory.Store.Tables.{
  Db, RecordRow, VersionRow, IndexRow, ObservationRow, JobRow, delete_where,
}
use tekes_memory.Store.Exec.{
  Settings, State, Exec, ◌>>=◌, ◌>>◌, pure, lift, query, execute, fold_each, for_each, settle,
}
use tekes_memory.Store.Rows.{is_current, parse_doc, parse_docs}
use tekes_memory.Store.Write.{save}
use tekes_memory.Store.Facts.{reconcile}
use tekes_memory.Store.Lineage.{clear_observations}
use tekes_memory.Store.Derived.{derived_record_args}
use tekes_memory.Store.Observe.{any_tombstoned, erase_derived}

-- `bump`
unfoldable pub bump : Exec (Unit {0})
bump = execute (λ db. record db { generation = suc db.generation })

-- `expires<=?`, which a null does not satisfy
abbrev pub has_expired : Option ℤ → ℤ → Bool
has_expired none now = false
has_expired (some e) now = le_int e now

abbrev expired_docs : ℤ → Db → List String
expired_docs now db =
    map (λ (r : RecordRow). r.doc)
      (select (λ (r : RecordRow). is_current r.status && has_expired r.expires now) db.records)

abbrev made_record : String → ObservationRow → Bool
made_record id o = elim o.record_id [ none ↦ false | some r ↦ r == id ]

-- The text of an expired record goes; its identity and its sources stay.
unfoldable pub expire_record : String → Db → Db
unfolding delete_where update_where clear_observations
expire_record id db = clear_observations "expired" (made_record id) (record db {
  versions = delete_where (λ (v : VersionRow). v.id == id) db.versions;
  search_index = delete_where (λ (x : IndexRow). x.id == id) db.search_index;
  records =
      update_where (λ (r : RecordRow). r.id == id)
        (λ (r : RecordRow). record r { status = "expired"; doc = "{}" }) db.records;
})

-- The body of the loop over the expired records: the set of their scopes grows.
unfoldable pub expire_one : Settings → Value → List String → Exec (List String)
unfolding text index set_insert expire_record
expire_one st r scopes = do
  id ← lift (text r "id")
  execute (expire_record id)
  pure (set_insert (st.env.canonical (index r "scope")) scopes)

unfoldable pub reconcile_scope : Settings → String → Exec (Unit {0})
unfolding reconcile
reconcile_scope st s = do scope ← lift (parse_doc st.env s); reconcile st scope

-- A job with the columns of its observation.
pub record Task : Type 0 where
  pub id : String
  pub attempts : ℕ
  pub next_at : ℤ
  pub scope : String
  pub payload : String
  pub source_key : String

abbrev is_due : ℤ → JobRow → Bool
is_due now j = j.state == "accepted" && le_int j.next_at now

abbrev join_task : JobRow → Option ObservationRow → List Task → List Task
join_task j none ts = ts
join_task j (some o) ts =
    record {
      id = j.id;
      attempts = j.attempts;
      next_at = j.next_at;
      scope = o.scope;
      payload = o.payload;
      source_key = o.source_key;
    }
    ∷ ts

unfoldable pub due_tasks : ℤ → List JobRow → Db → List Task
unfolding find_first
due_tasks now [] db = []
due_tasks now (j ∷ js) db =
    let rest = due_tasks now js db in
    if is_due now j
    then join_task j (find_first (λ (o : ObservationRow). o.id == j.id) db.observations) rest
    else rest

-- `ORDER BY j.next_at,j.id`
abbrev before : Task → Task → Bool
before t u =
    lt_int t.next_at u.next_at
    || (le_int t.next_at u.next_at && (elim (compare t.id u.id) [ Ordering.lt ↦ true | _ ↦ false ]))

-- `LIMIT 1`
unfoldable pub first_task : List Task → Option Task
first_task [] = none
first_task (t ∷ ts) = elim (first_task ts) [
  | none ↦ some t
  | some u ↦ some (if before u t then u else t)
]

-- The first part of the transaction, up to the choice of the job.
unfoldable pub expire_and_choose : Settings → Exec (Bool × Option Task)
unfolding select parse_docs fold_each expire_one for_each reconcile_scope due_tasks first_task
expire_and_choose st = do
  docs ← query (expired_docs st.clock)
  expired ← lift (parse_docs st.env docs)
  scopes ← fold_each expired [] (expire_one st)
  for_each scopes (reconcile_scope st)
  task ← query (λ db. first_task (due_tasks st.clock db.jobs db))
  pure (not (elim expired [ [] ↦ true | v ∷ vs ↦ false ]), task)

-- The job and its observation are done.
unfoldable pub complete_task : String → String → Db → Db
unfolding update_where
complete_task record' id db = record db {
  observations =
      update_where (λ (o : ObservationRow). o.id == id)
        (λ (o : ObservationRow). record o { state = "completed"; record_id = some record' })
        db.observations;
  jobs =
      update_where (λ (j : JobRow). j.id == id)
        (λ (j : JobRow). record j { state = "completed"; attempts = j.attempts + 1; error = none })
        db.jobs;
}

-- The second part: the record of the job. The result says whether the transaction goes on to `bump`.
unfoldable pub run_task : Settings → Task → Exec Bool
unfolding derived_record_args array any_tombstoned erase_derived save text complete_task
run_task st t = do
  obs ← lift (parse_doc st.env t.payload)
  scope ← lift (parse_doc st.env t.scope)
  args ← lift (derived_record_args st.env scope obs t.source_key)
  sources ← lift (array args "sources")
  dead ← query (any_tombstoned t.scope sources)
  if dead then (do erase_derived st t.scope t.source_key [] true; pure false) else (do
    saved ← save st args
    id ← lift (text saved "id")
    execute (complete_task id t.id)
    pure true)

-- A failure of the job is counted, and the job waits; after the fifth it has failed for good.
unfoldable pub fail_task : Settings → Task → Db → Db
unfolding update_where
fail_task st t db =
    let n = t.attempts + 1 in
    record db {
      jobs =
          update_where (λ (j : JobRow). j.id == t.id)
            (λ (j : JobRow). record j {
              state = if leb 5 n then "failed" else "accepted";
              attempts = n;
              next_at = st.clock +ℤ pos (2 ^ n);
              error = some "processing_failed";
            })
            db.jobs;
    }

-- The last lines of the transaction: `bump` if something changed. The result is whether there was a job.
unfoldable pub bump_if : Bool → Bool → Exec Bool
unfolding bump
bump_if changed job = do if changed then bump else pure tt; pure job

-- The end of the transaction with a job: its rollback is followed by the count of the failure.
unfoldable pub task_end : Settings → Db → Task → Result Bool × State → Result Bool × State
unfolding bump_if fail_task settle
task_end st before t (err e, s) = (ok true, record s { db = fail_task st t before })
task_end st before t (ok more, s) = settle st before (bump_if more true s)

unfoldable pub maintain_end :
    Settings → Db → Result (Bool × Option Task) × State → Result Bool × State
unfolding run_task task_end bump_if settle
maintain_end st before (err e, s) = (err e, record s { db = before })
maintain_end st before (ok (expired, none), s) = settle st before (bump_if expired false s)
maintain_end st before (ok (expired, some t), s) = task_end st before t (run_task st t s)

-- The transaction of a round, and what follows its end. The result is whether there was a job.
unfoldable pub maintain_round : Settings → Exec Bool
unfolding expire_and_choose maintain_end
maintain_round st s = maintain_end st s.db (expire_and_choose st s)

-- `PRAGMA wal_checkpoint(TRUNCATE)`, after the transaction. It leaves the tables as they are.
unfoldable pub checkpoint : Settings → Result Bool × State → Result Bool × State
checkpoint st (ok job, s) = if st.checkpoint_fails then (err storage_error, s) else (ok job, s)
checkpoint st (err e, s) = (err e, s)

unfoldable pub maintain : Settings → Exec Bool
unfolding maintain_round checkpoint
maintain st s = checkpoint st (maintain_round st s)
