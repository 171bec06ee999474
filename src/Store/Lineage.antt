-- ===== src/Store/Lineage.antt =====
-- `clear_source` and `clear_lineage_dependents` of src/store.rs.
pub mod Covered
pub mod Ends
pub mod Missing
pub mod Termination
use tekes_memory.Prelude.{
  ℕ, zero, suc, ◌*◌, Bool, false, not, ◌&&◌, ◌||◌, String, List, [], ◌∷◌, ◌++◌, Option, none, some,
  ◌==◌, any, length, select, update_where, if◌then◌else◌,
}
use tekes_memory.Json.{Value}
use tekes_memory.Json.Access.{index, as_str, as_array, is_text}
use tekes_memory.Common.{exhausted}
use tekes_memory.Common.Authorize.{set_insert}
use tekes_memory.Store.Words.{has}
use tekes_memory.Store.Tables.{Db, ObservationRow, JobRow, TombstoneRow, insert_or_ignore}
use tekes_memory.Store.Exec.{
  Settings, Exec, ◌>>=◌, ◌>>◌, pure, fail, lift, query, execute, fold_each,
}
use tekes_memory.Store.Rows.{parse_doc}

-- `INSERT OR IGNORE INTO tombstones`
unfoldable pub add_tombstone : String → String → Db → Db
unfolding insert_or_ignore
add_tombstone scope key db = record db {
  tombstones =
      insert_or_ignore (λ (t : TombstoneRow). t.scope == scope && t.source_key == key)
        (record { scope = scope; source_key = key }) db.tombstones;
}

-- `UPDATE observations SET payload='{}',state=? WHERE …`
unfoldable pub clear_observations : String → (ObservationRow → Bool) → Db → Db
unfolding update_where
clear_observations state f db = record db {
  observations =
      update_where f (λ (o : ObservationRow). record o { payload = "{}"; state = state })
        db.observations;
}

-- `UPDATE jobs SET state='completed' WHERE …`
unfoldable pub complete_jobs : (JobRow → Bool) → Db → Db
unfolding update_where
complete_jobs f db = record db {
  jobs = update_where f (λ (j : JobRow). record j { state = "completed" }) db.jobs;
}

abbrev of_source : String → String → ObservationRow → Bool
of_source scope key o = o.scope == scope && o.source_key == key

unfoldable pub clear_source : String → String → String → Exec (Unit {0})
unfolding clear_observations complete_jobs select any
clear_source scope key state = do
  execute (clear_observations state (of_source scope key))
  execute (λ db.
      complete_jobs
        (λ j.
          any (λ (o : ObservationRow). o.id == j.id) (select (of_source scope key) db.observations))
        db)

abbrev has_text : Option (List Value) → (Value → Bool) → Bool
has_text none f = false
has_text (some vs) f = any f vs

-- Whether an observation was derived from the source `key`.
unfoldable pub depends_on : String → ObservationRow → Value → Bool
unfolding index is_text as_array any
depends_on key o payload =
    let inner = index payload "payload" in
    o.source_key == key
    || is_text (index inner "own_source_key") key
    || has_text (as_array (index inner "sources")) (λ s. is_text (index s "source_key") key)
    || has_text (as_array (index inner "lineage_keys")) (λ s. is_text s key)

-- The key under which the host knows the observation's own row, as a set of at most one.
unfoldable pub aliases : Value → List String
unfolding index as_str
aliases payload = elim (as_str (index (index payload "payload") "own_source_key")) [
  | none ↦ []
  | some alias ↦ alias ∷ []
]

unfoldable pub add_tombstones : String → List String → Db → Db
unfolding add_tombstone
add_tombstones scope [] db = db
add_tombstones scope (k ∷ ks) db = add_tombstones scope ks (add_tombstone scope k db)

-- The rows of the query: the observations of the scope that still have a payload.
abbrev pub is_pending : String → ObservationRow → Bool
is_pending scope o = o.scope == scope && not (o.payload == "{}")

abbrev pub live_observations : String → Db → List ObservationRow
live_observations scope db = select (is_pending scope) db.observations

abbrev pub job_exists : String → Db → Bool
job_exists id db = any (λ (j : JobRow). j.id == id) db.jobs

-- What is done to one observation that depends on the key.
unfoldable pub clear_dependent : String → Bool → ObservationRow → Value → Db → Db
unfolding aliases add_tombstone add_tombstones clear_observations complete_jobs any
clear_dependent scope block o payload db =
    let blocked_db =
      if block
      then add_tombstone scope o.source_key (add_tombstones scope (aliases payload) db)
      else db in
    let cleared = clear_observations "deleted" (λ (x : ObservationRow). x.id == o.id) blocked_db in
    if job_exists o.id db then complete_jobs (λ (j : JobRow). j.id == o.id) cleared else cleared

-- The body of the inner loop: the stack grows by the keys of each observation that is cleared.
unfoldable pub clear_row :
    Settings → String → Bool → String → ObservationRow → List String → Exec (List String)
unfolding depends_on clear_dependent aliases
clear_row st scope block key o stack = do
  payload ← lift (parse_doc st.env o.payload)
  if depends_on key o payload
      then (do
        execute (clear_dependent scope block o payload)
        pure (aliases payload ++ o.source_key ∷ stack))
      else pure stack

-- One round of the outer loop, for a key that is new.
unfoldable pub visit_key : Settings → String → Bool → String → List String → Exec (List String)
unfolding add_tombstone clear_row fold_each select
visit_key st scope block key stack = do
  if block then execute (add_tombstone scope key) else pure tt
  rows ← query (live_observations scope)
  fold_each rows stack (clear_row st scope block key)

-- The outer loop. The head of the stack is the end of the vector. Fuel is spent on new keys alone.
unfoldable pub lineage_loop :
    Settings → String → Bool → ℕ → List String → List String → Exec (List String)
unfolding visit_key set_insert
lineage_loop st scope block fuel [] seen = pure seen
lineage_loop st scope block zero (key ∷ stack) seen =
    let skip = lineage_loop st scope block zero stack seen in
    if has key seen then skip else fail exhausted
lineage_loop st scope block (suc fuel) (key ∷ stack) seen =
    let skip = lineage_loop st scope block (suc fuel) stack seen in
    let next =
      λ (stack' : List String). lineage_loop st scope block fuel stack' (set_insert key seen) in
    if has key seen then skip else (visit_key st scope block key stack >>= next)

-- Every observation is cleared that comes from the key, through any number of others; the keys of
-- all of them are returned, and with `block` never accepted again.
unfoldable pub clear_lineage_dependents : Settings → String → String → Bool → Exec (List String)
unfolding lineage_loop
clear_lineage_dependents st scope key block = do
  observations ← query (λ db. db.observations)
  lineage_loop st scope block (suc (2 * length observations)) (key ∷ []) []
