-- ===== src/Store/Put.antt =====
-- `put`, `blocked`, `check_kind` and `status` of src/store.rs.
use tekes_memory.Prelude.{
  le_int, Bool, true, false, not, ◌&&◌, ◌||◌, String, Option, none, some, ◌==◌, any, find_first,
  if◌then◌else◌,
}
use tekes_memory.Json.{Value}
use tekes_memory.Json.Access.{get, index, as_str, as_i64, is_some}
use tekes_memory.Common.{
  Result, err, ok_or, fail_if, invalid_argument, source_unavailable, storage_error,
}
use tekes_memory.Common.Access.{text, array}
use tekes_memory.Common.Envelope.{ensure_record_readable}
use tekes_memory.Store.Tables.{
  Db, RecordRow, VersionRow, IndexRow, TombstoneRow, replace_row, delete_where,
}
use tekes_memory.Store.Exec.{Settings, Exec, ◌>>=◌, ◌>>◌, pure, lift, query, execute, for_each}
use tekes_memory.Store.Rows.{
  same_int, is_current, fact_key, valid_from, valid_to, put_dependency, put_index,
}

-- A null revision breaks the table's `NOT NULL`.
unfoldable pub put : Settings → Value → Exec (Unit {0})
unfolding ensure_record_readable text array index as_i64 as_str fact_key for_each replace_row
    delete_where
put st r = do
  lift (ensure_record_readable st.env r)
  id ← lift (text r "id")
  let doc = st.env.canonical r
  kind ← lift (text r "kind")
  status ← lift (text r "status")
  revision ← lift (ok_or (as_i64 (index r "revision")) storage_error)
  execute (λ db. record db {
    records =
        replace_row (λ (x : RecordRow). x.id == id)
          (record {
            id = id;
            scope = st.env.canonical (index r "scope");
            kind = kind;
            revision = revision;
            status = status;
            expires = as_i64 (index r "expires_at");
            doc = doc;
            fact_key = fact_key st.env r;
          })
          db.records;
  })
  execute (λ db. record db {
    versions =
        replace_row (λ (v : VersionRow). v.id == id && same_int v.revision revision)
          (record { id = id; revision = revision; doc = doc }) db.versions;
  })
  execute (λ db. record db {
    search_index = delete_where (λ (x : IndexRow). x.id == id) db.search_index;
  })
  if is_current status then put_index st.env id r else pure tt
  sources ← lift (array r "sources")
  for_each sources (put_dependency id)

-- `SELECT 1 FROM tombstones WHERE scope=? AND source_key=?`
unfoldable pub is_tombstoned : String → String → Db → Bool
unfolding any
is_tombstoned scope key db =
    any (λ (t : TombstoneRow). t.scope == scope && t.source_key == key) db.tombstones

abbrev pub check_source : String → Value → Exec (Unit {0})
check_source scope source = elim (as_str (index source "source_key")) [
  | none ↦ pure tt
  | some key ↦ do dead ← query (is_tombstoned scope key); lift (fail_if dead source_unavailable)
]

-- No source of the write has been forgotten.
unfoldable pub blocked : Settings → Value → Exec (Unit {0})
unfolding array index as_str for_each is_tombstoned
blocked st a = do
  sources ← lift (array a "sources")
  for_each sources (check_source (st.env.canonical (index a "scope")))

-- Boolean `!=`
abbrev differs : Bool → Bool → Bool
differs true b = not b
differs false b = b

abbrev is_empty_interval : Option Value → Bool
is_empty_interval none = false
is_empty_interval (some f) = le_int (valid_to f) (valid_from f)

-- A fact comes with a fact and nothing else does; so for a procedure.
unfoldable pub check_kind : Value → String → Result (Unit {0})
unfolding get valid_from valid_to
check_kind a kind =
    if differs (kind == "fact") (is_some (get "fact" a))
      || differs (kind == "procedure") (is_some (get "procedure" a))
    then err invalid_argument
    else fail_if (is_empty_interval (get "fact" a)) invalid_argument

-- A missing row is an error of the database.
unfoldable pub status : String → Exec String
unfolding find_first
status id = do
  found ← query (λ db. find_first (λ (r : RecordRow). r.id == id) db.records)
  r ← lift (ok_or found storage_error)
  pure r.status
