-- ===== src/Store/Open.antt =====
-- `Store::open` of src/store.rs, on what the database file holds.
pub mod Again
use Prim.Native.String.{◌++◌ as append}
use tekes_memory.Prelude.{
  ℕ, ℤ, pos, negsuc, suc, ◌+◌, nat_eq, String, List, [], ◌∷◌, Option, none, some, ◌==◌, Bool, true,
  false, not, ◌||◌, select, if◌then◌else◌,
}
use tekes_memory.Json.{Value}
use tekes_memory.Json.Access.{index, as_str, unwrap_or}
use tekes_memory.Common.{Env, Result, ok, err, ◌>>=◌, unsupported_database_version}
use tekes_memory.Store.Tables.{Db, RecordRow, IndexRow}
use tekes_memory.Store.Rows.{is_current, parse_doc, index_words}

-- The file: `PRAGMA user_version`, the tables, and the rows of `meta`, which stand for the two of
-- `tables`.
pub record File : Type 0 where
  pub user_version : ℤ
  pub tables : Db
  pub cursor_secret : Option String
  pub generation : Option ℕ
  pub search_index_version : Option String

abbrev pub current_rows : List RecordRow → List RecordRow
current_rows rows = select (λ (r : RecordRow). is_current r.status) rows

-- The row of the index for a document.
abbrev pub index_row : Env → String → Value → IndexRow
index_row env id r = record {
  id = id;
  words = index_words env (unwrap_or (as_str (index r "content")) "") r;
}

unfoldable pub reindex : Env → List RecordRow → Result (List IndexRow)
unfolding index_words index as_str
reindex env [] = ok []
reindex env (x ∷ xs) = do
  r ← parse_doc env x.doc
  rows ← reindex env xs
  ok (index_row env x.id r ∷ rows)

-- The schema and the rows of `meta`, where they are not there yet. Two identifiers are drawn.
unfoldable pub prepare : Env → ℕ → File → File
prepare env draws f = record f {
  user_version = pos 1;
  cursor_secret = some (unwrap_or f.cursor_secret (append (env.uid draws) (env.uid (suc draws))));
  generation = some (unwrap_or f.generation 0);
}

-- The database that the store works on.
abbrev pub opened_db : File → Db
opened_db f = record f.tables {
  generation = unwrap_or f.generation 0;
  cursor_secret = unwrap_or f.cursor_secret "";
}

abbrev pub is_supported : ℤ → Bool
is_supported (pos n) = nat_eq n 0 || nat_eq n 1
is_supported (negsuc n) = false

abbrev pub is_indexed : Option String → Bool
is_indexed none = false
is_indexed (some v) = v == "2"

abbrev pub with_index : File → Result (List IndexRow) → Result Db × File
with_index f (err e) = (err e, f)
with_index f (ok rows) =
    let f' = record f {
      tables = record f.tables { search_index = rows };
      search_index_version = some "2";
    } in
    (ok (opened_db f'), f')

-- The rebuilding of the index is a transaction; a connection that is dropped rolls it back.
unfoldable pub open_file : Env → ℕ → File → Result Db × File
unfolding prepare reindex select
open_file env draws f =
    if not (is_supported f.user_version)
    then (err unsupported_database_version, f)
    else if is_indexed f.search_index_version
    then (ok (opened_db (prepare env draws f)), prepare env draws f)
    else with_index (prepare env draws f) (reindex env (current_rows f.tables.records))
