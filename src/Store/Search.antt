-- ===== src/Store/Search.antt =====
-- `search` of src/store.rs.
use Prim.Native.Nat.{Ordering}
use Prim.Native.String.{compare}
use tekes_memory.Prelude.{
  ℕ, zero, suc, ◌+◌, ltb, nat_eq, Bool, true, false, ◌&&◌, ◌||◌, String, List, [], ◌∷◌, ◌++◌, map,
  none, some, ◌==◌, any, length, select, find_first, if◌then◌else◌, pos,
}
use Prim.Native.Nat.{min}
use tekes_memory.Json.{Value, null, bool, int, str, arr, of_list}
use tekes_memory.Json.Access.{index, as_str, as_u64, is_text}
use tekes_memory.Json.Edit.{set_key, remove_key, object}
use tekes_memory.Common.{Env, Result, ok, err, is_ok, panicked}
use tekes_memory.Common.Access.{text, array}
use tekes_memory.Common.Authorize.{authorize}
use tekes_memory.Store.Words.{has, query_words}
use tekes_memory.Store.Tables.{Db, RecordRow, IndexRow}
use tekes_memory.Store.Exec.{Settings, Exec, ◌>>=◌, ◌>>◌, pure, lift, query}
use tekes_memory.Store.Rows.{is_current, unexpired, parse_docs, digest}
use tekes_memory.Store.Erase.{texts_or_panic}
use tekes_memory.Store.Cursor.{check_secret, make_cursor, read_cursor}
use tekes_memory.Store.Page.{Page, Budget, empty_page, size_of, fill_page}

-- The scope of the query and the wider ones that it may read.
unfoldable pub wider_scopes : Value → List Value
unfolding index is_text remove_key set_key object
wider_scopes scope =
    let workspace = set_key (remove_key scope "thread_id") "kind" (str "workspace") in
    let user = object (("kind", str "user") ∷ ("owner_id", index scope "owner_id") ∷ []) in
    let first = if is_text (index scope "kind") "thread" then workspace ∷ [] else [] in
    let second = if is_text (index scope "kind") "user" then [] else user ∷ [] in
    scope ∷ first ++ second

-- Those among them that the principal may read, as the database writes them.
unfoldable pub readable_scopes : Env → Value → Value → List String
unfolding select authorize wider_scopes
readable_scopes env p scope =
    map env.canonical (select (λ s. is_ok (authorize p s)) (wider_scopes scope))

-- What a cursor is bound to.
unfoldable pub query_id : Env → Value → Value → String
unfolding remove_key set_key index
query_id env p a = digest env (set_key (remove_key a "cursor") "principal" (index p "id"))

-- The conditions on a record.
unfoldable pub is_candidate : Settings → List String → List String → RecordRow → Bool
unfolding any
is_candidate st scopes kinds r =
    has r.scope scopes && has r.kind kinds && is_current r.status && unexpired r.expires st.clock

unfoldable pub insert_by_id : RecordRow → List RecordRow → List RecordRow
insert_by_id r [] = r ∷ []
insert_by_id r (x ∷ xs) = elim (compare r.id x.id) [
  | Ordering.gt ↦ x ∷ insert_by_id r xs
  | _ ↦ r ∷ x ∷ xs
]

-- `ORDER BY id`
unfoldable pub sort_by_id : List RecordRow → List RecordRow
unfolding insert_by_id
sort_by_id [] = []
sort_by_id (r ∷ rs) = insert_by_id r (sort_by_id rs)

-- The join of the matches with the records.
unfoldable pub join_records : List String → List RecordRow → List RecordRow
unfolding find_first
join_records [] rows = []
join_records (id ∷ ids) rows = elim (find_first (λ (r : RecordRow). r.id == id) rows) [
  | none ↦ join_records ids rows
  | some r ↦ r ∷ join_records ids rows
]

abbrev index_rows : List IndexRow → List (String × String)
index_rows [] = []
index_rows (x ∷ xs) = (x.id, x.words) ∷ index_rows xs

-- The rows of the query in their order: all of them, or those that match a term.
unfoldable pub ranked_rows :
    Settings → List String → List String → List String → Db → List RecordRow
unfolding select is_candidate sort_by_id join_records
ranked_rows st scopes kinds tokens db =
    let rows = select (is_candidate st scopes kinds) db.records in
    elim tokens [
      | [] ↦ sort_by_id rows
      | t ∷ ts ↦ join_records (st.env.fts_match (index_rows db.search_index) (t ∷ ts)) rows
    ]

abbrev skip_rows : ℕ → List RecordRow → List RecordRow
skip_rows zero rows = rows
skip_rows (suc n) [] = []
skip_rows (suc n) (r ∷ rs) = skip_rows n rs

abbrev first_rows : ℕ → List RecordRow → List RecordRow
first_rows zero rows = []
first_rows (suc n) [] = []
first_rows (suc n) (r ∷ rs) = r ∷ first_rows n rs

-- `LIMIT 1001 OFFSET ?`
unfoldable pub page_docs : ℕ → List RecordRow → List String
page_docs offset rows = map (λ (r : RecordRow). r.doc) (first_rows 1001 (skip_rows offset rows))

abbrev start_of : Env → Value → String → String → String → Result ℕ
start_of env a secret id generation = elim (as_str (index a "cursor")) [
  | none ↦ ok 0
  | some c ↦ read_cursor env secret id generation c
]

abbrev budget_of : Value → String → Result Budget
budget_of a query =
    let b = index a "budget" in
    elim (as_u64 (index b "max_utf8_bytes")) [
      | none ↦ err panicked
      | some bytes ↦ elim (as_u64 (index b "estimated_tokens")) [
        | none ↦ err panicked
        | some tokens ↦ elim (as_u64 (index b "max_items")) [
          | none ↦ err panicked
          | some items ↦ ok (record { query = query; cap = min bytes tokens; max_items = items })
        ]
      ]
    ]

abbrev next_cursor : Bool → Env → String → String → String → ℕ → Result Value
next_cursor false env secret id generation offset = ok null
next_cursor true env secret id generation offset =
    elim (make_cursor env secret id generation offset) [ err e ↦ err e | ok c ↦ ok (str c) ]

unfoldable pub page_result : Env → Page → ℕ → Bool → Value → Value
unfolding object size_of of_list
page_result env page cap more cursor = object (
    ("items", arr (of_list page.items))
    ∷ ("conflicts", arr (of_list page.conflicts))
    ∷ ("next_cursor", cursor)
    ∷ ("truncated", bool (more || page.content_truncated || page.omitted_for_budget))
    ∷ (
      "budget",
      object (
          ("utf8_bytes", int (pos (size_of env page.items page.conflicts)))
          ∷ ("estimator", str "utf8-byte-upper-bound")
          ∷ ("max_bytes", int (pos cap))
          ∷ []),
    )
    ∷ [])

unfoldable pub search : Settings → Value → Value → Exec Value
unfolding index readable_scopes query_id as_str check_secret read_cursor array texts_or_panic text
    query_words as_u64 ranked_rows page_docs parse_docs fill_page make_cursor page_result
search st p a = do
  let scopes = readable_scopes st.env p (index a "scope")
  let id = query_id st.env p a
  generation ← query (λ db. st.env.decimal db.generation)
  secret ← query (λ db. db.cursor_secret)
  lift (check_secret secret)
  offset ← lift (start_of st.env a secret id generation)
  kinds ← lift (array a "kinds")
  names ← lift (texts_or_panic kinds)
  asked ← lift (text a "query")
  rows ← query (λ db. page_docs offset (ranked_rows st scopes names (query_words st.env asked) db))
  docs ← lift (parse_docs st.env rows)
  b ← lift (budget_of a asked)
  page ← fill_page st b docs empty_page
  let more = ltb page.consumed (length docs) || nat_eq (length docs) 1001
  cursor ← lift (
      next_cursor (more && ltb 0 page.consumed) st.env secret id generation
        (offset + page.consumed))
  pure (page_result st.env page b.cap more cursor)
