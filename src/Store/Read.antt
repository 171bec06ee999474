-- ===== src/Store/Read.antt =====
-- `get` of src/store.rs: one record, as it is or as it was.
use tekes_memory.Prelude.{
  ℤ, Bool, false, not, ◌&&◌, String, List, [], ◌∷◌, map, Option, none, some, ◌==◌, select,
  if◌then◌else◌,
}
use tekes_memory.Json.{Value, bool, str, json_eq}
use tekes_memory.Json.Access.{get, index, as_i64, is_text, is_true}
use tekes_memory.Json.Edit.{set_key, object}
use tekes_memory.Common.{ok_or, fail_if, not_found}
use tekes_memory.Common.Access.{text}
use tekes_memory.Common.Envelope.{ensure_record_readable}
use tekes_memory.Store.Tables.{Db, VersionRow}
use tekes_memory.Store.Exec.{Settings, Exec, ◌>>=◌, ◌>>◌, pure, lift, query}
use tekes_memory.Store.Rows.{same_int, row, parse_docs, current_status}

abbrev is_version : String → Option ℤ → VersionRow → Bool
is_version id none v = false
is_version id (some n) v = v.id == id && same_int v.revision n

abbrev version_docs : String → Option ℤ → Db → List String
version_docs id n db = map (λ (v : VersionRow). v.doc) (select (is_version id n) db.versions)

abbrev first_value : List Value → Option Value
first_value [] = none
first_value (v ∷ vs) = some v

-- The record at the revision asked for, marked as historical if it is not the current one.
unfoldable pub at_revision : Settings → String → Option Value → Value → Exec Value
unfolding as_i64 select parse_docs index set_key
at_revision st id none r = pure r
at_revision st id (some rev) r = do
  docs ← query (version_docs id (as_i64 rev))
  vs ← lift (parse_docs st.env docs)
  old ← lift (ok_or (first_value vs) not_found)
  pure (set_key old "historical" (bool (not (json_eq rev (index r "revision")))))

-- The status of a record that is not historical is that of now; a fact out of its time is hidden.
unfoldable pub refresh : Settings → Value → Exec Value
unfolding is_true index current_status set_key is_text
refresh st r = if is_true (index r "historical") then pure r else (do
  now ← current_status st r
  let r' = set_key r "status" (str now)
  lift (fail_if (is_text (index r' "status") "expired") not_found)
  pure r')

unfoldable pub get_record : Settings → Value → Exec Value
unfolding text index row get at_revision refresh ensure_record_readable object
get_record st a = do
  id ← lift (text a "id")
  current ← row st (index a "scope") id
  chosen ← at_revision st id (get "revision" a) current
  r ← refresh st chosen
  lift (ensure_record_readable st.env r)
  pure (object (("item", r) ∷ []))
