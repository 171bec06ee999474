-- ===== src/Store/Erase.antt =====
-- `erase` and `forget` of src/store.rs.
pub mod Linked
pub mod Round
pub mod Termination
use tekes_memory.Prelude.{
  ℕ, zero, suc, ◌+◌, pos, Bool, true, false, not, ◌&&◌, ◌||◌, String, List, [], ◌∷◌, ◌++◌, map,
  Option, none, some, ◌==◌, nat_eq, any, length, select, find_first, update_where, if◌then◌else◌, ℤ,
}
use mathlib.Core.List.{reverse}
use tekes_memory.Json.{Value, bool, int, str}
use tekes_memory.Json.Access.{index, as_str, as_i64}
use tekes_memory.Json.Edit.{object}
use tekes_memory.Common.{
  Result, ok, err, ok_or, fail_if, invalid_argument, not_found, revision_conflict, exhausted,
  panicked,
}
use tekes_memory.Common.Access.{array}
use tekes_memory.Common.Authorize.{set_insert}
use tekes_memory.Store.Words.{has}
use tekes_memory.Store.Tables.{
  Db, RecordRow, VersionRow, IndexRow, ObservationRow, DependencyRow, delete_where,
}
use tekes_memory.Store.Exec.{
  Settings, Exec, ◌>>=◌, ◌>>◌, pure, fail, lift, query, execute, fold_each,
}
use tekes_memory.Store.Rows.{same_int}
use tekes_memory.Store.Lineage.{clear_lineage_dependents, clear_observations, complete_jobs}
use tekes_memory.Store.Facts.{reconcile}

abbrev of_record : String → ObservationRow → Bool
of_record id o = elim o.record_id [ none ↦ false | some r ↦ r == id ]

-- The records of the scope that depend on a source.
unfoldable pub dependents : String → String → Db → List String
unfolding select any
dependents scope key db =
    map (λ (d : DependencyRow). d.record_id)
      (select
        (λ (d : DependencyRow).
          d.source_key == key
          && any (λ (r : RecordRow). r.id == d.record_id && r.scope == scope) db.records)
        db.dependencies)

-- The sources of a record: those of its observation, or all if it was saved by itself.
unfoldable pub own_keys : String → String → Db → List String
unfolding select
own_keys scope id db =
    let observed =
      map (λ (o : ObservationRow). o.source_key)
        (select (λ (o : ObservationRow). o.scope == scope && of_record id o) db.observations) in
    let declared =
      map (λ (d : DependencyRow). d.source_key)
        (select (λ (d : DependencyRow). d.record_id == id) db.dependencies) in
    elim observed [ [] ↦ declared | k ∷ ks ↦ k ∷ ks ]

abbrev in_scope : String → String → Db → Bool
in_scope scope id db = any (λ (r : RecordRow). r.id == id && r.scope == scope) db.records

-- The rows of a record are taken out; of the record itself the identity stays.
unfoldable pub remove_record : String → Db → Db
unfolding delete_where update_where clear_observations complete_jobs any select
remove_record id db =
    let db1 = record db {
      versions = delete_where (λ (v : VersionRow). v.id == id) db.versions;
      search_index = delete_where (λ (x : IndexRow). x.id == id) db.search_index;
      dependencies = delete_where (λ (d : DependencyRow). d.record_id == id) db.dependencies;
      records =
          update_where (λ (r : RecordRow). r.id == id)
            (λ (r : RecordRow). record r { status = "deleted"; doc = "{}" }) db.records;
    } in
    let db2 = clear_observations "deleted" (of_record id) db1 in
    complete_jobs
      (λ j. any (λ (o : ObservationRow). o.id == j.id) (select (of_record id) db2.observations)) db2

-- The stack gets the dependents of a key that is now invalid.
unfoldable pub push_dependents : String → String → List String → Exec (List String)
unfolding dependents
push_dependents scope key stack = do ids ← query (dependents scope key); pure (reverse ids ++ stack)

-- One source of the record: what derives from it goes, and the records that rest on that.
unfoldable pub push_invalidated :
    Settings → String → Bool → String → List String → Exec (List String)
unfolding clear_lineage_dependents fold_each push_dependents
push_invalidated st scope block key stack = do
  invalidated ← clear_lineage_dependents st scope key block
  fold_each invalidated stack (push_dependents scope)

-- One round of the loop, for an identifier that is new.
unfoldable pub erase_one : Settings → String → Bool → String → List String → Exec (List String)
unfolding own_keys fold_each push_invalidated remove_record any
erase_one st scope block id stack = do
  found ← query (in_scope scope id)
  if not found then pure stack else (do
    keys ← query (own_keys scope id)
    stack' ← fold_each keys stack (push_invalidated st scope block)
    execute (remove_record id)
    pure stack')

-- The loop, as in `lineage_loop`; the result is the set of the identifiers that were met.
unfoldable pub erase_loop :
    Settings → String → Bool → ℕ → List String → List String → Exec (List String)
unfolding erase_one set_insert
erase_loop st scope block fuel [] seen = pure seen
erase_loop st scope block zero (id ∷ stack) seen =
    let skip = erase_loop st scope block zero stack seen in
    if has id seen then skip else fail exhausted
erase_loop st scope block (suc fuel) (id ∷ stack) seen =
    let skip = erase_loop st scope block (suc fuel) stack seen in
    let next =
      λ (stack' : List String). erase_loop st scope block fuel stack' (set_insert id seen) in
    if has id seen then skip else (erase_one st scope block id stack >>= next)

unfoldable pub erase : Settings → String → List String → Bool → Exec ℕ
unfolding erase_loop
erase st scope ids block = do
  dependencies ← query (λ db. db.dependencies)
  seen ← erase_loop st scope block (length ids + length dependencies) (reverse ids) []
  pure (length seen)

-- `collect::<BTreeSet<_>>()` of the optional texts of the identifiers, by its size
unfoldable pub all_distinct : List Value → Bool
unfolding as_str any
all_distinct [] = true
all_distinct (v ∷ vs) =
    not (
      any
        (λ w. elim (as_str v) [
          | none ↦ elim (as_str w) [ none ↦ true | some _ ↦ false ]
          | some a ↦ elim (as_str w) [ none ↦ false | some b ↦ a == b ]
        ])
        vs)
    && all_distinct vs

abbrev revision_of : String → String → Db → Option RecordRow
revision_of scope id db =
    find_first (λ (r : RecordRow). r.id == id && r.scope == scope && not (r.status == "deleted"))
      db.records

abbrev same_revision : ℤ → Option ℤ → Bool
same_revision a none = false
same_revision a (some b) = same_int a b

-- A record is to be forgotten only at the revision that the caller has seen. An identifier that is
-- no text binds as NULL, which no row equals.
unfoldable pub check_revision : String → Value → Value → Exec (Unit {0})
unfolding as_str find_first as_i64
check_revision scope id rev = do
  found ← query (λ db. elim (as_str id) [ none ↦ none | some i ↦ revision_of scope i db ])
  r ← lift (ok_or found not_found)
  lift (fail_if (not (same_revision r.revision (as_i64 rev))) revision_conflict)

-- `ids.iter().zip(revs)`
unfoldable pub check_revisions : String → List Value → List Value → Exec (Unit {0})
unfolding check_revision
check_revisions scope (id ∷ ids) (rev ∷ revs) =
    check_revision scope id rev >> check_revisions scope ids revs
check_revisions scope _ _ = pure tt

unfoldable pub texts_or_panic : List Value → Result (List String)
unfolding as_str
texts_or_panic [] = ok []
texts_or_panic (v ∷ vs) = elim (as_str v) [
  | none ↦ err panicked
  | some s ↦ elim (texts_or_panic vs) [ err e ↦ err e | ok l ↦ ok (s ∷ l) ]
]

abbrev external_copies : String
external_copies =
    "Host logs, hook receipts, provider request assets and backups require separate cleanup."

unfoldable pub forget : Settings → Value → Exec Value
unfolding array all_distinct index check_revisions texts_or_panic erase reconcile object
forget st a = do
  ids ← lift (array a "ids")
  revs ← lift (array a "expected_revisions")
  lift
      (fail_if (not (nat_eq (length ids) (length revs)) || not (all_distinct ids)) invalid_argument)
  let scope = st.env.canonical (index a "scope")
  check_revisions scope ids revs
  texts ← lift (texts_or_panic ids)
  count ← erase st scope texts true
  reconcile st (index a "scope")
  pure (
      object (
        ("hidden", bool true)
        ∷ ("records_deleted", int (pos count))
        ∷ ("physical_cleanup", str "checkpoint_pending")
        ∷ ("external_copies", str external_copies)
        ∷ []))
