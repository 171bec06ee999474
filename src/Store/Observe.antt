-- ===== src/Store/Observe.antt =====
-- `observe` of src/store.rs: an event of the host is taken in.
use tekes_memory.Prelude.{
  pos, ◌-◌, ◌^◌, Bool, true, false, not, ◌&&◌, ◌||◌, String, List, [], ◌∷◌, ◌++◌, Option, none,
  some, ◌==◌, any, select, find_first, if◌then◌else◌,
}
use tekes_memory.Json.{Value, bool, int, str, json_eq}
use tekes_memory.Json.Access.{get, index, as_str, is_some, is_text}
use tekes_memory.Json.Edit.{set_key, object}
use tekes_memory.Common.{
  Result, ok, err, ok_or, fail_if, invalid_argument, scope_denied, source_unavailable,
  idempotency_conflict,
}
use tekes_memory.Common.Access.{text, array}
use tekes_memory.Common.Envelope.{ensure_record_readable}
use tekes_memory.Store.Tables.{Db, ObservationRow, JobRow}
use tekes_memory.Store.Exec.{
  Settings, Exec, ◌>>=◌, ◌>>◌, pure, fail, lift, query, execute, draw, fold_each, for_each,
}
use tekes_memory.Store.Rows.{digest}
use tekes_memory.Store.Put.{is_tombstoned}
use tekes_memory.Store.Lineage.{add_tombstone, clear_source, clear_lineage_dependents}
use tekes_memory.Store.Erase.{dependents, erase}
use tekes_memory.Store.Derived.{derived_record_args}

-- The keys that the payload of an observation has to have, by the observation's type.
unfoldable pub required_fields : String → Result (List String)
required_fields typ =
    if typ == "turn_opened"
    then ok []
    else if typ == "tool_result"
    then ok ("call_id" ∷ "tool_name" ∷ "outcome" ∷ [])
    else if typ == "context_checkpoint"
    then ok ("through_seq" ∷ "covers" ∷ "manual" ∷ [])
    else if typ == "turn_outcome"
    then ok ("outcome" ∷ [])
    else if typ == "source_invalidated"
    then ok ("source_keys" ∷ [])
    else err invalid_argument

-- An event is taken in its own workspace or thread alone.
unfoldable pub foreign_event : Value → Value → Bool
unfolding index is_text
foreign_event scope event =
    is_text (index scope "kind") "user"
    || not (json_eq (index event "workspace_id") (index scope "workspace_id"))
    || (is_text (index scope "kind") "thread"
        && not (json_eq (index event "thread_id") (index scope "thread_id")))

-- What makes two deliveries the same source.
unfoldable pub identity : String → Value → Value
unfolding object index set_key
identity typ event =
    let copy = λ (v : Value) (k : String). set_key v k (index event k) in
    let v0 = object (("type", str typ) ∷ []) in
    copy
      (copy (copy (copy (copy (copy v0 "host") "host_instance_id") "workspace_id") "thread_id")
        "line_id")
      "source_seq"

-- Whether a source of the record has been forgotten.
unfoldable pub any_tombstoned : String → List Value → Db → Bool
unfolding any index as_str is_tombstoned
any_tombstoned scope sources db =
    any
      (λ s. elim (as_str (index s "source_key")) [
        | none ↦ false
        | some key ↦ is_tombstoned scope key db
      ])
      sources

-- The largest record that the observation can become.
unfoldable pub largest_record : Value → Value
unfolding object index
largest_record args = object (
    ("id", str "ffffffffffffffffffffffffffffffff")
    ∷ ("scope", index args "scope")
    ∷ ("kind", index args "kind")
    ∷ ("revision", int (pos (2 ^ 63 - 1)))
    ∷ ("status", str "contested")
    ∷ ("content", index args "content")
    ∷ ("sources", index args "sources")
    ∷ ("observed_at", int (pos (2 ^ 63 - 1)))
    ∷ ("verified_at", int (pos (2 ^ 63 - 1)))
    ∷ ("pinned", bool true)
    ∷ ("expires_at", int (pos (2 ^ 63 - 1)))
    ∷ [])

-- The check before anything is stored: is the observation dead on arrival?
unfoldable pub check_derived : Settings → String → Value → Value → String → Exec Bool
unfolding derived_record_args array any_tombstoned largest_record ensure_record_readable
check_derived st typ scope obs key = if typ == "source_invalidated" then pure false else (do
  args ← lift (derived_record_args st.env scope obs key)
  sources ← lift (array args "sources")
  dead ← query (any_tombstoned (st.env.canonical scope) sources)
  if typ == "turn_opened"
      then pure tt
      else lift (ensure_record_readable st.env (largest_record args))
  pure dead)

abbrev same_delivery : String → String → String → ObservationRow → Bool
same_delivery scope key dg o = o.scope == scope && o.source_key == key && o.digest == dg

unfoldable pub accepted : String → String → String → Value
unfolding object
accepted id state key = object (
    ("accepted", bool true)
    ∷ ("observation_id", str id)
    ∷ ("processing_state", str state)
    ∷ ("source_key", str key)
    ∷ [])

-- A delivery that was seen before: the first answer, unless its text differs.
unfoldable pub replay : Settings → Value → String → ObservationRow → Exec Value
unfolding accepted
replay st obs key o =
    if not (o.state == "deleted" || o.state == "expired") && not (o.payload == st.env.canonical obs)
    then fail idempotency_conflict
    else pure (accepted o.id o.state key)

abbrev record_ids : List ObservationRow → List String
record_ids [] = []
record_ids (o ∷ os) = elim o.record_id [ none ↦ record_ids os | some id ↦ id ∷ record_ids os ]

-- The records that rest on the keys.
unfoldable pub extend_dependents : String → String → List String → Exec (List String)
unfolding dependents
extend_dependents scope key ids = do more ← query (dependents scope key); pure (ids ++ more)

-- The sequence that follows each invalidation: what derives from the source goes.
unfoldable pub erase_derived : Settings → String → String → List String → Bool → Exec (Unit {0})
unfolding clear_lineage_dependents fold_each extend_dependents erase
erase_derived st scope key ids block = do
  invalidated ← clear_lineage_dependents st scope key block
  ids' ← fold_each invalidated ids (extend_dependents scope)
  count ← erase st scope ids' block
  pure tt

-- One target of `source_invalidated`.
unfoldable pub invalidate_target : Settings → String → Value → Exec (Unit {0})
unfolding as_str add_tombstone erase_derived clear_source
invalidate_target st scope target = do
  key ← lift (ok_or (as_str target) invalid_argument)
  execute (add_tombstone scope key)
  erase_derived st scope key [] true
  clear_source scope key "deleted"

unfoldable pub insert_observation : ObservationRow → Db → Db
insert_observation o db = record db { observations = db.observations ++ o ∷ [] }

unfoldable pub insert_job : JobRow → Db → Db
insert_job j db = record db { jobs = db.jobs ++ j ∷ [] }

-- Earlier deliveries of the same source, and what was made of them, give way to this one; and the
-- targets of an invalidation go.
unfoldable pub retire_previous : Settings → Value → String → String → String → Exec (Unit {0})
unfolding select erase_derived clear_source array index for_each invalidate_target
retire_previous st obs typ scope key = do
  previous ← query (λ db.
      record_ids
        (select (λ (o : ObservationRow). o.scope == scope && o.source_key == key) db.observations))
  erase_derived st scope key previous false
  clear_source scope key "deleted"
  if typ == "source_invalidated"
      then (do
        targets ← lift (array (index obs "payload") "source_keys")
        for_each targets (invalidate_target st scope))
      else pure tt

-- The row and its job; an observation with a forgotten source is cleared in the same transaction.
unfoldable pub store_observation :
    Settings → Value → String → String → String → String → Bool → Exec Value
unfolding insert_observation insert_job erase_derived accepted
store_observation st obs typ scope key dg dead = do
  id ← draw st.env
  let state =
      if typ == "turn_opened" || typ == "source_invalidated" then "completed" else "accepted"
  execute (
      insert_observation (record {
        id = id;
        scope = scope;
        source_key = key;
        digest = dg;
        payload = st.env.canonical obs;
        state = state;
        record_id = none;
      }))
  execute (
      insert_job
        (record { id = id; state = state; attempts = 0; next_at = st.clock; error = none }))
  if dead then erase_derived st scope key [] true else pure tt
  pure (accepted id (if dead then "deleted" else state) key)

-- A delivery that is new.
unfoldable pub observe_new :
    Settings → Value → String → String → String → String → Bool → Exec Value
unfolding is_tombstoned retire_previous store_observation
observe_new st obs typ scope key dg dead = do
  gone ← query (is_tombstoned scope key)
  lift (fail_if gone source_unavailable)
  retire_previous st obs typ scope key
  store_observation st obs typ scope key dg dead

unfoldable pub deliver :
    Settings → Value → String → String → String → String → Bool → Option ObservationRow → Exec Value
unfolding replay observe_new
deliver st obs typ scope key dg dead none = observe_new st obs typ scope key dg dead
deliver st obs typ scope key dg dead (some o) = replay st obs key o

abbrev lacks_field : Value → String → Bool
lacks_field payload k = not (is_some (get k payload))

unfoldable pub observe : Settings → Value → Exec Value
unfolding index foreign_event text required_fields get any identity check_derived find_first deliver
observe st a = do
  let event = index a "source_event"
  let obs = index a "observation"
  let scope = st.env.canonical (index a "scope")
  lift (fail_if (foreign_event (index a "scope") event) scope_denied)
  typ ← lift (text obs "type")
  fields ← lift (required_fields typ)
  lift (fail_if (any (lacks_field (index obs "payload")) fields) invalid_argument)
  let key = digest st.env (identity typ event)
  dead ← check_derived st typ (index a "scope") obs key
  dg ← lift (text event "source_digest")
  old ← query (λ db. find_first (same_delivery scope key dg) db.observations)
  deliver st obs typ scope key dg dead old
