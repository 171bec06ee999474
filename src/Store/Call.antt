-- ===== src/Store/Call.antt =====
-- `call_with_effect` and `reconcile_effect` of src/store.rs: the entry points of the store.
use tekes_memory.Prelude.{
  pos, Bool, not, ◌&&◌, ◌||◌, String, [], ◌∷◌, ◌++◌, Option, none, some, ◌==◌, find_first,
  if◌then◌else◌,
}
use tekes_memory.Json.{Value, null, int, str}
use tekes_memory.Json.Access.{index, as_str}
use tekes_memory.Json.Edit.{set_key, object}
use tekes_memory.Common.{Env, ok_or, fail_if, invalid_argument, not_found, idempotency_conflict}
use tekes_memory.Common.Access.{text}
use tekes_memory.Common.Authorize.{authorize}
use tekes_memory.Common.Envelope.{tool_result}
use tekes_memory.Store.Tables.{Db, OperationRow, ReceiptRow, JobRow}
use tekes_memory.Store.Exec.{
  Settings, Exec, ◌>>=◌, ◌>>◌, pure, fail, lift, query, execute, draw, transaction,
}
use tekes_memory.Store.Admit.{valid_effect_key, admit}
use tekes_memory.Store.Rows.{digest, parse_doc}
use tekes_memory.Store.Write.{save, correct}
use tekes_memory.Store.Erase.{forget}
use tekes_memory.Store.Observe.{observe}
use tekes_memory.Store.Maintain.{bump}
use tekes_memory.Store.Read.{get_record}
use tekes_memory.Store.Search.{search}
use tekes_memory.Store.Derived.{scrub_write_args}

abbrev is_operation : String → String → OperationRow → Bool
is_operation id principal o = o.id == id && o.principal == principal

abbrev job_of : Option String → Db → Option JobRow
job_of none db = none
job_of (some id) db = find_first (λ (j : JobRow). j.id == id) db.jobs

abbrev or_json_null : Option String → Value
or_json_null none = null
or_json_null (some s) = str s

abbrev job_state : Option JobRow → String
job_state none = "completed"
job_state (some j) = j.state

abbrev job_error : Option JobRow → Value
job_error none = null
job_error (some j) = or_json_null j.error

-- `memory.status`
unfoldable pub operation_status : Settings → Value → Value → Exec Value
unfolding text find_first authorize index as_str object
operation_status st p a = do
  id ← lift (text a "operation_id")
  principal ← lift (text p "id")
  found ← query (λ db. find_first (is_operation id principal) db.operations)
  o ← lift (ok_or found not_found)
  scope ← lift (parse_doc st.env o.scope)
  lift (authorize p scope)
  r ← lift (parse_doc st.env o.result)
  job ← query (job_of (as_str (index r "observation_id")))
  request ← draw st.env
  pure (
      object (
        ("schema_version", int (pos 1))
        ∷ ("request_id", str request)
        ∷ ("operation_id", index a "operation_id")
        ∷ ("processing_state", str (job_state job))
        ∷ ("error", job_error job)
        ∷ []))

-- `memory.search` and `memory.get`
unfoldable pub read_tool : Settings → Value → String → Value → Exec Value
unfolding search get_record set_key
read_tool st p name a = do
  r ← if name == "memory.search" then search st p a else get_record st a
  request ← draw st.env
  pure (set_key (set_key r "schema_version" (int (pos 1))) "request_id" (str request))

abbrev pub is_receipt : String → String → ReceiptRow → Bool
is_receipt principal key r = r.principal == principal && r.key == key

abbrev pub is_repeat : String → String → String → OperationRow → Bool
is_repeat principal scope key o = o.principal == principal && o.scope == scope && o.key == key

-- The stored result of an equal request.
unfoldable pub replay_result : Env → String → String → String → Exec Value
replay_result env stored dg result =
    if stored == dg then lift (parse_doc env result) else fail idempotency_conflict

-- The tool that writes.
unfoldable pub write_tool : Settings → String → Value → Exec Value
unfolding save correct forget observe
write_tool st name safe =
    if name == "memory.save"
    then save st safe
    else if name == "memory.correct"
    then correct st safe
    else if name == "memory.forget"
    then forget st safe
    else if name == "memory.observe"
    then observe st safe
    else fail invalid_argument

unfoldable pub add_operation : OperationRow → Db → Db
add_operation o db = record db { operations = db.operations ++ o ∷ [] }

-- The result with its version and its identifiers.
unfoldable pub stamp : Value → String → String → Value
unfolding set_key
stamp made request operation =
    set_key (set_key (set_key made "schema_version" (int (pos 1))) "request_id" (str request))
      "operation_id" (str operation)

-- The result is stored as the answer to the request.
unfoldable pub store_answer : Settings → Value → Value → String → String → Value → Exec Value
unfolding text add_operation bump
store_answer st p a scope dg r = do
  id ← lift (text r "operation_id")
  principal ← lift (text p "id")
  key ← lift (text a "idempotency_key")
  execute (
      add_operation (record {
        id = id;
        principal = principal;
        scope = scope;
        key = key;
        digest = dg;
        result = st.env.canonical r;
      }))
  bump
  pure r

-- A request that is new: it is executed.
unfoldable pub perform : Settings → Value → String → Value → String → String → Exec Value
unfolding scrub_write_args write_tool stamp store_answer
perform st p name a scope dg = do
  made ← write_tool st name (scrub_write_args st.env name a)
  request ← draw st.env
  operation ← draw st.env
  store_answer st p a scope dg (stamp made request operation)

unfoldable pub operate_on :
    Settings → Value → String → Value → String → String → Option OperationRow → Exec Value
unfolding replay_result perform
operate_on st p name a scope dg none = perform st p name a scope dg
operate_on st p name a scope dg (some o) = replay_result st.env o.digest dg o.result

-- The answer of the operation, stored or new.
unfoldable pub operate : Settings → Value → String → Value → String → String → Exec Value
unfolding text find_first operate_on
operate st p name a scope dg = do
  principal ← lift (text p "id")
  key ← lift (text a "idempotency_key")
  old ← query (λ db. find_first (is_repeat principal scope key) db.operations)
  operate_on st p name a scope dg old

-- The receipt of a result.
unfoldable pub add_receipt : ReceiptRow → Db → Db
add_receipt r db = record db { effect_receipts = db.effect_receipts ++ r ∷ [] }

unfoldable pub receipt_or :
    Settings → String → String → String → String → Exec Value → Option ReceiptRow → Exec Value
unfolding replay_result add_receipt
receipt_or st principal key scope dg body (some old) = replay_result st.env old.digest dg old.result
receipt_or st principal key scope dg body none = do
  r ← body
  execute (
      add_receipt (record {
        principal = principal;
        key = key;
        scope = scope;
        digest = dg;
        result = st.env.canonical r;
      }))
  pure r

-- With an effect key the result is stored once more, under the key.
unfoldable pub with_receipt : Settings → Value → String → String → String → Exec Value → Exec Value
unfolding text find_first receipt_or
with_receipt st p key scope dg body = do
  principal ← lift (text p "id")
  receipt ← query (λ db. find_first (is_receipt principal key) db.effect_receipts)
  receipt_or st principal key scope dg body receipt

-- `json!({"name":name,"args":a})`, which identifies a request
unfoldable pub request_digest : Env → String → Value → String
unfolding object
request_digest env name a = digest env (object (("name", str name) ∷ ("args", a) ∷ []))

-- The body of the transaction.
unfoldable pub write_body : Settings → Value → String → Value → Option String → Exec Value
unfolding index request_digest operate with_receipt
write_body st p name a none =
    operate st p name a (st.env.canonical (index a "scope")) (request_digest st.env name a)
write_body st p name a (some key) =
    let scope = st.env.canonical (index a "scope") in
    let dg = request_digest st.env name a in
    with_receipt st p key scope dg (operate st p name a scope dg)

unfoldable pub call_with_effect : Settings → Value → String → Value → Option String → Exec Value
unfolding admit operation_status read_tool transaction write_body
call_with_effect st p name a effect_key = do
  lift (admit st.env p name a effect_key)
  if name == "memory.status"
      then operation_status st p a
      else if name == "memory.search" || name == "memory.get"
      then read_tool st p name a
      else transaction st (write_body st p name a effect_key)

unfoldable pub call : Settings → Value → String → Value → Exec Value
unfolding call_with_effect
call st p name a = call_with_effect st p name a none

abbrev pub confirmed : Env → Value → Value
confirmed env data' = object (("status", str "confirmed") ∷ ("value", tool_result env data') ∷ [])

unfoldable pub receipt_outcome : Settings → Value → Option ReceiptRow → Exec Value
unfolding authorize object tool_result
receipt_outcome st p none = pure (object (("status", str "not_found") ∷ []))
receipt_outcome st p (some r) = do
  scope ← lift (parse_doc st.env r.scope)
  lift (authorize p scope)
  data' ← lift (parse_doc st.env r.result)
  pure (confirmed st.env data')

-- The durable outcome of an earlier write.
unfoldable pub reconcile_effect : Settings → Value → String → Exec Value
unfolding valid_effect_key text find_first receipt_outcome
reconcile_effect st p key = do
  lift (fail_if (not (valid_effect_key key)) invalid_argument)
  principal ← lift (text p "id")
  found ← query (λ db. find_first (is_receipt principal key) db.effect_receipts)
  receipt_outcome st p found
