-- ===== src/Common/Envelope.antt =====
-- The envelopes of src/common.rs: the size of a tool result, request ids, `normalize_initialize`.
pub mod Method
use Prim.Native.String.{len}
use tekes_memory.Prelude.{
  pos, negsuc, Bool, true, false, not, ◌||◌, leb, String, [], ◌∷◌, none, some, ◌-◌, ◌^◌,
  if◌then◌else◌,
}
use tekes_memory.Json.{Value, Fields, bool, int, str, arr, obj, cons, nil}
use tekes_memory.Json.Access.{get, get_field, index, as_i64, as_str, is_some, is_text}
use tekes_memory.Json.Edit.{insert_field, set_key, object}
use tekes_memory.Common.{Env, Result, fail_if, budget_exceeded}
use tekes_memory.Common.Schema.{max_response}

-- The result of a tool call as MCP carries it (also `reconcile_effect` and `call_tool`).
unfoldable pub tool_result : Env → Value → Value
unfolding object
tool_result env data' = object (
    ("structuredContent", data')
    ∷ (
      "content",
      arr (cons (object (("type", str "text") ∷ ("text", str (env.canonical data')) ∷ [])) nil),
    )
    ∷ ("isError", bool false)
    ∷ [])

unfoldable pub ensure_tool_result_readable : Env → Value → Result (Unit {0})
unfolding object tool_result
ensure_tool_result_readable env data' =
    let response = object (
      ("jsonrpc", str "2.0")
      ∷ ("id", int (negsuc (2 ^ 63 - 1)))
      ∷ ("result", tool_result env data')
      ∷ []) in
    fail_if (not (leb (len (env.wire_json response)) max_response)) budget_exceeded

unfoldable pub ensure_record_readable : Env → Value → Result (Unit {0})
unfolding ensure_tool_result_readable
ensure_record_readable env record' = ensure_tool_result_readable env (
    object (
      ("schema_version", int (pos 1))
      ∷ ("request_id", str "00000000000000000000000000000000")
      ∷ ("item", record')
      ∷ []))

-- A request has no id, or one that is an `i64` or a text.
unfoldable pub supported_rpc_id : Value → Bool
unfolding get as_i64 as_str
supported_rpc_id v = elim (get "id" v) [
  | none ↦ true
  | some id ↦ is_some (as_i64 id) || is_some (as_str id)
]

-- `entry(k).or_insert(v)`
abbrev or_insert : String → Value → Fields → Fields
or_insert k v m = if is_some (get_field k m) then m else insert_field k v m

abbrev pub fill_info : Value → Value → Value
fill_info request (obj info) = set_key request "params" (
    set_key (index request "params") "clientInfo"
      (obj (or_insert "version" (str "0") (or_insert "name" (str "tekes-memory-client") info))))
fill_info request _ = request

-- A client that sends no name or version in `initialize` is given one.
unfoldable pub normalize_initialize : Value → Value
unfolding index get get_field insert_field set_key
normalize_initialize request =
    if is_text (index request "method") "initialize"
    then fill_info request (index (index request "params") "clientInfo")
    else request
