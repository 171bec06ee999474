-- ===== src/Server/Tools.antt =====
-- `MemoryHandler` of src/server.rs: the tools of MCP over the store.
pub mod Denied
use tekes_memory.Prelude.{
  ℤ, pos, negsuc, String, List, [], ◌∷◌, Option, none, some, ◌==◌, Bool, true, false, not, ◌&&◌,
  if◌then◌else◌,
}
use package.text.Mathlib.Text.{starts_with}
use tekes_memory.Json.{Value, Fields, obj, end, str, int, bool, arr, cons, nil}
use tekes_memory.Json.Access.{index, as_str, is_some, unwrap_or, or_null}
use tekes_memory.Json.Edit.{object}
use tekes_memory.Common.{
  Env, Error, Result, ok, err, fail_if, scope_denied, invalid_argument, budget_exceeded, not_found,
  revision_conflict, idempotency_conflict, source_unavailable, storage_error, invalid_config,
  unsupported_schema_version, unavailable, invalid_response, io_error, invalid_endpoint,
  unsupported_protocol, unsupported_database_version, coded, panicked, exhausted,
}
use tekes_memory.Common.Schema.{validate}
use tekes_memory.Common.Envelope.{tool_result}
use tekes_memory.Config.Tools.{has_write, tools_for}
use tekes_memory.Store.Exec.{Settings, State, Exec, ◌>>=◌, ◌>>◌, fail, lift}
use tekes_memory.Store.Call.{call_with_effect, reconcile_effect}

-- The text of an error. The last two are no errors of the source: a panic of the worker is answered
-- by an error of the protocol instead.
unfoldable pub error_code : Error → String
error_code invalid_argument = "invalid_argument"
error_code scope_denied = "scope_denied"
error_code budget_exceeded = "budget_exceeded"
error_code not_found = "not_found"
error_code revision_conflict = "revision_conflict"
error_code idempotency_conflict = "idempotency_conflict"
error_code source_unavailable = "source_unavailable"
error_code storage_error = "storage_error"
error_code invalid_config = "invalid_config"
error_code unsupported_schema_version = "unsupported_schema_version"
error_code unavailable = "unavailable"
error_code invalid_response = "invalid_response"
error_code io_error = "io_error"
error_code invalid_endpoint = "invalid_endpoint"
error_code unsupported_protocol = "unsupported_protocol"
error_code unsupported_database_version = "unsupported_database_version"
error_code (coded s) = s
error_code panicked = ""
error_code exhausted = ""

-- The result of a tool, or an error of JSON-RPC.
pub data ToolReply : Type 0 where
  tool : Value → ToolReply
  protocol_error : ℤ → String → ToolReply

-- The envelope of an error.
unfoldable pub tool_error : String → Value
unfolding object
tool_error code = object (
    (
      "structuredContent",
      object (("schema_version", int (pos 1)) ∷ ("error", object (("code", str code) ∷ [])) ∷ []),
    )
    ∷ ("content", arr (cons (object (("type", str "text") ∷ ("text", str code) ∷ [])) nil))
    ∷ ("isError", bool true)
    ∷ [])

unfoldable pub envelope : Env → Result Value → ToolReply
unfolding tool_result tool_error error_code
envelope env (ok v) = tool (tool_result env v)
envelope env (err panicked) = protocol_error (negsuc 32602) "Memory worker unavailable"
envelope env (err exhausted) = protocol_error (negsuc 32602) "Memory worker unavailable"
envelope env (err e) = tool (tool_error (error_code e))

abbrev key_argument : Value → String
key_argument args = unwrap_or (as_str (index args "idempotencyKey")) ""

-- The outcome of an earlier write is told to those who may write.
unfoldable pub reconcile_tool : Settings → Value → Value → Exec Value
unfolding has_write validate reconcile_effect index as_str
reconcile_tool st p args = do
  lift (fail_if (not (has_write p)) scope_denied)
  lift (validate st.env args (or_null (st.env.schemas "memory.reconcile_effect")))
  reconcile_effect st p (key_argument args)

-- What runs under the mutex of the store.
unfoldable pub run_tool : Settings → Value → String → Value → Option String → Exec Value
unfolding reconcile_tool call_with_effect
run_tool st p name args key =
    if name == "memory.reconcile_effect"
    then reconcile_tool st p args
    else call_with_effect st p name args key

abbrev pub arguments_or_empty : Option Fields → Value
arguments_or_empty none = obj end
arguments_or_empty (some fs) = obj fs

abbrev pub is_known : Env → String → Bool
is_known env name = starts_with name "memory." && is_some (env.schemas name)

abbrev pub reply_of : Env → Result Value × State → ToolReply × State
reply_of env (r, s) = (envelope env r, s)

-- `key` is the text of `io.tekes/idempotencyKey` in the request's `_meta`, if it is one.
unfoldable pub call_tool :
    Settings → Value → String → Option Fields → Option String → State → ToolReply × State
unfolding run_tool envelope
call_tool st p name arguments key s =
    if is_known st.env name
    then reply_of st.env (run_tool st p name (arguments_or_empty arguments) key s)
    else (protocol_error (negsuc 32601) "Unknown tool", s)

unfoldable pub list_tools : Env → Value → Value
unfolding object tools_for
list_tools env p = object (("tools", tools_for env p) ∷ [])
