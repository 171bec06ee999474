-- ===== src/Client/Queue.antt =====
-- The command queue of src/client.rs: `Client::request`, `rpc`, `raw`, `call`, and `run_commands`.
pub mod Lost
use tekes_memory.Prelude.{
  ℤ, pos, ◌+ℤ◌, le_int, String, List, [], ◌∷◌, Option, none, some, ◌==◌, Bool, true, false, not,
  if◌then◌else◌,
}
use tekes_memory.Json.{Value, null, str, obj, end}
use tekes_memory.Json.Access.{get, index, as_str, is_some, is_true, unwrap_or}
use tekes_memory.Json.Edit.{object}
use tekes_memory.Common.{Result, ok, err, ◌>>=◌, ok_or, unavailable, invalid_response, coded}
use tekes_memory.Client.Endpoint.{Client}

pub data Reply : Type 0 where
  data_reply : Value → Reply
  protocol_reply : Value → Reply

pub record Command : Type 0 where
  pub method : String
  pub params : Value
  pub notification : Bool

-- What comes of a command: a reply, a failure that ends the reactor, or nothing in time.
pub data Outcome : Type 0 where
  replied : Reply → Outcome
  failed late : Outcome

-- `self.sender.take()`
abbrev hang_up : Client → Client
hang_up c = record c { sending = false }

-- The command is in the queue of a reactor that reads it.
abbrev pub received : Client → Outcome → Result Reply × Client
received c (replied r) = (ok r, c)
received c failed = (err unavailable, record c { running = false })
received c late = (err unavailable, hang_up c)

-- The reactor has ended: the queue is closed, or the command is dropped with it.
abbrev pub dropped : Client → Outcome → Result Reply × Client
dropped c late = (err unavailable, hang_up c)
dropped c _ = (err unavailable, c)

-- `serve` is what rmcp and the service make of a command.
unfoldable pub request : (Command → Outcome) → ℤ → Client → Command → Result Reply × Client
request serve now c m =
    if not (le_int now c.deadline)
    then (err unavailable, c)
    else if not c.sending
    then (err unavailable, c)
    else if c.running
    then received c (serve m)
    else dropped c (serve m)

abbrev pub data_of : Reply → Result Value
data_of (data_reply v) = ok v
data_of (protocol_reply e) = err invalid_response

unfoldable pub rpc : (Command → Outcome) → ℤ → Client → Command → Result Value × Client
unfolding request
rpc serve now c m = let (r, c') = request serve now c m in (r >>= data_of, c')

abbrev raw_reply : Value → Reply → Value
raw_reply r (data_reply v) =
    object (("jsonrpc", str "2.0") ∷ ("id", index r "id") ∷ ("result", v) ∷ [])
raw_reply r (protocol_reply e) =
    object (("jsonrpc", str "2.0") ∷ ("id", index r "id") ∷ ("error", e) ∷ [])

unfoldable pub raw : (Command → Outcome) → ℤ → Client → Value → Result Value × Client
unfolding request get index as_str object
raw serve now c r =
    let notification = not (is_some (get "id" r)) in
    let (reply, c') = request serve now c (record {
      method = unwrap_or (as_str (index r "method")) "";
      params = unwrap_or (get "params" r) (obj end);
      notification = notification;
    }) in
    (reply >>= λ x. ok (if notification then null else raw_reply r x), c')

unfoldable pub tool_command : String → Value → Command
unfolding object
tool_command name args = record {
  method = "tools/call";
  params = object (("name", str name) ∷ ("arguments", args) ∷ []);
  notification = false;
}

-- The result of a tool, in the envelope of the service.
unfoldable pub read_result : Value → Result Value
unfolding index get as_str is_true
read_result r =
    if is_true (index r "isError")
    then err (
        coded (
          unwrap_or (as_str (index (index (index r "structuredContent") "error") "code"))
            "unavailable"))
    else ok_or (get "structuredContent" r) invalid_response

unfoldable pub call : (Command → Outcome) → ℤ → Client → String → Value → Result Value × Client
unfolding rpc tool_command read_result
call serve now c name args =
    let (r, c') = rpc serve now c (tool_command name args) in (r >>= read_result, c')

unfoldable pub reset_deadline : ℤ → ℤ → Client → Client
reset_deadline now timeout c = record c { deadline = now +ℤ timeout }
