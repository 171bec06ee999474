-- ===== src/Client/Call.antt =====
-- A tool call of src/client.rs that src/server.rs answers: `Client::call` over `call_tool`.
use tekes_memory.Prelude.{
  not, if_true, if_false, ◌≡◌, refl, ◌∙◌, ap, ℤ, le_int, String, [], ◌∷◌, none, some, true,
}
use tekes_memory.Json.{Value, Fields, obj, int, str}
use tekes_memory.Json.Access.{get, index}
use tekes_memory.Json.Edit.{object}
use tekes_memory.Common.{
  ◌>>=◌, Env, Result, ok, err, scope_denied, invalid_argument, budget_exceeded, not_found,
  revision_conflict, idempotency_conflict, source_unavailable, storage_error, invalid_config,
  unsupported_schema_version, unavailable, invalid_response, io_error, invalid_endpoint,
  unsupported_protocol, unsupported_database_version, coded, panicked, exhausted,
}
use tekes_memory.Common.Envelope.{tool_result}
use tekes_memory.Client.Endpoint.{Client}
use tekes_memory.Client.Queue.{
  Command, Outcome, Reply, replied, data_reply, protocol_reply, call, rpc, request, received,
  failed, late, data_of, tool_command, read_result,
}
use tekes_memory.Server.Tools.{
  ToolReply, tool, protocol_error, envelope, tool_error, error_code, call_tool, run_tool, is_known,
}
use tekes_memory.Store.Exec.{Settings, State}

-- What a caller is told of the result of a tool: the value, or the text of the error. A panic is an
-- error of the protocol.
unfoldable pub told : Result Value → Result Value
unfolding error_code
told (ok v) = ok v
told (err panicked) = err invalid_response
told (err exhausted) = err invalid_response
told (err e) = err (coded (error_code e))

-- rmcp brings the result of a tool to the client as `carry` makes it, and an error as one.
abbrev pub answered : (Value → Value) → ToolReply → Outcome
answered carry (tool v) = replied (data_reply (carry v))
answered carry (protocol_error code message) =
    replied (protocol_reply (object (("code", int code) ∷ ("message", str message) ∷ [])))

-- The two fields that the client reads of a result are carried as they are.
pub record Carries (carry : Value → Value) : Type 0 where
  pub keeps_flag : (v : Value) → get "isError" (carry v) ≡ get "isError" v
  pub keeps_content : (v : Value) → get "structuredContent" (carry v) ≡ get "structuredContent" v

-- What the client reads of a reply.
abbrev read_reply : Outcome → Result Value
read_reply (replied (data_reply v)) = read_result v
read_reply (replied (protocol_reply e)) = err invalid_response
read_reply _ = err unavailable

received-reply :
    (c : Client) (o : Outcome) → (((received c o).0 >>= data_of) >>= read_result) ≡ read_reply o
received-reply c (replied (data_reply v)) = refl
received-reply c (replied (protocol_reply e)) = refl
received-reply c failed = refl
received-reply c late = refl

-- What a client whose connection is open makes of the outcome of a call.
call-read_reply :
    (serve : Command → Outcome) (now : ℤ) (c : Client) (name : String) (args : Value)
    → c.sending ≡ true
    → c.running ≡ true
    → le_int now c.deadline ≡ true
    → (call serve now c name args).0 ≡ read_reply (serve (tool_command name args))
unfolding call rpc request
call-read_reply serve now c name args sending running time =
    ap (λ (x : Result Reply × Client). (x.0 >>= data_of) >>= read_result)
      (if_false _ _ _ (ap not time) ∙ if_false _ _ _ (ap not sending) ∙ if_true _ _ _ running)
    ∙ received-reply c (serve (tool_command name args))

module _ (carry : Value → Value) (c : Carries carry) where
  read_carried : (v : Value) → read_result (carry v) ≡ read_result v
  unfolding read_result index
  read_carried v = rw (c.keeps_flag v, c.keeps_content v) refl

  read_error : (code : String) → read_result (carry (tool_error code)) ≡ err (coded code)
  unfolding read_result tool_error
  read_error code = read_carried (tool_error code) ∙ refl

  read_envelope :
      (env : Env) (r : Result Value) → read_reply (answered carry (envelope env r)) ≡ told r
  unfolding envelope told read_result tool_result
  read_envelope env (ok v) = read_carried (tool_result env v) ∙ refl
  read_envelope env (err panicked) = refl
  read_envelope env (err exhausted) = refl
  read_envelope env (err (coded s)) = read_error s
  read_envelope env (err scope_denied) = read_error "scope_denied"
  read_envelope env (err invalid_argument) = read_error "invalid_argument"
  read_envelope env (err budget_exceeded) = read_error "budget_exceeded"
  read_envelope env (err not_found) = read_error "not_found"
  read_envelope env (err revision_conflict) = read_error "revision_conflict"
  read_envelope env (err idempotency_conflict) = read_error "idempotency_conflict"
  read_envelope env (err source_unavailable) = read_error "source_unavailable"
  read_envelope env (err storage_error) = read_error "storage_error"
  read_envelope env (err invalid_config) = read_error "invalid_config"
  read_envelope env (err unsupported_schema_version) = read_error "unsupported_schema_version"
  read_envelope env (err unavailable) = read_error "unavailable"
  read_envelope env (err invalid_response) = read_error "invalid_response"
  read_envelope env (err io_error) = read_error "io_error"
  read_envelope env (err invalid_endpoint) = read_error "invalid_endpoint"
  read_envelope env (err unsupported_protocol) = read_error "unsupported_protocol"
  read_envelope env (err unsupported_database_version) = read_error "unsupported_database_version"

  -- A tool call of a client whose connection is open, over a service that answers it by `call_tool`
  -- and a transport that brings the two fields of a result as they are: the client is told what the
  -- store's own run returns, the value or the code of its error, for every tool that is known.
  pub call-told :
      (st : Settings) (p : Value) (name : String) (args : Fields) (s : State)
      (serve : Command → Outcome) (now : ℤ) (client : Client)
      → is_known st.env name ≡ true
      → client.sending ≡ true
      → client.running ≡ true
      → le_int now client.deadline ≡ true
      → serve (tool_command name (obj args))
        ≡ answered carry (call_tool st p name (some args) none s).0
      → (call serve now client name (obj args)).0 ≡ told (run_tool st p name (obj args) none s).0
  unfolding call_tool
  call-told st p name args s serve now client known sending running time served =
      call-read_reply serve now client name (obj args) sending running time
      ∙ ap read_reply served
      ∙ ap (λ (x : ToolReply × State). read_reply (answered carry x.0)) (if_true _ _ _ known)
      ∙ read_envelope st.env (run_tool st p name (obj args) none s).0
