-- ===== src/Tests/Service.antt =====
-- The server, its configuration and its client on concrete inputs.
use tekes_memory.Prelude.{
  ◌≡◌, refl, ℕ, ◌+◌, pos, ◌⊎◌, String, List, [], ◌∷◌, Option, none, some, ◌==◌, Bool, true, false,
  select, length, if◌then◌else◌,
}
use tekes_memory.Json.{Value, Fields, int, str, arr, obj, nil, cons, end, field}
use tekes_memory.Common.{Env, Result, ok, err, unavailable}
use tekes_memory.Common.Access.{array}
use tekes_memory.Common.Text.{strip_prefix, unix_lines, split_blank}
use tekes_memory.Config.Tools.{is_listed}
use tekes_memory.Config.Service.{Url, service_config}
use tekes_memory.Config.Service.Sound.{Sound, service_config-Sound}
use tekes_memory.Server.Http.{Headers, Request, header, pass}
use tekes_memory.Server.Auth.{auth, local_host, has_token, principals_of}
use tekes_memory.Server.Auth.Alone.{auth-alone}
use tekes_memory.Server.Finish.{Reply, terminal_of, frame_data, is_answer}
use tekes_memory.Server.Finish.Terminal.{has_data, terminal_of-one}
use tekes_memory.Common.Strict.{decode_response}
use tekes_memory.Server.Tools.{call_tool, run_tool, tool, tool_error}
use tekes_memory.Server.Tools.Denied.{unlisted-denied}
use tekes_memory.Server.State.{Ticket, new_world}
use tekes_memory.Server.World.{
  Event, arrive, inspect_request, dispatch, answer_request, run_events, inspect,
}
use tekes_memory.Server.World.Lacking.{holders}
use tekes_memory.Server.World.Permits.{world-Balanced}
use tekes_memory.Server.World.Admitted.{Holds, inspect-Holds}
use tekes_memory.Client.Endpoint.{Client}
use tekes_memory.Client.Queue.{Command, Outcome, replied, data_reply, failed, request, call}
use tekes_memory.Client.Queue.Lost.{extends, use_all, lost_forever}
use tekes_memory.Client.Call.{answered, told, call-told}
use tekes_memory.Client.Stdio.{Sent, chunk, new_reader, take_reads, take_bytes, is_initialize}
use tekes_memory.Client.Stdio.First.{opens_with_initialize}
use tekes_memory.Client.Stdio.Chunks.{bytes_of, reads_of, finish, take_reads-bytes}
use tekes_memory.Tests.Fixture.{env, settings, start, principal, scope}

-- A principal with a token.
abbrev account : Value
account = obj (
    field "id" (str "alice") (
      field "owner_id" (str "o1")
        (field "scopes" (arr (cons scope nil)) (field "token_sha256" (str "secret") end))))

abbrev config : Value
config = obj (
    field "allowed_origins" (arr nil)
      (field "data_directory" (str "/d") (field "principals" (arr (cons account nil)) end)))

abbrev opening_message : Value
opening_message = obj (field "id" (int (pos 1)) (field "method" (str "initialize") end))

-- The text `{}` stands for the message above.
abbrev service_env : Env
service_env = record env { parse_tree = λ s. if s == "{}" then some opening_message else none }

abbrev no_url : String → Option Url
no_url s = none

abbrev headers : Headers
headers =
    ("host", some "localhost:7")
    ∷ ("authorization", some "Bearer secret")
    ∷ ("content-type", some "application/json; charset=utf-8")
    ∷ ("accept", some "application/json, text/event-stream")
    ∷ ("content-length", some "2")
    ∷ []

abbrev opening : Request
opening = record { method = "POST"; headers = headers; body = some "{}" }

abbrev ticket : Ticket
ticket = record { principal = account; sid = ""; method = "POST"; message = some opening_message }

abbrev accepted : Reply
accepted = record { status = 200; headers = ("mcp-session-id", some "s1") ∷ []; body = some "" }

abbrev events : List Event
events =
    arrive opening
    ∷ inspect_request 0 (service_config service_env no_url (ok config)) (pos 5)
    ∷ dispatch 0 0
    ∷ answer_request 0 (pos 6) (some accepted)
    ∷ []

config_accepted : service_config service_env no_url (ok config) ≡ ok config
unfolding service_config tekes_memory.Common.Schema.check_head tekes_memory.Common.Schema.has_type
    tekes_memory.Common.Schema.type_of tekes_memory.Common.Schema.in_enum
    tekes_memory.Common.Schema.check_const tekes_memory.Common.Schema.check_required
    tekes_memory.Json.json_eq tekes_memory.Json.Access.as_object
    tekes_memory.Common.Authorize.same_set tekes_memory.Common.Authorize.keys_of
    tekes_memory.Common.Authorize.set_insert tekes_memory.Common.Authorize.scope_keys
    tekes_memory.Common.Authorize.covers
config_accepted = refl

authenticated :
    auth service_env 7 (service_config service_env no_url (ok config)) headers ≡ pass account
unfolding inspect auth service_config tekes_memory.Common.Schema.check_head
    tekes_memory.Common.Schema.has_type tekes_memory.Common.Schema.type_of
    tekes_memory.Common.Schema.in_enum tekes_memory.Common.Schema.check_const
    tekes_memory.Common.Schema.check_required tekes_memory.Json.json_eq
    tekes_memory.Json.Access.as_object tekes_memory.Common.Authorize.same_set
    tekes_memory.Common.Authorize.keys_of tekes_memory.Common.Authorize.set_insert
    tekes_memory.Common.Authorize.scope_keys tekes_memory.Common.Authorize.covers
authenticated = refl

inspected_ticket :
    inspect service_env 7 (service_config service_env no_url (ok config)) (pos 5) [] opening
    ≡ pass ticket
unfolding inspect service_config tekes_memory.Common.Schema.check_head
    tekes_memory.Common.Schema.has_type tekes_memory.Common.Schema.type_of
    tekes_memory.Common.Schema.in_enum tekes_memory.Common.Schema.check_const
    tekes_memory.Common.Schema.check_required tekes_memory.Json.json_eq
    tekes_memory.Json.Access.as_object tekes_memory.Common.Authorize.same_set
    tekes_memory.Common.Authorize.keys_of tekes_memory.Common.Authorize.set_insert
    tekes_memory.Common.Authorize.scope_keys tekes_memory.Common.Authorize.covers
inspected_ticket = refl

one_session : length (run_events service_env 7 new_world events).sessions ≡ 1
unfolding run_events new_world service_config tekes_memory.Common.Schema.check_head
    tekes_memory.Common.Schema.has_type tekes_memory.Common.Schema.type_of
    tekes_memory.Common.Schema.in_enum tekes_memory.Common.Schema.check_const
    tekes_memory.Common.Schema.check_required tekes_memory.Json.json_eq
    tekes_memory.Json.Access.as_object tekes_memory.Common.Authorize.same_set
    tekes_memory.Common.Authorize.keys_of tekes_memory.Common.Authorize.set_insert
    tekes_memory.Common.Authorize.scope_keys tekes_memory.Common.Authorize.covers
one_session = refl

world_example :
    let w = run_events service_env 7 new_world events in
    (w.slots + length w.requests ≡ 32)
    × (w.session_slots + length w.sessions + holders w.requests ≡ 1024)
    × (holders w.requests ≡ (if w.gate then 1 else 0))
world_example = world-Balanced service_env 7 events

config_example : (ok config ≡ ok config) × Sound config
config_example = service_config-Sound service_env no_url (ok config) config config_accepted

alone_example :
    (local_host service_env 7 (header headers "host") ≡ true)
    × ((c : Value) × (ok config ≡ ok c)
        × Sound c
        × ((token : String) × (strip_prefix "Bearer " (header headers "authorization") ≡ some token)
            × (select (has_token (service_env.hash token)) (principals_of c) ≡ account ∷ [])))
alone_example = auth-alone service_env 7 no_url (ok config) headers account authenticated

inspect_example :
    (auth service_env 7 (service_config service_env no_url (ok config)) headers ≡ pass account)
    × ((ticket.method ≡ opening.method) × ((opening.method == "GET") ≡ false))
    × (ticket.sid ≡ header opening.headers "mcp-session-id")
    × ((header opening.headers "mcp-session-id" ≡ "")
        ⊎ Holds account (pos 5) [] (header opening.headers "mcp-session-id"))
inspect_example =
    inspect-Holds service_env 7 (service_config service_env no_url (ok config)) (pos 5) [] opening
      ticket inspected_ticket

abbrev effect_key : String
effect_key = "0123456789abcdef0123456789abcdef0123456789abcdef0123456789abcdef"

denied_example :
    call_tool settings principal "memory.forget" (some end) (some effect_key) start
    ≡ (tool (tool_error "scope_denied"), start)
unfolding is_listed array tekes_memory.Json.json_eq tekes_memory.Store.Admit.all_hex
    tekes_memory.Store.Admit.valid_effect_key
denied_example =
    unlisted-denied settings principal "memory.forget"
      (str "memory.save" ∷ str "memory.status" ∷ []) (some end) (some effect_key) start refl refl
      refl refl

abbrev client : Client
client = record { sending = true; running = true; deadline = pos 9 }

abbrev ping : Command
ping = record { method = "ping"; params = obj end; notification = false }

abbrev answers : Command → Outcome
answers m = replied (data_reply (obj end))

-- The reactor fails, and the deadline is extended.
lost_example :
    (request answers
      (pos 7)
      (use_all (request (λ m. failed) (pos 5) client ping).1 (extends (pos 6) (pos 9) ∷ []))
      ping).0
    ≡ err unavailable
unfolding request
lost_example =
    lost_forever (λ m. failed) answers (pos 5) (pos 7) client ping ping
      (extends (pos 6) (pos 9) ∷ []) refl refl

abbrev status_args : Fields
status_args = field "operation_id" (str "3") end

abbrev service : Command → Outcome
service m =
    answered (λ v. v) (call_tool settings principal "memory.status" (some status_args) none start).0

told_example :
    (call service (pos 5) client "memory.status" (obj status_args)).0
    ≡ told (run_tool settings principal "memory.status" (obj status_args) none start).0
told_example =
    call-told (λ v. v) (record { keeps_flag = λ v. refl; keeps_content = λ v. refl }) settings
      principal "memory.status" status_args start service (pos 5) client refl refl refl refl refl

abbrev text_of : List ℕ → Option String
text_of bytes = some "{}"

abbrev open_pipes : List Sent → Sent → Bool
open_pipes sent x = true

-- The text of `text_of`, ended by a line feed.
first_example : is_initialize opening_message ≡ true
unfolding take_reads new_reader tekes_memory.Json.Access.is_text
first_example =
    opens_with_initialize service_env text_of open_pipes
      (chunk (123 ∷ []) ∷ chunk (125 ∷ 10 ∷ []) ∷ []) opening_message refl

chunks_example :
    take_reads service_env text_of open_pipes
      (reads_of ((123, []) ∷ (125, 10 ∷ []) ∷ []))
      new_reader
    ≡ finish (
        take_bytes service_env text_of open_pipes
          (bytes_of ((123, []) ∷ (125, 10 ∷ []) ∷ []))
          new_reader)
chunks_example =
    take_reads-bytes service_env text_of open_pipes ((123, []) ∷ (125, 10 ∷ []) ∷ []) new_reader

abbrev result_message : Value
result_message = obj (field "id" (int (pos 1)) (field "result" (obj end) end))

abbrev stream_env : Env
stream_env = record env { parse_tree = λ s. if s == "{}" then some result_message else none }

abbrev stream : String
stream = "event: message\r\ndata: {}\r\n\r\n"

stream_example :
    (f : String) × (select has_data (split_blank (unix_lines stream)) ≡ f ∷ [])
    × ((decode_response stream_env.parse_tree (frame_data f) ≡ ok result_message)
        × (is_answer opening_message result_message ≡ true))
unfolding terminal_of tekes_memory.Json.Edit.insert_field tekes_memory.Json.json_eq
stream_example = terminal_of-one stream_env opening_message stream result_message refl
