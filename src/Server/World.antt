-- ===== src/Server/World.antt =====
-- What the requests and the two background tasks of src/server.rs do to the state they share, a step
-- for each stretch that no other request can divide: `handle`, `session_cleanup`.
pub mod Admitted
pub mod Lacking
pub mod Permits
use tekes_memory.Prelude.{
  ℕ, zero, suc, ◌+◌, ◌-◌, ℤ, pos, ◌+ℤ◌, le_int, leb, nat_eq, String, List, [], ◌∷◌, ◌++◌, Option,
  none, some, ◌==◌, Bool, true, false, not, ◌&&◌, ◌||◌, any, select, length, map, if◌then◌else◌,
}
use tekes_memory.Json.{Value}
use tekes_memory.Json.Access.{get, index, as_str, is_text, unwrap_or}
use tekes_memory.Common.{Env, Result}
use tekes_memory.Server.Http.{
  Request, Response, Headers, header, find_header, Verdict, pass, reject, ◌>>=◌, ◌>>◌, reject_if,
  response,
}
use tekes_memory.Server.Auth.{auth}
use tekes_memory.Server.Guard.{
  Session, Sessions, is_session, find_session, check_session, read_message, check_initialized,
  check_room, is_initialize, is_initialized_notice, plain,
}
use tekes_memory.Server.Finish.{Reply, adapt}
use tekes_memory.Server.State.{
  Ticket, Phase, arrived, inspected, dispatched, World, new_world, take_out, go_on, end_with,
  settle, keep_sessions, remove_session, insert_session, mark_initialized, is_opening, is_holder,
}

abbrev pub ticket_message : Env → Request → Verdict (Option Value)
ticket_message env r =
    if r.method == "POST" then (read_message env r >>= λ v. pass (some v)) else pass none

-- The checks up to the message.
unfoldable pub inspect : Env → ℕ → Result Value → ℤ → Sessions → Request → Verdict Ticket
unfolding auth check_session read_message response header find_header
inspect env port config now sessions r = do
  p ← auth env port config r.headers
  reject_if (r.method == "GET") (plain env 405)
  let sid = header r.headers "mcp-session-id"
  check_session env p now sessions sid
  message ← ticket_message env r
  pass (record { principal = p; sid = sid; method = r.method; message = message })

-- An `initialize` that has the gate: it takes a permit, or ends and gives the gate back.
abbrev pub opened : World → List Phase → Ticket → Verdict Value → World × Option Response
opened w rest t (reject r) = end_with w rest r
opened w rest t (pass v) = (
  record w {
    gate = true;
    session_slots = w.session_slots - 1;
    requests = dispatched (record t { message = some v }) ∷ rest;
  },
  none,
)

-- The step of a request whose message is read: `managed` is the number of rmcp's sessions.
unfoldable pub dispatch_message :
    Env → ℕ → World → List Phase → Ticket → Option Value → World × Option Response
unfolding check_room check_initialized
dispatch_message env managed w rest t none = go_on w rest (dispatched t)
dispatch_message env managed w rest t (some v) =
    let opening = opened w rest t (check_room env managed w.session_slots v) in
    let checked = check_initialized env w.sessions t.sid v >>= λ _. pass (dispatched t) in
    if is_initialize v
    then (if w.gate then (record w { requests = inspected t ∷ rest }, none) else opening)
    else settle w rest checked

abbrev pub is_success : ℕ → Bool
is_success status = leb 200 status && leb status 299

abbrev pub is_notice : Option Value → Bool
is_notice none = false
is_notice (some v) = is_initialized_notice v

abbrev header_text : Option (Option String) → Option String
header_text (some (some v)) = some v
header_text _ = none

-- The schema of the configuration requires the identifier.
abbrev new_session : Value → ℤ → Session
new_session p now = record {
  principal = unwrap_or (as_str (index p "id")) "";
  initialized = false;
  expires = now +ℤ pos 3600;
}

-- A permit that no session takes is free again.
abbrev pub bind_session : Ticket → ℤ → Option String → World → World
bind_session t now none w = record w { session_slots = w.session_slots + 1 }
bind_session t now (some sid) w = insert_session sid (new_session t.principal now) w

-- The sessions after an answer of rmcp. A message that opens a session is no notice and no DELETE.
unfoldable pub commit : Ticket → ℤ → Reply → World → World
unfolding is_initialized_notice mark_initialized insert_session remove_session find_header index
    as_str
commit t now reply w =
    if is_opening t.message
    then bind_session t now (header_text (find_header reply.headers "mcp-session-id"))
        (record w { gate = false })
    else if is_notice t.message
    then (if is_success reply.status then mark_initialized t.sid w else w)
    else if t.method == "DELETE"
    then (if is_success reply.status then remove_session t.sid w else w)
    else w

abbrev pub final_reply : Ticket → Reply → Reply
final_reply t reply =
    if t.method == "DELETE" && is_success reply.status then record reply { status = 200 } else reply

abbrev pub release : Ticket → World → World
release t w =
    if is_opening t.message
    then record w { gate = false; session_slots = w.session_slots + 1 }
    else w

abbrev pub verdict_response : Verdict Response → Response
verdict_response (pass r) = r
verdict_response (reject r) = r

-- An answer of rmcp, or its failure.
unfoldable pub answer :
    Env → ℤ → Ticket → Option Reply → World → List Phase → World × Option Response
unfolding commit adapt response
answer env now t none w rest = end_with (release t w) rest (plain env 500)
answer env now t (some reply) w rest =
    end_with (commit t now reply w) rest
      (verdict_response (adapt env t.message (final_reply t reply)))

pub data Event : Type 0 where
  -- a connection
  arrive : Request → Event
  -- the request at a place is checked, with the configuration and the clock of the moment
  inspect_request : ℕ → Result Value → ℤ → Event
  -- its message is dispatched, when rmcp has so many sessions
  dispatch : ℕ → ℕ → Event
  -- rmcp answers it
  answer_request : ℕ → ℤ → Option Reply → Event
  -- the clean-up keeps the sessions that it has seen in rmcp, and closes one
  retain : List String → Event
  close : String → Event

unfoldable pub inspect_phase :
    Env → ℕ → Result Value → ℤ → World → Option (Phase × List Phase) → World × Option Response
unfolding inspect
inspect_phase env port config now w (some (arrived r, rest)) =
    settle w rest (inspect env port config now w.sessions r >>= λ t. pass (inspected t))
inspect_phase env port config now w _ = (w, none)

unfoldable pub dispatch_phase :
    Env → ℕ → World → Option (Phase × List Phase) → World × Option Response
unfolding dispatch_message
dispatch_phase env managed w (some (inspected t, rest)) =
    dispatch_message env managed w rest t t.message
dispatch_phase env managed w _ = (w, none)

unfoldable pub answer_phase :
    Env → ℤ → Option Reply → World → Option (Phase × List Phase) → World × Option Response
unfolding answer
answer_phase env now reply w (some (dispatched t, rest)) = answer env now t reply w rest
answer_phase env now reply w _ = (w, none)

abbrev pub arriving : Env → World → Request → World × Option Response
arriving env w r =
    if nat_eq w.slots 0
    then (w, some (plain env 503))
    else (record w { slots = w.slots - 1; requests = arrived r ∷ w.requests }, none)

-- An event that does not fit the phase of its request does nothing.
unfoldable pub next : Env → ℕ → World → Event → World × Option Response
unfolding inspect_phase dispatch_phase answer_phase take_out keep_sessions remove_session any
    response
next env port w (arrive r) = arriving env w r
next env port w (inspect_request i config now) =
    inspect_phase env port config now w (take_out i w.requests)
next env port w (dispatch i managed) = dispatch_phase env managed w (take_out i w.requests)
next env port w (answer_request i now reply) = answer_phase env now reply w (take_out i w.requests)
next env port w (retain entries) = (keep_sessions (λ x. any (λ id. id == x.0) entries) w, none)
next env port w (close sid) = (remove_session sid w, none)

unfoldable pub run_events : Env → ℕ → World → List Event → World
unfolding next
run_events env port w [] = w
run_events env port w (e ∷ es) = run_events env port (next env port w e).0 es
