-- ===== src/Server/World/Permits.antt =====
-- The semaphores and the gate of src/server.rs are in balance with the requests and the sessions.
use tekes_memory.Prelude.{
  ◌≡◌, refl, subst, ◌∙◌, ℕ, ◌+◌, ◌≤◌, ℤ, leb, nat_eq, List, [], ◌∷◌, Option, none, some, Bool, true,
  false, length, arith, if◌then◌else◌,
}
use tekes_memory.Json.{Value}
use tekes_memory.Common.{Env, Result}
use tekes_memory.Server.Http.{
  Request, Response, Verdict, pass, reject, ◌>>=◌, pass-injective, reject_if-pass, bind-pass,
}
use tekes_memory.Server.Guard.{is_initialize, check_room, check_initialized, plain}
use tekes_memory.Server.Finish.{Reply, adapt}
use tekes_memory.Server.State.{
  World, Phase, arrived, inspected, dispatched, Ticket, new_world, settle, is_holder,
  remove_session,
}
use tekes_memory.Server.World.{
  final_reply, verdict_response, Event, arrive, inspect_request, dispatch, answer_request, retain,
  close, arriving, opened, commit, release, answer, inspect, inspect_phase, dispatch_phase,
  dispatch_message, answer_phase, next, run_events,
}
use tekes_memory.Common.Envelope.Method.{normalize_initialize-method}
use tekes_memory.Server.World.Lacking.{
  Taken, take_out-Taken, Lacking, Balanced-Lacking, keep_sessions-Balanced, release-Lacking,
  commit-Lacking, end_with-Balanced, go_on-Balanced, settle-Balanced, holders, Balanced,
}

answer-Balanced :
    (env : Env) (now : ℤ) (t : Ticket) (o : Option Reply) (w : World) (rest : List Phase)
    → Lacking (is_holder (dispatched t)) w rest
    → Balanced (answer env now t o w rest).0
unfolding answer
answer-Balanced env now t none w rest h =
    end_with-Balanced (release t w) rest (plain env 500) (release-Lacking t _ w rest refl h)
answer-Balanced env now t (some reply) w rest h =
    end_with-Balanced (commit t now reply w) rest
      (verdict_response (adapt env t.message (final_reply t reply)))
      (commit-Lacking t now reply _ w rest refl h)

check_room-initialize :
    (env : Env) (managed free : ℕ) (v v' : Value)
    → check_room env managed free v ≡ pass v'
    → (is_initialize v' ≡ is_initialize v) × (nat_eq free 0 ≡ false)
unfolding check_room
check_room-initialize env managed free v v' h =
    let (room, h1) = reject_if-pass (leb 1024 managed) _ _ v' h in
    let (free_slot, h2) = reject_if-pass (nat_eq free 0) _ _ v' h1 in
    (
      subst (λ x. is_initialize x ≡ is_initialize v) (pass-injective _ _ h2)
          (normalize_initialize-method v),
      free_slot,
    )

opened-Balanced :
    (w : World) (rest : List Phase) (t : Ticket) (v : Verdict Value)
    → Lacking false w rest
    → w.gate ≡ false
    → ((v' : Value) → v ≡ pass v' → (is_initialize v' ≡ true) × (nat_eq w.session_slots 0 ≡ false))
    → Balanced (opened w rest t v).0
opened-Balanced w rest t (reject r) h g k = end_with-Balanced w rest r h
opened-Balanced w rest t (pass v) h g k =
    let (init, room) = k v refl in
    record {
      slots_counted = h.slots_left;
      permits_counted = rw init (ground (arith, h.permits_left));
      one_gate = rw init (ground (arith, h.gate_left));
    }

dispatch_other :
    (env : Env) (w : World) (rest : List Phase) (t : Ticket) (v : Value)
    → t.message ≡ some v
    → is_initialize v ≡ false
    → Lacking false w rest
    → Balanced
        (settle w rest (check_initialized env w.sessions t.sid v >>= λ _. pass (dispatched t))).0
dispatch_other env w rest t v e other h = settle-Balanced w rest _ h (λ f p.
    let (u, q, q1) = bind-pass (check_initialized env w.sessions t.sid v) _ f p in
    subst (λ g. is_holder g ≡ false) (pass-injective _ _ q1) (rw (e, other) refl))

if-Balanced :
    (b : Bool) (x y : World × Option Response)
    → (b ≡ true → Balanced x.0)
    → (b ≡ false → Balanced y.0)
    → Balanced (if b then x else y).0
if-Balanced true x y h k = h refl
if-Balanced false x y h k = k refl

dispatch_message-Balanced :
    (env : Env) (managed : ℕ) (w : World) (rest : List Phase) (t : Ticket) (o : Option Value)
    → t.message ≡ o
    → Lacking false w rest
    → Balanced (dispatch_message env managed w rest t o).0
unfolding dispatch_message
dispatch_message-Balanced env managed w rest t none e h =
    go_on-Balanced w rest (dispatched t) (rw e h)
dispatch_message-Balanced env managed w rest t (some v) e h =
    if-Balanced (is_initialize v) _ _
      (λ init.
        if-Balanced w.gate _ _ (λ held. go_on-Balanced w rest (inspected t) h)
          (λ free. opened-Balanced w rest t _ h free (λ v' p.
            let (i, room) = check_room-initialize env managed w.session_slots v v' p in
            (i ∙ init, room))))
      (λ other. dispatch_other env w rest t v e other h)

inspect_phase-Balanced :
    (env : Env) (port : ℕ) (config : Result Value) (now : ℤ) (w : World)
    (o : Option (Phase × List Phase))
    → Balanced w
    → Taken w.requests o
    → Balanced (inspect_phase env port config now w o).0
unfolding inspect_phase
inspect_phase-Balanced env port config now w (some (arrived r, rest)) h k =
    settle-Balanced w rest _ (Balanced-Lacking w (arrived r) rest h k) (λ f p.
      let (t, q, q1) = bind-pass (inspect env port config now w.sessions r) _ f p in
      subst (λ g. is_holder g ≡ false) (pass-injective _ _ q1) refl)
inspect_phase-Balanced env port config now w (some (inspected t, rest)) h k = h
inspect_phase-Balanced env port config now w (some (dispatched t, rest)) h k = h
inspect_phase-Balanced env port config now w none h k = h

dispatch_phase-Balanced :
    (env : Env) (managed : ℕ) (w : World) (o : Option (Phase × List Phase))
    → Balanced w
    → Taken w.requests o
    → Balanced (dispatch_phase env managed w o).0
unfolding dispatch_phase
dispatch_phase-Balanced env managed w (some (inspected t, rest)) h k =
    dispatch_message-Balanced env managed w rest t t.message refl
      (Balanced-Lacking w (inspected t) rest h k)
dispatch_phase-Balanced env managed w (some (arrived r, rest)) h k = h
dispatch_phase-Balanced env managed w (some (dispatched t, rest)) h k = h
dispatch_phase-Balanced env managed w none h k = h

answer_phase-Balanced :
    (env : Env) (now : ℤ) (reply : Option Reply) (w : World) (o : Option (Phase × List Phase))
    → Balanced w
    → Taken w.requests o
    → Balanced (answer_phase env now reply w o).0
unfolding answer_phase
answer_phase-Balanced env now reply w (some (dispatched t, rest)) h k =
    answer-Balanced env now t reply w rest (Balanced-Lacking w (dispatched t) rest h k)
answer_phase-Balanced env now reply w (some (arrived r, rest)) h k = h
answer_phase-Balanced env now reply w (some (inspected t, rest)) h k = h
answer_phase-Balanced env now reply w none h k = h

arriving-Balanced :
    (env : Env) (w : World) (r : Request) → Balanced w → Balanced (arriving env w r).0
arriving-Balanced env w r h =
    if-Balanced (nat_eq w.slots 0) _ _ (λ full. h)
      (λ e. record {
        slots_counted = ground (arith, h.slots_counted, e);
        permits_counted = omega (arith, h.permits_counted);
        one_gate = omega (arith, h.one_gate);
      })

next-Balanced :
    (env : Env) (port : ℕ) (w : World) (e : Event) → Balanced w → Balanced (next env port w e).0
unfolding next remove_session
next-Balanced env port w (arrive r) h = arriving-Balanced env w r h
next-Balanced env port w (inspect_request i config now) h =
    inspect_phase-Balanced env port config now w _ h (take_out-Taken i w.requests)
next-Balanced env port w (dispatch i managed) h =
    dispatch_phase-Balanced env managed w _ h (take_out-Taken i w.requests)
next-Balanced env port w (answer_request i now reply) h =
    answer_phase-Balanced env now reply w _ h (take_out-Taken i w.requests)
next-Balanced env port w (retain entries) h = keep_sessions-Balanced _ w h
next-Balanced env port w (close sid) h = keep_sessions-Balanced _ w h

run_events-Balanced :
    (env : Env) (port : ℕ) (w : World) (es : List Event)
    → Balanced w
    → Balanced (run_events env port w es)
unfolding run_events
run_events-Balanced env port w [] h = h
run_events-Balanced env port w (e ∷ es) h =
    run_events-Balanced env port (next env port w e).0 es (next-Balanced env port w e h)

new_world-Balanced : Balanced new_world
unfolding new_world
new_world-Balanced = record { slots_counted = refl; permits_counted = refl; one_gate = refl }

gate_bound : (b : Bool) (n : ℕ) → n ≡ (if b then 1 else 0) → n ≤ 1
gate_bound true n h = omega (arith, h)
gate_bound false n h = omega (arith, h)

-- After every sequence of events from the start of the server, whatever rmcp answers and whenever the
-- clean-up runs, no slot and no permit is lost or used twice: the free slots and the requests are 32
-- together; the free permits, the sessions and the openings with rmcp are 1024 together; and at most
-- one opening is with rmcp, which is so exactly while the gate is held.
pub world-Balanced :
    (env : Env) (port : ℕ) (events : List Event)
    → let w = run_events env port new_world events in
      (w.slots + length w.requests ≡ 32)
      × (w.session_slots + length w.sessions + holders w.requests ≡ 1024)
      × (holders w.requests ≡ (if w.gate then 1 else 0))
world-Balanced env port events =
    let h = run_events-Balanced env port new_world events new_world-Balanced in
    (h.slots_counted, h.permits_counted, h.one_gate)
