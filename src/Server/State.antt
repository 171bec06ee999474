-- ===== src/Server/State.antt =====
-- The state that the requests of src/server.rs share: the semaphores, the gate and the session table.
use tekes_memory.Prelude.{
  ℕ, zero, suc, ◌+◌, String, List, [], ◌∷◌, ◌++◌, Option, none, some, Bool, true, false, not,
  select, length, map, if◌then◌else◌,
}
use tekes_memory.Json.{Value}
use tekes_memory.Server.Http.{Request, Response, Verdict, pass, reject}
use tekes_memory.Server.Guard.{Session, Sessions, is_session, is_initialize}

-- A request that has passed the checks of its principal: its message, if it is a POST.
pub record Ticket : Type 0 where
  pub principal : Value
  pub sid : String
  pub method : String
  pub message : Option Value

-- Where a request stands that holds one of the 32 slots.
pub data Phase : Type 0 where
  arrived : Request → Phase
  -- its message is read; an `initialize` waits for the gate
  inspected : Ticket → Phase
  -- it is with rmcp; an `initialize` has the gate and the permit of a session
  dispatched : Ticket → Phase

-- `Inner` and `HttpState`: the free slots and session permits of the semaphores, and the gate.
pub record World : Type 0 where
  pub slots : ℕ
  pub gate : Bool
  pub session_slots : ℕ
  pub sessions : Sessions
  pub requests : List Phase

unfoldable pub new_world : World
new_world = record { slots = 32; gate = false; session_slots = 1024; sessions = []; requests = [] }

-- The request at a place, and the others.
unfoldable pub take_out {ℓ} : {A : Type ℓ} → ℕ → List A → Option (A × List A)
take_out n [] = none
take_out zero (x ∷ xs) = some (x, xs)
take_out (suc n) (x ∷ xs) = elim (take_out n xs) [
  | none ↦ none
  | some found ↦ some (found.0, x ∷ found.1)
]

-- The request goes on in another phase, or ends with a response and gives its slot back.
abbrev pub go_on : World → List Phase → Phase → World × Option Response
go_on w rest f = (record w { requests = f ∷ rest }, none)

abbrev pub end_with : World → List Phase → Response → World × Option Response
end_with w rest r = (record w { slots = w.slots + 1; requests = rest }, some r)

abbrev pub settle : World → List Phase → Verdict Phase → World × Option Response
settle w rest (reject r) = end_with w rest r
settle w rest (pass f) = go_on w rest f

-- The sessions that satisfy the test stay; the permits of the others are free again.
unfoldable pub keep_sessions : (String × Session → Bool) → World → World
unfolding select
keep_sessions f w = record w {
  sessions = select f w.sessions;
  session_slots = w.session_slots + length (select (λ x. not (f x)) w.sessions);
}

unfoldable pub remove_session : String → World → World
unfolding keep_sessions
remove_session sid w = keep_sessions (λ x. not (is_session sid x)) w

-- `HashMap::insert`
unfoldable pub insert_session : String → Session → World → World
unfolding remove_session
insert_session sid s w =
    let w' = remove_session sid w in record w' { sessions = w'.sessions ++ (sid, s) ∷ [] }

-- `get_mut(&sid)`, if it is there
unfoldable pub mark_initialized : String → World → World
mark_initialized sid w = record w {
  sessions =
      map (λ x. if is_session sid x then (x.0, record (x.1) { initialized = true }) else x)
        w.sessions;
}

abbrev pub is_opening : Option Value → Bool
is_opening none = false
is_opening (some v) = is_initialize v

-- Whether the request has the gate and a permit.
abbrev pub is_holder : Phase → Bool
is_holder (dispatched t) = is_opening t.message
is_holder _ = false
