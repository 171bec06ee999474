-- ===== src/Server/World/Admitted.antt =====
-- What the requests satisfy that `handle` of src/server.rs passes to rmcp.
use tekes_memory.Prelude.{
  ◌≡◌, refl, subst, ℕ, ℤ, le_int, String, Option, none, some, ◌==◌, eq_iff, Bool, true, false, not,
  ◌&&◌, ◌⊎◌, inl, inr, Bool-cases, arith,
}
use tekes_memory.Json.{Value}
use tekes_memory.Json.Access.{index, is_text, get}
use tekes_memory.Common.{Env, Result}
use tekes_memory.Server.Http.{
  Request, Response, header, pass, reject_if, pass-injective, reject_if-pass, bind-pass, then-pass,
}
use tekes_memory.Server.Auth.{auth}
use tekes_memory.Server.Guard.{Session, Sessions, find_session, owns_session, check_session}
use tekes_memory.Server.State.{Ticket}
use tekes_memory.Server.World.{inspect, ticket_message}

-- A session of the principal that lasts.
pub record Holds (p : Value) (now : ℤ) (sessions : Sessions) (sid : String) : Type 0 where
  pub session : Session
  pub found : find_session sessions sid ≡ some session
  pub owned : is_text (index p "id") session.principal ≡ true
  pub lasting : le_int session.expires now ≡ false

owns-Holds :
    (p : Value) (now : ℤ) (sessions : Sessions) (sid : String) (o : Option Session)
    → find_session sessions sid ≡ o
    → owns_session p now o ≡ true
    → Holds p now sessions sid
unfolding owns_session
owns-Holds p now sessions sid none e h = absurd (cc)
owns-Holds p now sessions sid (some s) e h = record {
  session = s;
  found = e;
  owned = ground arith;
  lasting = ground arith;
}

not_rejected : (b : Bool) (r : Response) → reject_if b r ≡ pass tt → b ≡ false
not_rejected false r h = refl
not_rejected true r h = absurd (cc)

owned_of : (a b : Bool) → a ≡ false → (not a && not b) ≡ false → b ≡ true
owned_of a true h k = refl
owned_of false false h k = absurd (cc)
owned_of true false h k = absurd (cc)

check_session-Holds :
    (env : Env) (p : Value) (now : ℤ) (sessions : Sessions) (sid : String)
    → check_session env p now sessions sid ≡ pass tt
    → (sid ≡ "") ⊎ Holds p now sessions sid
unfolding check_session
check_session-Holds env p now sessions sid h = elim (Bool-cases (sid == "")) [
  | inl none_named ↦ inl ((eq_iff sid "").0 none_named)
  | inr named ↦ inr (
      owns-Holds p now sessions sid _ refl (
        let k = not_rejected _ _ h in
        owned_of (sid == "") (owns_session p now (find_session sessions sid)) named k))
]

-- A request that goes on is that of a principal whom `auth` lets in, is no GET, and its header
-- `mcp-session-id`, which is the session of its ticket, reads as empty or names a session of this
-- principal that lasts.
pub inspect-Holds :
    (env : Env) (port : ℕ) (config : Result Value) (now : ℤ) (sessions : Sessions) (r : Request)
    (t : Ticket)
    → inspect env port config now sessions r ≡ pass t
    → (auth env port config r.headers ≡ pass t.principal)
      × ((t.method ≡ r.method) × ((r.method == "GET") ≡ false))
      × (t.sid ≡ header r.headers "mcp-session-id")
      × ((header r.headers "mcp-session-id" ≡ "")
          ⊎ Holds t.principal now sessions (header r.headers "mcp-session-id"))
unfolding inspect
inspect-Holds env port config now sessions r t h =
    let sid = header r.headers "mcp-session-id" in
    let (p, e1, h1) = bind-pass (auth env port config r.headers) _ t h in
    let (get, h2) = reject_if-pass (r.method == "GET") _ _ t h1 in
    let (owned, h3) = then-pass (check_session env p now sessions sid) _ t h2 in
    let (message, e4, h4) = bind-pass (ticket_message env r) _ t h3 in
    let same = pass-injective _ t h4 in
    subst
      (λ (x : Ticket).
        (auth env port config r.headers ≡ pass x.principal)
        × ((x.method ≡ r.method) × ((r.method == "GET") ≡ false))
        × (x.sid ≡ sid)
        × ((sid ≡ "") ⊎ Holds x.principal now sessions sid))
      same (e1, (refl, get), refl, check_session-Holds env p now sessions sid owned)
