-- ===== src/Store/Answers.antt =====
-- What the callers of `call_with_effect` of src/store.rs may rely on: one request has one answer.
use tekes_memory.Prelude.{◌≡◌, ◌∙◌, ℤ, String, List, Option, true, false, none, some, ◌==◌}
use tekes_memory.Json.{Value}
use tekes_memory.Json.Access.{index}
use tekes_memory.Common.{ok, err, idempotency_conflict}
use tekes_memory.Common.Access.{text}
use tekes_memory.Store.Exec.{Settings, State}
use tekes_memory.Store.Inversion.{transaction_of_ok, transaction_of_err}
use tekes_memory.Store.Admit.{admit}
use tekes_memory.Store.Call.{write_body, request_digest, call_with_effect}
use tekes_memory.Store.Atomic.{is_write, call_admitted, call_ok}
use tekes_memory.Store.Replay.{operate_ok, operate_again, run-HasAnswer}
use tekes_memory.Store.Keyed.{has_receipt, write_body-HasAnswer, write_body-conflict}
use tekes_memory.Store.History.{Request, run}

-- A write without an effect key that was answered with `r` is answered with `r` again, whatever was
-- called in between, and the repetition changes nothing: if `r` reads back from its canonical form, and the commit of the
-- repetition succeeds.
pub call_again :
    (st : Settings) (p : Value) (name : String) (a r : Value) (s s' : State)
    (history : List Request) (now : ℤ)
    → is_write name ≡ true
    → call_with_effect st p name a none s ≡ (ok r, s')
    → st.env.from_str (st.env.canonical r) ≡ some r
    → call_with_effect (record st { clock = now }) p name a none (run history s')
      ≡ (ok r, run history s')
unfolding write_body
call_again st p name a r s s' history now w h rt =
    let c = call_ok st p name a none s w h in
    let first = operate_ok st p a name s rt c.2 in
    let st' : Settings = record st { clock = now } in
    let again =
      operate_again st' p a name (run history s') r
        (run-HasAnswer st.env p a r name history s' first) in
    call_admitted st' p name a none (run history s') w c.0 ∙ transaction_of_ok st' _ _ _ r c.1 again

-- An idempotency key answers one request: once a write was answered with `r`, the same principal's
-- use of the key in that scope for a write with another digest is an error and changes nothing,
-- whatever was called in between, and whether or not the two calls have effect keys: if `r` reads back
-- from its canonical form, the other request passes the checks of its arguments, and neither call, at
-- its time, has an effect key with a receipt of its own digest.
pub call_conflict :
    (st : Settings) (p : Value) (principal name name' : String) (a a' r : Value)
    (k k' : Option String) (s s' : State) (history : List Request) (now : ℤ)
    → is_write name ≡ true
    → is_write name' ≡ true
    → text p "id" ≡ ok principal
    → has_receipt principal (request_digest st.env name a) k s.db ≡ false
    → call_with_effect st p name a k s ≡ (ok r, s')
    → st.env.from_str (st.env.canonical r) ≡ some r
    → admit st.env p name' a' k' ≡ ok tt
    → st.env.canonical (index a' "scope") ≡ st.env.canonical (index a "scope")
    → text a' "idempotency_key" ≡ text a "idempotency_key"
    → (request_digest st.env name a == request_digest st.env name' a') ≡ false
    → has_receipt principal (request_digest st.env name' a') k' (run history s').db ≡ false
    → call_with_effect (record st { clock = now }) p name' a' k' (run history s')
      ≡ (err idempotency_conflict, run history s')
call_conflict st p principal name name' a a' r k k' s s' history now w w' ep new h rt admitted sc
      key differ new' =
    let c = call_ok st p name a k s w h in
    let first = write_body-HasAnswer st p a name principal ep k s new rt c.2 in
    let st' : Settings = record st { clock = now } in
    let clash =
      write_body-conflict st' p a a' r name name' principal ep sc key differ k' (run history s')
        new' (run-HasAnswer st.env p a r name history s' first) in
    call_admitted st' p name' a' k' (run history s') w' admitted
    ∙ transaction_of_err st' _ _ _ clash
