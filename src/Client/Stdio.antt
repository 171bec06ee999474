-- ===== src/Client/Stdio.antt =====
-- The input loop of `stdio` in src/client.rs: lines of standard input become messages for the relay.
pub mod Chunks
pub mod First
use tekes_memory.Prelude.{
  ℕ, ◌+◌, ltb, nat_eq, pos, negsuc, String, List, [], ◌∷◌, ◌++◌, Option, none, some, Bool, true,
  false, not, length, if◌then◌else◌,
}
use tekes_memory.Json.{Value, null, str, int}
use tekes_memory.Json.Access.{index, is_text, is_some}
use tekes_memory.Json.Edit.{object}
use tekes_memory.Common.{
  Env, Result, ok, err, ◌>>=◌, ok_or, Error, invalid_argument, unavailable, io_error,
}
use tekes_memory.Common.Schema.{max_body}
use tekes_memory.Common.Strict.{decode}
use tekes_memory.Common.Envelope.{supported_rpc_id, normalize_initialize}

-- What the reader sends: a message to the relay, or an error to standard output.
pub data Sent : Type 0 where
  forwarded : Value → Sent
  protocol_error : Value → Sent

-- The variables of the reader, what it has sent, and how it has ended. `first` is what the channel of
-- that name has been sent.
pub record Reader : Type 0 where
  pub pending : List ℕ
  pub initialized : Bool
  pub first : Option (Result Bool)
  pub sent : List Sent
  pub ended : Option (Result (Unit {0}))

unfoldable pub new_reader : Reader
new_reader = record { pending = []; initialized = false; first = none; sent = []; ended = none }

-- `first.take()` and its `send`
abbrev or_first : Option (Result Bool) → Result Bool → Option (Result Bool)
or_first none r = some r
or_first (some r) _ = some r

abbrev pub is_none {ℓ} : {A : Type ℓ} → Option A → Bool
is_none o = not (is_some o)

abbrev pub is_empty {ℓ} : {A : Type ℓ} → List A → Bool
is_empty [] = true
is_empty (x ∷ xs) = false

abbrev failed_first : Result (Unit {0}) → Result Bool
failed_first (ok u) = ok false
failed_first (err e) = err e

-- The closure has returned.
abbrev pub end_reader : Result (Unit {0}) → Reader → Reader
end_reader r d = record d { first = or_first d.first (failed_first r); ended = some r }

abbrev pub id_error : Value
id_error = object (
    ("jsonrpc", str "2.0")
    ∷ ("id", null)
    ∷ (
      "error",
      object (
          ("code", int (negsuc 32599))
          ∷ ("message", str "Request id must be a signed 64-bit integer or string")
          ∷ []),
    )
    ∷ [])

-- `first.take()` with `Ok(true)`
abbrev pub announce : Reader → Reader
announce d = record d { first = or_first d.first (ok true) }

-- What is sent goes out where `takes` says so, else the reader ends with the error.
abbrev pub send_out : (List Sent → Sent → Bool) → Sent → Error → Reader → Reader
send_out takes x e d =
    if takes d.sent x
    then record d { pending = []; sent = d.sent ++ x ∷ [] }
    else end_reader (err e) d

abbrev pub is_initialize : Value → Bool
is_initialize v = is_text (index v "method") "initialize"

-- The request of a line.
unfoldable pub accept_request : (List Sent → Sent → Bool) → Value → Reader → Reader
unfolding supported_rpc_id normalize_initialize object
accept_request takes request d =
    if not (supported_rpc_id request)
    then (let d' = send_out takes (protocol_error id_error) unavailable d in
        if is_none d'.ended then announce d' else d')
    else if d.initialized
    then send_out takes (forwarded (normalize_initialize request)) io_error d
    else if is_initialize request
    then send_out takes (forwarded (normalize_initialize request)) io_error
        (announce (record d { initialized = true }))
    else end_reader (err invalid_argument) d

abbrev pub accept_line : (List Sent → Sent → Bool) → Result Value → Reader → Reader
accept_line takes (err e) d = end_reader (err e) d
accept_line takes (ok request) d = accept_request takes request d

-- One read of standard input: it fails, or gives some bytes, none at the end.
pub data Read : Type 0 where
  read_failed : Read
  chunk : List ℕ → Read

abbrev pub at_end : Reader → Reader
at_end d = end_reader (if is_empty d.pending then ok tt else err invalid_argument) d

-- `utf8` is the text of some bytes, if they are UTF-8.
unfoldable pub decode_bytes : Env → (List ℕ → Option String) → List ℕ → Result Value
unfolding decode
decode_bytes env utf8 bytes =
    ok_or (utf8 bytes) invalid_argument >>= λ raw. decode env.parse_tree raw

module _ (env : Env) (utf8 : List ℕ → Option String) (takes : List Sent → Sent → Bool) where
  -- The body of the loop over the bytes, unless the reader has ended.
  unfoldable pub take_byte : ℕ → Reader → Reader
  unfolding accept_request decode_bytes
  take_byte b d =
      let d' = record d { pending = d.pending ++ b ∷ [] } in
      if is_some d.ended
      then d
      else if ltb max_body (length d'.pending)
      then end_reader (err invalid_argument) d'
      else if nat_eq b 10
      then accept_line takes (decode_bytes env utf8 d'.pending) d'
      else d'

  unfoldable pub take_bytes : List ℕ → Reader → Reader
  unfolding take_byte
  take_bytes [] d = d
  take_bytes (b ∷ bs) d = take_bytes bs (take_byte b d)

  unfoldable pub take_reads : List Read → Reader → Reader
  unfolding take_bytes
  take_reads [] d = d
  take_reads (r ∷ rs) d = elim d.ended [
    | some x ↦ d
    | none ↦ elim r [
      | read_failed ↦ end_reader (err io_error) d
      | chunk bs ↦ if is_empty bs then at_end d else take_reads rs (take_bytes bs d)
    ]
  ]
