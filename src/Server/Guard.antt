-- ===== src/Server/Guard.antt =====
-- `handle` of src/server.rs up to the dispatch: the checks of a request.
use Prim.Native.String.{len}
use tekes_memory.Prelude.{
  ℕ, ℤ, negsuc, le_int, leb, ltb, nat_eq, String, List, Option, none, some, ◌==◌, Bool, false, not,
  ◌&&◌, ◌||◌, find_first, if◌then◌else◌,
}
use tekes_memory.Json.{Value, null}
use tekes_memory.Json.Access.{get, index, is_some, is_text}
use tekes_memory.Common.{Env, Result, ok, err}
use tekes_memory.Common.Schema.{max_body}
use tekes_memory.Common.Strict.{decode}
use tekes_memory.Common.Envelope.{supported_rpc_id, normalize_initialize}
use tekes_memory.Common.Text.{before_semicolon, trim_start, trim_end, contains_text, parse_usize}
use tekes_memory.Server.Http.{
  Headers, find_header, header, Request, Response, response, rpc_error, Verdict, pass, reject,
  ◌>>=◌, ◌>>◌, reject_if, need,
}

-- `Session`; its permit is counted by `World`.
pub record Session : Type 0 where
  pub principal : String
  pub initialized : Bool
  pub expires : ℤ

-- `HashMap<String, Session>`, each id at most once
abbrev pub Sessions : Type 0
Sessions = List (String × Session)

abbrev pub is_session : String → String × Session → Bool
is_session sid (id, s) = id == sid

abbrev entry_session : Option (String × Session) → Option Session
entry_session none = none
entry_session (some (id, s)) = some s

unfoldable pub find_session : Sessions → String → Option Session
unfolding find_first
find_session sessions sid = entry_session (find_first (is_session sid) sessions)

abbrev pub plain : Env → ℕ → Response
plain env code = response env code none none

-- Whether the session is the principal's, and lasts.
unfoldable pub owns_session : Value → ℤ → Option Session → Bool
unfolding is_text index
owns_session p now none = false
owns_session p now (some s) = is_text (index p "id") s.principal && not (le_int s.expires now)

-- A request that names a session names one of its own.
unfoldable pub check_session : Env → Value → ℤ → Sessions → String → Verdict (Unit {0})
unfolding owns_session find_session
check_session env p now sessions sid =
    reject_if (not (sid == "") && not (owns_session p now (find_session sessions sid)))
      (plain env 404)

abbrev protocol : String
protocol = "2025-11-25"

-- The media types and the framing of a POST: the length that it announces.
unfoldable pub check_headers : Env → Headers → Verdict ℕ
unfolding header find_header before_semicolon trim_start trim_end parse_usize
check_headers env h = do
  reject_if
      (not
        (trim_end (trim_start (before_semicolon (header h "content-type"))) == "application/json"))
      (plain env 415)
  reject_if
      (not (contains_text (header h "accept") "application/json")
        || not (contains_text (header h "accept") "text/event-stream"))
      (plain env 406)
  reject_if (is_some (find_header h "transfer-encoding")) (plain env 400)
  length ← need (parse_usize (header h "content-length")) (plain env 400)
  reject_if (nat_eq length 0 || ltb max_body length) (plain env 413)
  let version = header h "mcp-protocol-version"
  reject_if (not (version == "") && not (version == protocol)) (plain env 400)
  pass length

abbrev parsed : Env → Result Value → Verdict Value
parsed env (ok v) = pass v
parsed env (err e) =
    reject (response env 400 (some (rpc_error null (negsuc 32699) "Parse error")) none)

-- The message of a POST.
unfoldable pub read_message : Env → Request → Verdict Value
unfolding check_headers decode supported_rpc_id response rpc_error
read_message env r = do
  length ← check_headers env r.headers
  raw ← need r.body (plain env 400)
  reject_if (not (nat_eq (len raw) length)) (plain env 400)
  value ← parsed env (decode env.parse_tree raw)
  reject_if (not (supported_rpc_id value)) (
      response env 200
        (some
          (rpc_error null (negsuc 32599) "Request id must be a signed 64-bit integer or string"))
        none)
  pass value

abbrev pub is_initialize : Value → Bool
is_initialize v = is_text (index v "method") "initialize"

-- The notification that ends the initialization.
unfoldable pub is_initialized_notice : Value → Bool
unfolding is_text index get
is_initialized_notice v =
    is_text (index v "method") "notifications/initialized" && not (is_some (get "id" v))

-- A message that is no `initialize` needs a session that is initialized, or initializes it.
unfoldable pub check_initialized : Env → Sessions → String → Value → Verdict (Unit {0})
unfolding is_initialized_notice find_session
check_initialized env sessions sid value = elim (find_session sessions sid) [
  | none ↦ reject (plain env (if sid == "" then 400 else 404))
  | some s ↦ reject_if (not (is_initialized_notice value) && not s.initialized) (plain env 400)
]

-- A session is opened if rmcp and the service have room.
unfoldable pub check_room : Env → ℕ → ℕ → Value → Verdict Value
unfolding normalize_initialize
check_room env managed free value = do
  reject_if (leb 1024 managed) (plain env 503)
  reject_if (nat_eq free 0) (plain env 503)
  pass (normalize_initialize value)
