-- ===== src/Server/Finish.antt =====
-- `handle` of src/server.rs after the dispatch: the response of rmcp is made one JSON document.
pub mod Terminal
use tekes_memory.Prelude.{
  ℕ, String, List, [], ◌∷◌, ◌++◌, Option, none, some, ◌==◌, Bool, true, false, not, ◌&&◌, ◌||◌,
  select, if◌then◌else◌,
}
use package.text.Mathlib.Text.{starts_with}
use tekes_memory.Json.{Value, json_eq}
use tekes_memory.Json.Access.{get, is_some}
use tekes_memory.Common.{Env, Result, ok, err}
use tekes_memory.Common.Strict.{decode_response}
use tekes_memory.Common.Text.{strip_prefix, trim_start, unix_lines, split_blank, lines}
use tekes_memory.Store.Words.{join}
use tekes_memory.Server.Http.{
  Headers, header, find_header, Response, response, Verdict, pass, reject, ◌>>=◌, ◌>>◌, reject_if,
  need,
}
use tekes_memory.Server.Guard.{plain}

-- What rmcp answers; the body is none where it does not arrive in time or exceeds the bound.
pub record Reply : Type 0 where
  pub status : ℕ
  pub headers : Headers
  pub body : Option String

-- The texts after `data:` in the lines of a frame.
unfoldable pub data_lines : List String → List String
unfolding strip_prefix trim_start
data_lines [] = []
data_lines (l ∷ ls) = elim (strip_prefix "data:" l) [
  | none ↦ data_lines ls
  | some d ↦ trim_start d ∷ data_lines ls
]

unfoldable pub frame_data : String → String
unfolding data_lines lines join
frame_data frame = join "\n" (data_lines (lines frame))

abbrev pub same_value : Option Value → Option Value → Bool
same_value none none = true
same_value (some a) (some b) = json_eq a b
same_value _ _ = false

-- Whether a message is the answer to a request.
unfoldable pub is_answer : Value → Value → Bool
unfolding get
is_answer request value =
    same_value (get "id" value) (get "id" request)
    && (is_some (get "result" value) || is_some (get "error" value))

abbrev pub decoded : Env → Result Value → Verdict Value
decoded env (ok v) = pass v
decoded env (err e) = reject (plain env 500)

-- The body of the loop for a frame with data: `terminal` is the answer that was found before.
unfoldable pub read_frame : Env → Value → String → Option Value → Verdict (Option Value)
unfolding decode_response is_answer
read_frame env request data' terminal = do
  value ← decoded env (decode_response env.parse_tree data')
  reject_if (not (is_answer request value)) (plain env 500)
  reject_if (is_some terminal) (plain env 500)
  pass (some value)

unfoldable pub read_frames : Env → Value → List String → Option Value → Verdict (Option Value)
unfolding frame_data read_frame
read_frames env request [] terminal = pass terminal
read_frames env request (f ∷ fs) terminal =
    let rest = λ (t : Option Value). read_frames env request fs t in
    if frame_data f == ""
    then rest terminal
    else (read_frame env request (frame_data f) terminal >>= rest)

-- The one answer in a stream of events.
unfoldable pub terminal_of : Env → Value → String → Verdict Value
unfolding unix_lines split_blank read_frames
terminal_of env request raw = do
  terminal ← read_frames env request (split_blank (unix_lines raw)) none
  need terminal (plain env 500)

-- `HeaderMap::remove` and `HeaderMap::insert`
unfoldable pub remove_header : String → Headers → Headers
unfolding select
remove_header k h = select (λ x. not (x.0 == k)) h

unfoldable pub set_header : String → String → Headers → Headers
unfolding remove_header
set_header k v h = remove_header k h ++ (k, some v) ∷ []

abbrev has_id : Option Value → Option Value
has_id none = none
has_id (some v) = if is_some (get "id" v) then some v else none

-- A stream of events for a request with an id becomes the answer in it; any other body is passed on.
-- The bytes of a stream that is not UTF-8 are rejected, which no text shows.
unfoldable pub adapt : Env → Option Value → Reply → Verdict Response
unfolding header find_header terminal_of set_header remove_header response get
adapt env request reply = do
  raw ← need reply.body (plain env 503)
  let stream = starts_with (header reply.headers "content-type") "text/event-stream"
  elim (if stream then has_id request else none) [
    | none ↦ pass (record {
      status = reply.status;
      headers = set_header "cache-control" "no-store" reply.headers;
      body = raw;
    })
    | some v ↦ do
      value ← terminal_of env v raw
      pass (record {
        status = reply.status;
        headers = set_header "cache-control" "no-store" (
            remove_header "content-length"
              (set_header "content-type" "application/json" reply.headers));
        body = env.wire_json value;
      })
  ]
