-- ===== src/Adapter/Query.antt =====
-- The checks of a hook request and the query of `context.prepare` in src/adapter.rs.
use mathlib.Core.List.{reverse}
use package.text.Mathlib.Text.{starts_with}
use tekes_memory.Prelude.{
  ℕ, zero, suc, pos, nat_eq, String, List, [], ◌∷◌, Option, none, some, ◌==◌, Bool, true, false,
  not, ◌&&◌, ◌||◌, any, all, select, find_first, map, length, if◌then◌else◌,
}
use tekes_memory.Json.{Value, Fields, str, int, json_eq}
use tekes_memory.Json.Access.{get_field, index, as_u64, as_array, as_object, is_text, is_some}
use tekes_memory.Common.{
  Env, Result, ok, err, ◌>>=◌, ◌>>◌, ok_or, fail_if, invalid_argument, scope_denied,
  source_unavailable,
}
use tekes_memory.Common.Access.{text, array}
use tekes_memory.Common.Authorize.{keys_of}
use tekes_memory.Common.Scrub.{scrub}
use tekes_memory.Store.Words.{join, has}
use tekes_memory.Adapter.Rows.{texts}
use tekes_memory.Adapter.Observation.{in_range, opens_turn, trigger_inputs, has_number}
use tekes_memory.Adapter.Handle.{last_chars}

abbrev pub request_fields : List String
request_fields =
    "format" ∷ "hook_id" ∷ "event_id" ∷ "event" ∷ "workspace_id" ∷ "thread_id" ∷ "turn_id" ∷ "data"
    ∷ []

-- `EVENTS`
abbrev pub events : List String
events =
    "turn.before" ∷ "context.prepare" ∷ "tool.completed" ∷ "context.before_compact" ∷ "turn.settled"
    ∷ []

-- The members of the object and no others.
abbrev has_fields : Option Fields → Bool
has_fields none = false
has_fields (some m) =
    nat_eq (length (keys_of m)) (length request_fields)
    && all (λ k. is_some (get_field k m)) request_fields

unfoldable pub check_texts : Value → List String → Result (Unit {0})
unfolding text
check_texts r [] = ok tt
check_texts r (k ∷ ks) = do t ← text r k; fail_if (t == "") invalid_argument; check_texts r ks

abbrev check_event : Value → Result (Unit {0})
check_event r = do event ← text r "event"; fail_if (not (has event events)) invalid_argument

-- The turn of a request that is well formed: `c` is the configuration.
unfoldable pub check_request : Value → Value → Result ℕ
unfolding as_object keys_of get_field index text check_texts as_u64 all
check_request c r = do
  fail_if (not (has_fields (as_object r)) || not (json_eq (index r "format") (int (pos 2))))
      invalid_argument
  check_event r
  fail_if (not (json_eq (index r "workspace_id") (index c "workspace_id"))) scope_denied
  check_texts r ("hook_id" ∷ "event_id" ∷ "workspace_id" ∷ "thread_id" ∷ [])
  ok_or (as_u64 (index r "turn_id")) invalid_argument

abbrev is_question : String → Bool
is_question q = not (q == "") && not (starts_with q "Reference context from a host extension")

-- What the user has asked, in the items of the context.
unfoldable pub item_queries : List Value → List String
unfolding select index is_text texts
item_queries items =
    select is_question
      (map (λ i. texts (index i "content")) (select (λ i. is_text (index i "role") "user") items))

-- What the last opening of the turn was triggered by, in the rows of the ledger.
unfoldable pub row_queries : ℕ → List Value → List String
unfolding find_first select any as_array index texts is_text
row_queries turn rows =
    let inputs = trigger_inputs (find_first (opens_turn turn) (reverse rows)) in
    map (λ x. texts (index x "content")) (select (has_number inputs) rows)

abbrev in_ledger : Option ℕ → Result ℕ
in_ledger none = err source_unavailable
in_ledger (some n) = if in_range n then ok n else err source_unavailable

abbrev is_none_of : List String → Bool
is_none_of [] = true
is_none_of (q ∷ qs) = false

-- `prefix` is the function of that name, by the number of rows.
unfoldable pub queries : (ℕ → Result (List Value)) → ℕ → Value → Result (List String)
unfolding item_queries row_queries array as_u64 index
queries prefix turn payload = do
  items ← array payload "items"
  let asked = item_queries items
  if is_none_of asked
      then (do
        through ← in_ledger (as_u64 (index payload "through_seq"))
        rows ← prefix through
        ok (row_queries turn rows))
      else ok asked

abbrev pub first_of : ℕ → List String → List String
first_of zero qs = []
first_of (suc n) [] = []
first_of (suc n) (q ∷ qs) = q ∷ first_of n qs

-- The last three, and of these the last characters.
unfoldable pub query_text : List String → String
unfolding join last_chars
query_text qs = last_chars 8192 (join "\n" (reverse (first_of 3 (reverse qs))))

-- The query that is searched for.
unfoldable pub query : Env → (ℕ → Result (List Value)) → ℕ → Value → Result Value
unfolding queries query_text scrub
query env prefix turn payload = do
  qs ← queries prefix turn payload
  ok (scrub env (str (query_text qs)))
