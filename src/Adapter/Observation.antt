-- ===== src/Adapter/Observation.antt =====
-- The observation that `handle` of src/adapter.rs makes of a hook event, from the rows of the ledger.
pub mod Keys
use Prim.Native.String.{◌++◌ as append}
use mathlib.Core.List.{reverse}
use tekes_memory.Prelude.{
  ℕ, ◌≤◌, pos, ltb, leb, nat_eq, String, List, [], ◌∷◌, Option, none, some, ◌==◌, Bool, true, false,
  not, ◌&&◌, ◌||◌, any, select, find_first, map, length, if◌then◌else◌,
}
use tekes_memory.Json.{Value, null, str, int, arr, json_eq, of_list}
use tekes_memory.Json.Access.{get, index, as_str, as_u64, as_array, is_text, is_some, unwrap_or}
use tekes_memory.Json.Edit.{object}
use tekes_memory.Common.{Env, Result, ok, err, ◌>>=◌, ◌>>◌, ok_or, fail_if, source_unavailable}
use tekes_memory.Common.Access.{array}
use tekes_memory.Common.Authorize.{set_insert}
use tekes_memory.Common.Scrub.{scrub}
use tekes_memory.Store.Rows.{digest}
use tekes_memory.Adapter.Rows.{visible}

abbrev pub or_else : Option Value → Option Value → Option Value
or_else none b = b
or_else (some a) b = some a

abbrev pub in_range : ℕ → Bool
in_range n = not (nat_eq n 0) && leb n 1000000

abbrev number_of : Option Value → Option ℕ
number_of none = none
number_of (some v) = as_u64 v

-- The number up to which the event covers the ledger.
unfoldable pub through_of : Value → Result ℕ
unfolding get as_u64
through_of payload = do
  n ←
      ok_or (number_of (or_else (get "source_seq" payload) (get "through_seq" payload)))
        source_unavailable
  fail_if (not (in_range n)) source_unavailable
  ok n

-- The kind and the turn that the last row must have.
unfoldable pub expected_kind : String → Option String
expected_kind event =
    if event == "turn.before"
    then some "turn_open"
    else if event == "tool.completed"
    then some "tool_result"
    else if event == "turn.settled"
    then some "settle"
    else none

abbrev is_unexpected : Option String → ℕ → Value → Bool
is_unexpected none turn last = false
is_unexpected (some kind) turn last =
    not (is_text (index last "kind") kind) || not (json_eq (index last "turn") (int (pos turn)))

abbrev is_other_record : Env → Option Value → Value → Bool
is_other_record env none last = false
is_other_record env (some v) last = not (json_eq (scrub env v) (scrub env last))

-- The payload speaks of the last row.
unfoldable pub check_last : Env → String → ℕ → Value → Value → Result (Unit {0})
unfolding expected_kind index is_text get scrub
check_last env event turn payload last = do
  fail_if (is_unexpected (expected_kind event) turn last) source_unavailable
  fail_if (is_other_record env (get "record" payload) last) source_unavailable

abbrev pub opens_turn : ℕ → Value → Bool
opens_turn turn x =
    is_text (index x "kind") "turn_open" && json_eq (index x "turn") (int (pos turn))

abbrev values_or_empty : Option (List Value) → List Value
values_or_empty none = []
values_or_empty (some vs) = vs

abbrev pub trigger_inputs : Option Value → List Value
trigger_inputs none = []
trigger_inputs (some x) = values_or_empty (as_array (index (index x "trigger") "inputs"))

-- The numbers of the rows that have opened the turn.
unfoldable pub turn_inputs : ℕ → List Value → List Value
unfolding find_first index is_text as_array
turn_inputs turn rows = trigger_inputs (find_first (opens_turn turn) rows)

abbrev pub has_number : List Value → Value → Bool
has_number numbers x = any (λ n. json_eq n (index x "seq")) numbers

abbrev is_result : Value → Bool
is_result x =
    is_text (index x "kind") "output"
    || is_text (index x "kind") "tool_result"
    || is_text (index x "kind") "settle"

abbrev of_turn : ℕ → List Value → Value → Bool
of_turn turn inputs x =
    has_number inputs x || (json_eq (index x "turn") (int (pos turn)) && is_result x)

abbrev is_covered : List Value → Value → Bool
is_covered covers x = has_number covers x && (is_text (index x "kind") "input" || is_result x)

-- What the observation shows of the ledger.
unfoldable pub evidence : Env → String → ℕ → Value → List Value → Value → Result (List Value)
unfolding array select turn_inputs visible any
evidence env event turn payload rows last =
    if event == "context.before_compact"
    then (do
      covers ← array payload "covers"
      ok (map (visible env) (select (is_covered covers) rows)))
    else if event == "tool.completed"
    then ok (visible env last ∷ [])
    else ok (map (visible env) (select (of_turn turn (turn_inputs turn rows)) rows))

-- The identity of a row: `c` is the configuration and `r` the request.
unfoldable pub source_key : Env → Value → Value → String → Value → String
unfolding object index
source_key env c r line row = digest env (
    object (
      ("host", str "tekeskernel")
      ∷ ("host_instance_id", index c "host_instance_id")
      ∷ ("workspace_id", index r "workspace_id")
      ∷ ("thread_id", index r "thread_id")
      ∷ ("line_id", str line)
      ∷ ("source_seq", index row "seq")
      ∷ []))

-- `sort` and `dedup`
unfoldable pub sort_keys : List String → List String
unfolding set_insert
sort_keys [] = []
sort_keys (k ∷ ks) = set_insert k (sort_keys ks)

unfoldable pub lineage_keys : Env → Value → Value → String → List Value → Result (List String)
unfolding source_key sort_keys
lineage_keys env c r line shown = do
  let keys = sort_keys (map (source_key env c r line) shown)
  fail_if (ltb 4096 (length keys)) source_unavailable
  ok keys
