-- ===== src/Adapter/Handle.antt =====
-- The call of `memory.observe` that `handle` of src/adapter.rs makes.
use Prim.Native.String.{◌++◌ as append}
use tekes_memory.Prelude.{
  ℕ, zero, suc, ◌-◌, ◌&&◌, pos, String, List, [], ◌∷◌, Option, none, some, ◌==◌, Bool, find_first,
  map, if◌then◌else◌,
}
use mathlib.Core.List.{reverse}
use tekes_memory.Json.{Value, str, int, arr, json_eq, of_list, cons, nil}
use tekes_memory.Json.Access.{get, index, is_text, is_true, unwrap_or}
use tekes_memory.Json.Edit.{object, set_key}
use tekes_memory.Common.{
  Env, Result, ok, err, ◌>>=◌, ◌>>◌, ok_or, invalid_argument, source_unavailable, unavailable,
}
use tekes_memory.Store.Rows.{digest}
use tekes_memory.Adapter.Observation.{or_else, check_last, evidence, source_key, lineage_keys}

-- `chars().rev().take(n)`, and `rev` again: `k` characters are left out first.
unfoldable pub drop_chars : ℕ → String → String
drop_chars zero s = s
drop_chars (suc k) String.[] = String.[]
drop_chars (suc k) (String.◌∷◌ c s) = drop_chars k s

-- The number of characters.
unfoldable pub count_chars : String → ℕ
count_chars String.[] = 0
count_chars (String.◌∷◌ c s) = suc (count_chars s)

unfoldable pub last_chars : ℕ → String → String
unfolding drop_chars count_chars
last_chars n s = drop_chars (count_chars s - n) s

abbrev texts_value : List String → Value
texts_value ks = arr (of_list (map str ks))

abbrev called : Value → Value → Bool
called call x = is_text (index x "kind") "tool_call" && json_eq (index x "call") call

abbrev name_in : Option Value → Option Value
name_in none = none
name_in (some x) = get "name" x

-- The fields that depend on the event.
unfoldable pub event_fields : String → ℕ → Value → List Value → Value → Value → Value
unfolding get index set_key find_first is_text
event_fields event through payload rows last v =
    let call = unwrap_or (get "call" last) (str "unknown") in
    let tool =
      unwrap_or (or_else (name_in (find_first (called call) (reverse rows))) (get "name" last))
        (str "unknown") in
    let outcome = unwrap_or (or_else (get "outcome" last) (get "status" last)) (str "unknown") in
    let reason = unwrap_or (or_else (get "reason" last) (get "classification" last)) (str "") in
    if event == "turn.settled"
    then set_key (set_key v "outcome" (index last "outcome")) "reason" reason
    else if event == "tool.completed"
    then set_key (set_key (set_key v "call_id" call) "tool_name" tool) "outcome" outcome
    else if event == "context.before_compact"
    then set_key
        (set_key (set_key v "through_seq" (int (pos through))) "covers" (index payload "covers"))
        "manual" (index payload "manual")
    else v

unfoldable pub observation_type : String → Result String
observation_type event =
    if event == "turn.before"
    then ok "turn_opened"
    else if event == "tool.completed"
    then ok "tool_result"
    else if event == "context.before_compact"
    then ok "context_checkpoint"
    else if event == "turn.settled"
    then ok "turn_outcome"
    else err invalid_argument

abbrev last_row : List Value → Option Value
last_row [] = none
last_row (x ∷ xs) = elim (last_row xs) [ none ↦ some x | some y ↦ some y ]

-- The arguments of the call: `c` is the configuration, `r` the request, `rows` and `line` what
-- `prefix` has returned for the number `through`.
unfoldable pub observe_args :
    Env → Value → Value → Value → String → ℕ → ℕ → List Value → String → Result Value
unfolding check_last evidence source_key lineage_keys event_fields observation_type last_chars
    object index
observe_args env c r scope event turn through rows line = do
  last ← ok_or (last_row rows) source_unavailable
  let payload = index (index r "data") "payload"
  check_last env event turn payload last
  shown ← evidence env event turn payload rows last
  let source_digest = digest env (arr (of_list shown))
  let own_key = source_key env c r line last
  let source = object (
      ("host", str "tekeskernel")
      ∷ ("ref", str (append line (append "#seq=" (env.decimal through))))
      ∷ ("digest", str source_digest)
      ∷ ("source_key", str own_key)
      ∷ [])
  let summary = last_chars 16000 (env.canonical (arr (of_list shown)))
  keys ← lineage_keys env c r line shown
  let normalized = object (
      ("turn_id", int (pos turn))
      ∷ ("summary", str summary)
      ∷ ("sources", arr (cons source nil))
      ∷ ("own_source_key", str own_key)
      ∷ ("lineage_keys", texts_value keys)
      ∷ [])
  type ← observation_type event
  let source_event = object (
      ("host", str "tekeskernel")
      ∷ ("host_instance_id", index c "host_instance_id")
      ∷ ("workspace_id", index r "workspace_id")
      ∷ ("thread_id", index r "thread_id")
      ∷ ("line_id", str line)
      ∷ ("event_id", index r "event_id")
      ∷ ("source_seq", int (pos through))
      ∷ ("source_digest", str source_digest)
      ∷ [])
  let observation = object (
      ("type", str type)
      ∷ ("payload", event_fields event through payload rows last normalized)
      ∷ [])
  ok (
      object (
        ("schema_version", int (pos 1))
        ∷ ("scope", scope)
        ∷ ("idempotency_key", index r "event_id")
        ∷ ("source_event", source_event)
        ∷ ("observation", observation)
        ∷ []))

-- What the service answers must say that the observation is accepted.
unfoldable pub accept_reply : Value → Value → Result Value
unfolding is_true index
accept_reply reply result = if is_true (index result "accepted") then ok reply else err unavailable
