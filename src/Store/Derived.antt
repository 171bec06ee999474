-- ===== src/Store/Derived.antt =====
-- `derived_record_args` and `scrub_write_args` of src/store.rs.
use tekes_memory.Prelude.{
  Bool, String, List, [], ◌∷◌, ◌++◌, Option, none, some, ◌==◌, any, if◌then◌else◌,
}
use tekes_memory.Json.{Value, Fields, str, arr, obj, of_list}
use tekes_memory.Json.Access.{get, index, as_str, as_array, as_object, is_text}
use tekes_memory.Json.Edit.{set_key, remove_key, object}
use tekes_memory.Common.{Env, Result, ok, ok_or, ◌>>=◌, invalid_argument}
use tekes_memory.Common.Access.{array}
use tekes_memory.Common.Scrub.{scrub}
use tekes_memory.Store.Hit.{take_chars}

abbrev scrub_field : Env → Value → Value → String → Value
scrub_field env args safe f = elim (get f args) [
  | none ↦ safe
  | some v ↦ set_key safe f (scrub env v)
]

-- `args.pointer("/observation/payload/{field}")`
abbrev payload_field : Value → String → Option Value
payload_field args f = elim (get "observation" args) [
  | none ↦ none
  | some o ↦ elim (get "payload" o) [ none ↦ none | some p ↦ get f p ]
]

abbrev scrub_payload : Env → Value → Value → String → Value
scrub_payload env args safe f = elim (payload_field args f) [
  | none ↦ safe
  | some v ↦ set_key safe "observation" (
      set_key (index safe "observation") "payload"
        (set_key (index (index safe "observation") "payload") f (scrub env v)))
]

-- Only the fields that carry text of the user are scrubbed.
unfoldable pub scrub_write_args : Env → String → Value → Value
unfolding get set_key scrub index
scrub_write_args env name args =
    if name == "memory.save"
    then scrub_field env args (scrub_field env args (scrub_field env args args "content") "fact")
        "procedure"
    else if name == "memory.correct"
    then scrub_field env args
        (scrub_field env args (scrub_field env args args "replacement") "fact") "procedure"
    else if name == "memory.observe"
    then scrub_payload env args (scrub_payload env args args "summary") "reason"
    else args

abbrev has_source : String → List Value → Bool
has_source key sources = any (λ s. is_text (index s "source_key") key) sources

abbrev lineage_source : String → Value
lineage_source key = object (
    ("host", str "tekes-memory-lineage")
    ∷ ("ref", str key)
    ∷ ("digest", str key)
    ∷ ("source_key", str key)
    ∷ [])

-- A source for a key that has none yet.
unfoldable pub add_lineage : String → List Value → List Value
unfolding any index is_text object
add_lineage key sources =
    if has_source key sources then sources else sources ++ lineage_source key ∷ []

-- The keys that are texts, in order.
unfoldable pub add_lineage_keys : List Value → List Value → List Value
unfolding add_lineage as_str
add_lineage_keys [] sources = sources
add_lineage_keys (v ∷ vs) sources = elim (as_str v) [
  | none ↦ add_lineage_keys vs sources
  | some key ↦ add_lineage_keys vs (add_lineage key sources)
]

abbrev add_own : Option String → List Value → List Value
add_own none sources = sources
add_own (some key) sources = add_lineage key sources

abbrev add_all : Option (List Value) → List Value → List Value
add_all none sources = sources
add_all (some keys) sources = add_lineage_keys keys sources

-- The sources of the record that an observation gives: those it names, its own row of the host's
-- ledger, the rows that it was made of, and the observation itself.
unfoldable pub derived_sources : Env → List Value → Value → String → List Value
unfolding index as_str as_array add_lineage add_lineage_keys object any is_text
derived_sources env sources obs key =
    let payload = index obs "payload" in
    let own = add_own (as_str (index payload "own_source_key")) sources in
    let all_keys = add_all (as_array (index payload "lineage_keys")) own in
    if has_source key all_keys
    then all_keys
    else all_keys
      ++ object (
          ("host", str "tekes-memory")
          ∷ ("ref", str key)
          ∷ ("digest", str (env.hash (env.canonical obs)))
          ∷ ("source_key", str key)
          ∷ [])
        ∷ []

-- The payload less its sources, with the type of the observation.
unfoldable pub derived_content : Env → Value → Fields → String
unfolding remove_key set_key index take_chars
derived_content env obs payload =
    let summary =
      remove_key (remove_key (remove_key (obj payload) "sources") "own_source_key")
        "lineage_keys" in
    take_chars 32768 (env.canonical (set_key summary "observation" (index obs "type")))

unfoldable pub derived_record_args : Env → Value → Value → String → Result Value
unfolding array index as_object derived_sources derived_content object of_list
derived_record_args env scope obs key = do
  sources ← array (index obs "payload") "sources"
  payload ← ok_or (as_object (index obs "payload")) invalid_argument
  ok (
      object (
        ("scope", scope)
        ∷ ("kind", str "episode")
        ∷ ("content", str (derived_content env obs payload))
        ∷ ("sources", arr (of_list (derived_sources env sources obs key)))
        ∷ []))
