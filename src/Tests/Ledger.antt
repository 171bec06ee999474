-- ===== src/Tests/Ledger.antt =====
-- The ledger of src/adapter.rs on concrete rows.
use tekes_memory.Prelude.{
  ◌≡◌, refl, ◌≤◌, pos, String, List, [], ◌∷◌, some, none, ◌==◌, true, any, length, if◌then◌else◌,
}
use tekes_memory.Json.{Value, int, str, obj, end, field}
use tekes_memory.Common.{Env}
use tekes_memory.Store.Words.{has}
use tekes_memory.Adapter.Rows.{Line, prefix_rows, is_genesis}
use tekes_memory.Adapter.Rows.Numbered.{Numbered, prefix_rows-Numbered}
use tekes_memory.Adapter.Observation.{source_key, lineage_keys}
use tekes_memory.Adapter.Observation.Keys.{lineage_keys-rows}
use tekes_memory.Tests.Fixture.{env, print}

abbrev genesis : Value
genesis = obj (
    field "kind" (str "genesis")
      (field "seq" (int (pos 1)) (field "thread" (str "t") (field "workspace" (str "w") end))))

abbrev opened : Value
opened = obj (field "kind" (str "turn_open") (field "seq" (int (pos 2)) end))

abbrev event : Value
event = obj (field "thread_id" (str "t") (field "workspace_id" (str "w") end))

-- The texts `a` and `b` stand for the rows.
abbrev ledger_env : Env
ledger_env = record env {
  parse_tree = λ s. if s == "a" then some genesis else if s == "b" then some opened else none;
}

abbrev ledger : List Line
ledger =
    record { content = "a"; size = 60; ended = true }
    ∷ record { content = "b"; size = 30; ended = true }
    ∷ []

prefix_example :
    (length (genesis ∷ opened ∷ []) ≡ 2)
    × (Numbered 1 (genesis ∷ opened ∷ []) × (is_genesis event (genesis ∷ opened ∷ []) ≡ true))
unfolding prefix_rows tekes_memory.Json.Edit.insert_field tekes_memory.Json.json_eq
prefix_example = prefix_rows-Numbered ledger_env event 2 ledger (genesis ∷ opened ∷ []) refl

-- A row that is shown twice has one key.
abbrev keys : List String
keys = source_key ledger_env event event "l" genesis ∷ []

keys_example :
    (length keys ≤ 4096)
    × ((k : String)
        → has k keys
          ≡ any (λ row. source_key ledger_env event event "l" row == k) (genesis ∷ genesis ∷ []))
unfolding lineage_keys print
keys_example = lineage_keys-rows ledger_env event event "l" (genesis ∷ genesis ∷ []) keys refl
