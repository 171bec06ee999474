-- ===== src/Config.antt =====
-- src/config.rs: the tools of a principal, and what a configuration must satisfy.
pub mod Tools
pub mod Service
use tekes_memory.Prelude.{String, List, [], ◌∷◌}

-- The keys of `SCHEMAS`, in the order of the map. Its values, the parsed files of schemas/, are
-- `Env`'s `schemas`.
abbrev pub schema_names : List String
schema_names =
    "adapter-config" ∷ "memory.correct" ∷ "memory.forget" ∷ "memory.get" ∷ "memory.observe"
    ∷ "memory.reconcile_effect" ∷ "memory.save" ∷ "memory.search" ∷ "memory.status"
    ∷ "service-config" ∷ []

-- The tools that write.
abbrev pub write_tools : List String
write_tools = "memory.save" ∷ "memory.correct" ∷ "memory.forget" ∷ "memory.observe" ∷ []
