-- ===== src/Store/Admit.antt =====
-- The checks at the head of `call_with_effect` in src/store.rs, and `valid_effect_key`.
use Prim.Native.Char.{code}
use Prim.Native.String.{len}
use tekes_memory.Prelude.{
  ℕ, leb, nat_eq, Bool, true, false, not, ◌&&◌, ◌||◌, String, List, Option, none, some, ◌==◌, any,
}
use tekes_memory.Json.{Value, str, json_eq}
use tekes_memory.Json.Access.{get, index, is_text}
use tekes_memory.Common.{
  Env, Result, ok, ◌>>=◌, ◌>>◌, ok_or, fail_if, invalid_argument, scope_denied, budget_exceeded,
}
use tekes_memory.Common.Access.{array}
use tekes_memory.Common.Authorize.{authorize}
use tekes_memory.Common.Schema.{max_body, validate}

-- A lower-case hexadecimal digit. A character that is not ASCII has no byte that is one.
abbrev is_hex : ℕ → Bool
is_hex c = (leb 48 c && leb c 57) || (leb 97 c && leb c 102)

unfoldable pub all_hex : String → Bool
all_hex String.[] = true
all_hex (String.◌∷◌ c s) = is_hex (code c) && all_hex s

unfoldable pub valid_effect_key : String → Bool
unfolding all_hex
valid_effect_key key = nat_eq (len key) 64 && all_hex key

abbrev pub bad_key : Option String → Bool
bad_key none = false
bad_key (some key) = not (valid_effect_key key)

-- Whether the principal may use the tool.
unfoldable pub may_call : String → Value → List Value → Bool
unfolding any index is_text
may_call name p tools =
    any (λ t. json_eq t (str name)) tools
    && not (name == "memory.observe" && not (is_text (index p "role") "adapter"))

abbrev pub authorize_some : Value → Option Value → Result (Unit {0})
authorize_some p none = ok tt
authorize_some p (some scope) = authorize p scope

-- The checks before the database is touched.
unfoldable pub admit : Env → Value → String → Value → Option String → Result (Unit {0})
unfolding valid_effect_key array may_call validate get authorize
admit env p name a effect_key = do
  fail_if (bad_key effect_key) invalid_argument
  tools ← array p "tools"
  fail_if (not (may_call name p tools)) scope_denied
  fail_if (not (leb (len (env.wire_json a)) max_body)) budget_exceeded
  schema ← ok_or (env.schemas name) invalid_argument
  validate env a schema
  authorize_some p (get "scope" a)
