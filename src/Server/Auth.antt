-- ===== src/Server/Auth.antt =====
-- `Inner::auth` of src/server.rs: the principal of a request.
pub mod Alone
use Prim.Native.String.{◌++◌ as append}
use tekes_memory.Prelude.{
  ℕ, String, List, [], ◌∷◌, Option, none, some, ◌==◌, Bool, true, false, not, ◌&&◌, ◌||◌, any,
  find_first, if◌then◌else◌,
}
use tekes_memory.Json.{Value, str, json_eq}
use tekes_memory.Json.Access.{index, as_array, is_text}
use tekes_memory.Common.{Env, Result, ok, err}
use tekes_memory.Common.Text.{strip_prefix}
use tekes_memory.Server.Http.{
  Headers, find_header, header, Verdict, pass, reject, ◌>>=◌, ◌>>◌, reject_if, need, response,
  Response,
}

abbrev pub plain : Env → ℕ → Response
plain env code = response env code none none

-- The optional list of a field that the schema of the configuration requires to be there: the source
-- panics where it is not.
abbrev pub list_or_empty : Option (List Value) → List Value
list_or_empty none = []
list_or_empty (some vs) = vs

abbrev pub configured : Env → Result Value → Verdict Value
configured env (err e) = reject (plain env 503)
configured env (ok c) = pass c

-- The origin, where there is one, is allowed.
unfoldable pub check_origin : Env → Value → Option (Option String) → Verdict (Unit {0})
unfolding index as_array any
check_origin env c none = pass tt
check_origin env c (some none) = reject (plain env 403)
check_origin env c (some (some origin)) =
    reject_if
      (not
        (any (λ o. json_eq o (str origin)) (list_or_empty (as_array (index c "allowed_origins")))))
      (plain env 403)

abbrev pub has_token : String → Value → Bool
has_token hash p = is_text (index p "token_sha256") hash

-- The principals of a configuration.
unfoldable pub principals_of : Value → List Value
unfolding index as_array
principals_of c = list_or_empty (as_array (index c "principals"))

unfoldable pub local_host : Env → ℕ → String → Bool
local_host env port host =
    host == append "127.0.0.1:" (env.decimal port) || host == append "localhost:" (env.decimal port)

-- `config` is what `service_config` returns at this moment.
unfoldable pub auth : Env → ℕ → Result Value → Headers → Verdict Value
unfolding local_host find_header header check_origin strip_prefix principals_of find_first index
    is_text
auth env port config h = do
  reject_if (not (local_host env port (header h "host"))) (plain env 403)
  c ← configured env config
  check_origin env c (find_header h "origin")
  token ← need (strip_prefix "Bearer " (header h "authorization")) (plain env 401)
  need (find_first (has_token (env.hash token)) (principals_of c)) (plain env 401)
