-- ===== src/Config/Service.antt =====
-- `service_config` and `adapter_config` of src/config.rs, on the content of the file.
pub mod Sound
use tekes_memory.Prelude.{
  Bool, true, false, not, ◌&&◌, ◌||◌, String, List, [], ◌∷◌, Option, none, some, ◌==◌, any,
  if◌then◌else◌,
}
use package.text.Mathlib.Text.{starts_with}
use tekes_memory.Json.{Value, str, json_eq}
use tekes_memory.Json.Access.{index, as_str, is_some, is_text}
use tekes_memory.Common.{
  Env, Result, ok, err, ◌>>=◌, ◌>>◌, ok_or, fail_if, invalid_config, panicked,
}
use tekes_memory.Common.Access.{text, array}
use tekes_memory.Common.Authorize.{authorize}
use tekes_memory.Common.Schema.{validate}
use tekes_memory.Store.Words.{has}

-- The parts of a URL that `reqwest::Url` reports.
pub record Url : Type 0 where
  pub scheme : String
  pub host : Option String
  pub path : String
  pub username : String
  pub password : Option String
  pub query : Option String
  pub fragment : Option String

abbrev pub is_host : String → String → Option String → Bool
is_host a b none = false
is_host a b (some h) = h == a || h == b

-- The schema of a name: the source panics where there is none, and there always is.
abbrev pub schema : Env → String → Result Value
schema env name = ok_or (env.schemas name) panicked

-- The loop over the principals with the set `seen`.
unfoldable pub check_distinct : String → List Value → List String → Result (Unit {0})
unfolding text any
check_distinct f [] seen = ok tt
check_distinct f (p ∷ ps) seen = do
  t ← text p f
  fail_if (has t seen) invalid_config
  check_distinct f ps (t ∷ seen)

unfoldable pub check_scopes : Value → List Value → Result (Unit {0})
unfolding authorize
check_scopes p [] = ok tt
check_scopes p (s ∷ ss) = do authorize p s; check_scopes p ss

-- A model may not observe, though `array` is read for a model alone.
unfoldable pub check_role : Value → Result (Unit {0})
unfolding is_text index array any
check_role p =
    if is_text (index p "role") "model"
    then (do
      tools ← array p "tools"
      fail_if (any (λ t. json_eq t (str "memory.observe")) tools) invalid_config)
    else ok tt

unfoldable pub check_principals : List Value → Result (Unit {0})
unfolding check_role array check_scopes
check_principals [] = ok tt
check_principals (p ∷ ps) = do
  check_role p
  scopes ← array p "scopes"
  check_scopes p scopes
  check_principals ps

-- An origin is this host over HTTP, with nothing behind it.
unfoldable pub is_local_origin : Url → Bool
is_local_origin u =
    (u.scheme == "http" || u.scheme == "https")
    && is_host "localhost" "127.0.0.1" u.host
    && u.path == "/"
    && u.username == ""
    && not (is_some u.query)
    && not (is_some u.fragment)

unfoldable pub check_origins : (String → Option Url) → List Value → Result (Unit {0})
unfolding as_str is_local_origin
check_origins parse_url [] = ok tt
check_origins parse_url (o ∷ os) = do
  t ← ok_or (as_str o) invalid_config
  u ← ok_or (parse_url t) invalid_config
  fail_if (not (is_local_origin u)) invalid_config
  check_origins parse_url os

-- `Path::is_absolute`
abbrev pub is_absolute : String → Bool
is_absolute path = starts_with path "/"

-- `file` is what `private_json` has read.
unfoldable pub service_config : Env → (String → Option Url) → Result Value → Result Value
unfolding validate array check_distinct check_principals text check_origins
service_config env parse_url file = do
  c ← file
  s ← schema env "service-config"
  validate env c s
  principals ← array c "principals"
  check_distinct "id" principals []
  check_distinct "token_sha256" principals []
  check_principals principals
  directory ← text c "data_directory"
  fail_if (not (is_absolute directory)) invalid_config
  origins ← array c "allowed_origins"
  check_origins parse_url origins
  ok c

unfoldable pub adapter_config : Env → Result Value → Result Value
unfolding validate text
adapter_config env file = do
  c ← file
  s ← schema env "adapter-config"
  validate env c s
  root ← text c "thread_root"
  fail_if (not (is_absolute root)) invalid_config
  credential ← text c "credential_file"
  fail_if (not (is_absolute credential)) invalid_config
  ok c
