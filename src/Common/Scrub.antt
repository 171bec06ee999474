-- ===== src/Common/Scrub.antt =====
-- `scrub` of src/common.rs: secrets are taken out of texts, and whole fields with a telling name.
pub mod Masked
use tekes_memory.Prelude.{String, List, [], ◌∷◌, if◌then◌else◌}
use tekes_memory.Json.{Value, Items, Fields, str, arr, obj, nil, cons, end, field}
use tekes_memory.Common.{Env}

abbrev pub redacted : Value
redacted = str "[REDACTED]"

-- `KEY`
abbrev pub key_pattern : String
key_pattern =
    "(?i)(password|secret|credential|authorization|api[_-]?key|access[_-]?token|reasoning|thinking)"

-- `RULES`: the patterns, and what stands for a match.
abbrev pub rules : List (String × String)
rules =
    ("(?is)-----BEGIN [^-]*PRIVATE KEY-----.*?-----END [^-]*PRIVATE KEY-----", "[REDACTED]")
    ∷ ("(?i)\\bBearer\\s+[A-Za-z0-9._~+/-]+=*", "Bearer [REDACTED]")
    ∷ ("\\b(?:sk-[A-Za-z0-9_-]{12,}|gh[pousr]_[A-Za-z0-9]{16,})\\b", "[REDACTED]")
    ∷ (
      "(?i)((?:password|api[_-]?key|secret|access[_-]?token)\\s*[:=]\\s*)[^\\s,;]+",
      "${1}[REDACTED]",
    )
    ∷ []

-- The loop over `RULES`: each `replace_all` in turn.
unfoldable pub apply_rules : Env → List (String × String) → String → String
apply_rules env [] s = s
apply_rules env ((r, to) ∷ rs) s = apply_rules env rs (env.replace_all r s to)

unfoldable mutual
  unfolding apply_rules

  pub scrub : Env → Value → Value
  scrub env (obj m) = obj (scrub_fields env m)
  scrub env (arr a) = arr (scrub_items env a)
  scrub env (str s) = str (apply_rules env rules s)
  scrub env v = v

  pub scrub_items : Env → Items → Items
  scrub_items env nil = nil
  scrub_items env (cons v vs) = cons (scrub env v) (scrub_items env vs)

  pub scrub_fields : Env → Fields → Fields
  scrub_fields env end = end
  scrub_fields env (field k x fs) =
      let own = scrub env x in
      field k (if env.is_match key_pattern k then redacted else own) (scrub_fields env fs)
