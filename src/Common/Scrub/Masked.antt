-- ===== src/Common/Scrub/Masked.antt =====
-- What `scrub` of src/common.rs does with fields that have a telling name.
use tekes_memory.Prelude.{◌≡◌, refl, String, Bool, true, not, ◌&&◌, ◌||◌, Bool-cases, inl, inr}
use tekes_memory.Json.{Value, Items, Fields, arr, obj, nil, cons, end, field, json_eq, json_eq_refl}
use tekes_memory.Common.{Env}
use tekes_memory.Common.Scrub.{scrub, scrub_items, scrub_fields, redacted}

-- The names that tell of a secret, as a regular expression.
abbrev pub telling_names : String
telling_names =
    "(?i)(password|secret|credential|authorization|api[_-]?key|access[_-]?token|reasoning|thinking)"

-- A field with a telling name holds nothing but the mark, in the value and in all that it contains.
unfoldable mutual
  pub masked : Env → Value → Bool
  masked env (obj m) = masked_fields env m
  masked env (arr a) = masked_items env a
  masked env v = true

  pub masked_items : Env → Items → Bool
  masked_items env nil = true
  masked_items env (cons v vs) = masked env v && masked_items env vs

  pub masked_fields : Env → Fields → Bool
  masked_fields env end = true
  masked_fields env (field k x fs) =
      masked env x
      && (not (env.is_match telling_names k) || json_eq x redacted)
      && masked_fields env fs

module _ (env : Env) where
  mutual
    unfolding scrub masked

    value-masked : (v : Value) → masked env (scrub env v) ≡ true
    value-masked (obj m) = fields-masked m
    value-masked (arr a) = items-masked a
    value-masked v = refl

    items-masked : (vs : Items) → masked_items env (scrub_items env vs) ≡ true
    items-masked nil = refl
    items-masked (cons v vs) = rw (value-masked v, items-masked vs) refl

    fields-masked : (fs : Fields) → masked_fields env (scrub_fields env fs) ≡ true
    fields-masked end = refl
    fields-masked (field k x fs) = elim (Bool-cases (env.is_match telling_names k)) [
      | inl e ↦ rw (e, json_eq_refl redacted, fields-masked fs) refl
      | inr e ↦ rw (e, value-masked x, fields-masked fs) refl
    ]

-- In a scrubbed value, each field whose name has a match of the regular expression for password,
-- secret, credential, authorization, API key, access token, reasoning and thinking, at any depth of
-- objects and arrays, holds the mark and nothing else.
pub scrub-masked : (env : Env) (v : Value) → masked env (scrub env v) ≡ true
scrub-masked env v = value-masked env v
