-- ===== src/Common/Schema.antt =====
-- `validate` of src/common.rs: the JSON Schema subset that tool arguments and files are held to.
use tekes_memory.Prelude.{
  ℕ, ℤ, pos, negsuc, lt_int, leb, Bool, true, false, not, ◌&&◌, ◌||◌, String, List, [], ◌∷◌, Option,
  none, some, ◌==◌, any, length, ◌*◌, if◌then◌else◌,
}
use Prim.Native.String.{count}
use tekes_memory.Json.{
  Value, Items, Fields, null, bool, int, float, str, arr, obj, nil, cons, end, field, json_eq,
  to_list,
}
use tekes_memory.Json.Access.{
  get, get_field, index, as_str, as_i64, as_u64, as_array, unwrap_or, is_some,
}
use tekes_memory.Common.{
  Env, Result, ok, err, ◌>>=◌, ◌>>◌, fail_if, ok_or, invalid_argument, unsupported_schema_version,
}

-- `MAX_BODY`, the largest request in bytes, and `MAX_RESPONSE`
abbrev pub max_body : ℕ
max_body = 2 * 1024 * 1024

abbrev pub max_response : ℕ
max_response = 8 * 1024 * 1024

-- the largest integer that a JSON number carries exactly, and its negative
abbrev pub max_int_json : ℤ
max_int_json = pos 9007199254740991

abbrev pub min_int_json : ℤ
min_int_json = negsuc 9007199254740990

-- `s["type"].as_str().unwrap_or("")`
unfoldable pub type_of : Value → String
unfolding index as_str
type_of s = unwrap_or (as_str (index s "type")) ""

-- The first `match`: whether the value has the type.
unfoldable pub has_type : String → Value → Bool
unfolding as_i64
has_type t (obj _) = t == "object" || t == ""
has_type t (arr _) = t == "array" || t == ""
has_type t (str _) = t == "string" || t == ""
has_type t (int z) = (t == "integer" && is_some (as_i64 (int z))) || t == ""
has_type t (bool _) = t == "boolean" || t == ""
has_type t null = t == "null" || t == ""
has_type t (float _) = t == ""

-- `enum`: the value is listed, if the schema lists values.
unfoldable pub in_enum : Option (List Value) → Value → Bool
in_enum none v = true
in_enum (some vs) v = any (λ e. json_eq e v) vs

-- `const`: the value is the constant, if the schema has one.
unfoldable pub check_const : Option Value → Value → Result (Unit {0})
check_const none v = ok tt
check_const (some c) v =
    if json_eq c v
    then ok tt
    else err (if json_eq c (int (pos 1)) then unsupported_schema_version else invalid_argument)

-- `required`: each listed key is a text, and a key of the object.
unfoldable pub check_required : List Value → Fields → Result (Unit {0})
unfolding get_field as_str
check_required [] m = ok tt
check_required (k ∷ ks) m = do
  name ← ok_or (as_str k) invalid_argument
  fail_if (not (is_some (get_field name m))) invalid_argument
  check_required ks m

-- the bounds of an array, a text and an integer
unfoldable pub in_bounds : ℕ → Option ℕ → Option ℕ → ℕ → Bool
in_bounds n lo hi limit = leb (unwrap_or lo 0) n && leb n (unwrap_or hi limit)

unfoldable pub int_in_bounds : ℤ → Option ℤ → Option ℤ → Bool
int_in_bounds n lo hi =
    not (lt_int n (unwrap_or lo min_int_json)) && not (lt_int (unwrap_or hi max_int_json) n)

-- A pattern that does not compile refuses every text.
unfoldable pub check_pattern : Env → Option String → String → Result (Unit {0})
check_pattern env none t = ok tt
check_pattern env (some p) t = do
  matches ← ok_or (env.pattern_match p t) invalid_argument
  fail_if (not matches) invalid_argument

-- The checks before the last `match`.
unfoldable pub check_head : Value → Value → Result (Unit {0})
unfolding index as_array get
check_head v s = do
  fail_if (not (has_type (type_of s) v)) invalid_argument
  fail_if (not (in_enum (as_array (index s "enum")) v)) invalid_argument
  check_const (get "const" s) v

-- the optional list of `required`
abbrev or_empty : Option (List Value) → List Value
or_empty none = []
or_empty (some l) = l

-- The last `match`, of a text and an integer.
unfoldable pub check_text : Env → String → Value → Result (Unit {0})
unfolding index as_u64 as_str
check_text env t s = do
  fail_if
      (not (
        in_bounds (count t) (as_u64 (index s "minLength")) (as_u64 (index s "maxLength")) max_body))
      invalid_argument
  check_pattern env (as_str (index s "pattern")) t

unfoldable pub check_int : ℤ → Value → Result (Unit {0})
unfolding index as_i64
check_int n s =
    fail_if (not (int_in_bounds n (as_i64 (index s "minimum")) (as_i64 (index s "maximum"))))
      invalid_argument

-- The length of an array.
unfoldable pub check_size : ℕ → Value → Result (Unit {0})
unfolding index as_u64
check_size n s =
    fail_if (not (in_bounds n (as_u64 (index s "minItems")) (as_u64 (index s "maxItems")) 10000))
      invalid_argument

-- Checks that are made in one branch alone.
abbrev when : Bool → Result (Unit {0}) → Result (Unit {0})
when true m = m
when false m = ok tt

-- A field with no schema of its own is refused by `additionalProperties: false` alone.
abbrev additional : Value → Result (Unit {0})
additional s = fail_if (json_eq (index s "additionalProperties") (bool false)) invalid_argument

unfoldable mutual
  unfolding get index as_array

  pub validate : Env → Value → Value → Result (Unit {0})
  validate env (obj m) s =
      let fields = validate_fields env m s in
      check_head (obj m) s
      >> when (type_of s == "object")
          (check_required (or_empty (as_array (index s "required"))) m >> fields)
  validate env (arr vs) s =
      let items = validate_items env vs (index s "items") in
      check_head (arr vs) s
      >> when (type_of s == "array") (check_size (length (to_list vs)) s >> items)
  validate env (str t) s = check_head (str t) s >> when (type_of s == "string") (check_text env t s)
  validate env (int n) s = check_head (int n) s >> when (type_of s == "integer") (check_int n s)
  validate env v s = check_head v s

  pub validate_items : Env → Items → Value → Result (Unit {0})
  validate_items env nil s = ok tt
  validate_items env (cons v vs) s = do validate env v s; validate_items env vs s

  -- `s` is the schema of the whole object
  pub validate_fields : Env → Fields → Value → Result (Unit {0})
  validate_fields env end s = ok tt
  validate_fields env (field k x fs) s =
      let own = λ (p : Value). validate env x p in
      elim (get k (index s "properties")) [ none ↦ additional s | some p ↦ own p ]
      >> validate_fields env fs s
