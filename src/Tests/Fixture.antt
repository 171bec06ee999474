-- ===== src/Tests/Fixture.antt =====
-- The environment, the principal and the requests of the tests. The canonical form is an injective
-- notation like JSON, with a comma after each element; the digest of a text is the text.
use Prim.Native.String.{◌++◌ as append}
use tekes_memory.Prelude.{
  ℕ, zero, suc, ◌/◌, ◌%◌, nat_eq, ltb, pos, negsuc, true, false, String, [], ◌∷◌, Option, none,
  some, ◌==◌, if◌then◌else◌,
}
use tekes_memory.Json.{
  Value, Items, Fields, null, bool, int, float, str, arr, obj, nil, cons, end, field,
}
use tekes_memory.Common.{Env}
use tekes_memory.Store.Tables.{empty_db}
use tekes_memory.Store.Exec.{Settings, State}

abbrev digit : ℕ → String
digit n =
    if nat_eq n 0
    then "0"
    else if nat_eq n 1
    then "1"
    else if nat_eq n 2
    then "2"
    else if nat_eq n 3
    then "3"
    else if nat_eq n 4
    then "4"
    else if nat_eq n 5
    then "5"
    else if nat_eq n 6
    then "6"
    else if nat_eq n 7
    then "7"
    else if nat_eq n 8
    then "8"
    else "9"

-- The last digits of a number.
abbrev digits : ℕ → ℕ → String
digits zero n = ""
digits (suc fuel) n = append (digits fuel (n / 10)) (digit (n % 10))

abbrev pub number : ℕ → String
number n = if ltb n 10 then digits 1 n else digits 20 n

unfoldable mutual
  pub print : Value → String
  print null = "null"
  print (bool true) = "true"
  print (bool false) = "false"
  print (int (pos n)) = append "+" (number n)
  print (int (negsuc n)) = append "-" (number n)
  print (float n) = append "f" (number n)
  print (str s) = append "'" (append s "'")
  print (arr vs) = append "[" (print_items vs)
  print (obj fs) = append "{" (print_fields fs)

  pub print_items : Items → String
  print_items nil = "]"
  print_items (cons v vs) = append (print v) (append "," (print_items vs))

  pub print_fields : Fields → String
  print_fields end = "}"
  print_fields (field k v fs) =
      append k (append ":" (append (print v) (append "," (print_fields fs))))

abbrev pub scope : Value
scope = obj (field "kind" (str "user") (field "owner_id" (str "o1") end))

abbrev pub source : Value
source = obj (field "source_key" (str "k1") end)

abbrev pub args : Value
args = obj (
    field "content" (str "tea") (
      field "idempotency_key" (str "i1") (
        field "kind" (str "preference")
          (field "scope" scope (field "sources" (arr (cons source nil)) end)))))

-- Another request under the same idempotency key.
abbrev pub other_args : Value
other_args = obj (
    field "content" (str "coffee") (
      field "idempotency_key" (str "i1") (
        field "kind" (str "preference")
          (field "scope" scope (field "sources" (arr (cons source nil)) end)))))

abbrev pub principal : Value
principal = obj (
    field "id" (str "alice") (
      field "owner_id" (str "o1") (
        field "scopes" (arr (cons scope nil))
          (field "tools" (arr (cons (str "memory.save") (cons (str "memory.status") nil))) end))))

-- What the first request is answered with.
abbrev pub answer : Value
answer = obj (
    field "id" (str "1") (
      field "operation_id" (str "3") (
        field "request_id" (str "2") (
          field "revision" (int (pos 1))
            (field "schema_version" (int (pos 1)) (field "status" (str "active") end))))))

abbrev known : String → Option Value
known s = if s == print answer then some answer else if s == print scope then some scope else none

abbrev any_object : Value
any_object = obj (field "type" (str "object") end)

abbrev pub env : Env
env = record {
  canonical = print;
  from_str = known;
  wire_json = print;
  hash = λ s. s;
  uid = λ n. number (suc n);
  pattern_match = λ p s. some true;
  is_match = λ p k. k == "password";
  replace_all = λ p s to. if s == "token" then to else s;
  to_lowercase = λ s. s;
  word_matches = λ s. s ∷ s ∷ [];
  parse_tree = known;
  hmac = λ secret s. some (append secret s);
  url_encode = λ s. s;
  url_decode = λ s. some s;
  decimal = number;
  fts_match = λ rows terms. [];
  schemas = λ name. some any_object;
}

abbrev pub settings : Settings
settings = record {
  env = env;
  episode_days = pos 30;
  clock = pos 5;
  commit_fails = false;
  checkpoint_fails = false;
}

abbrev pub start : State
start = record { db = empty_db "s"; draws = 0 }

-- The source `k1` is forgotten.
abbrev pub forgotten : State
forgotten = record {
  db = record (empty_db "s") {
    tombstones = record { scope = print scope; source_key = "k1" } ∷ [];
  };
  draws = 0;
}
