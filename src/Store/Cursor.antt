-- ===== src/Store/Cursor.antt =====
-- The cursor of `search` in src/store.rs: a signed text that says where the next page starts.
pub mod Signed
use Prim.Native.Char.{code}
use Prim.Native.String
use Prim.Native.String.{◌++◌ as append}
use tekes_memory.Prelude.{
  ℕ, ℤ, pos, Bool, not, ◌&&◌, ◌||◌, leb, ltb, String, [], ◌∷◌, Option, none, some, ◌==◌, nat_eq,
  if◌then◌else◌,
}
use tekes_memory.Json.{Value, int, str}
use tekes_memory.Json.Access.{index, as_i64, is_text}
use tekes_memory.Json.Edit.{object}
use tekes_memory.Common.{
  Env, Result, ok, err, panicked, ◌>>=◌, ◌>>◌, ok_or, fail_if, invalid_argument, storage_error,
}
use tekes_memory.Common.Strict.{decode}

-- `split_once('.')`
unfoldable pub split_dot : String → Option (String × String)
split_dot String.[] = none
split_dot (String.◌∷◌ c s) =
    if nat_eq (code c) 46
    then some (String.[], s)
    else elim (split_dot s) [ none ↦ none | some parts ↦ some (String.◌∷◌ c parts.0, parts.1) ]

abbrev is_hex_digit : ℕ → Bool
is_hex_digit c = (leb 48 c && leb c 57) || (leb 65 c && leb c 70) || (leb 97 c && leb c 102)

-- What `u8::from_str_radix` accepts of two ASCII characters: a sign may stand first.
abbrev is_byte : ℕ → ℕ → Bool
is_byte c d = (is_hex_digit c || nat_eq c 43) && is_hex_digit d

-- A character that is not ASCII: one of two bytes is no number, and a longer one is cut.
abbrev not_ascii : ℕ → Result (Unit {0})
not_ascii c = if ltb c 2048 then err storage_error else err panicked

-- The bytes of the secret from its text. A slice that ends outside of the text, or inside of a
-- character, is a panic.
unfoldable pub check_secret : String → Result (Unit {0})
check_secret String.[] = ok tt
check_secret (String.◌∷◌ c String.[]) =
    if ltb (code c) 128 then err panicked else not_ascii (code c)
check_secret (String.◌∷◌ c (String.◌∷◌ d s)) =
    let rest = check_secret s in
    if not (ltb (code c) 128)
    then not_ascii (code c)
    else if not (ltb (code d) 128)
    then err panicked
    else if is_byte (code c) (code d)
    then rest
    else err storage_error

-- The content of a cursor.
unfoldable pub cursor_body : String → String → ℕ → Value
unfolding object
cursor_body query_id generation offset =
    object
      (("query", str query_id) ∷ ("generation", str generation) ∷ ("offset", int (pos offset)) ∷ [])

abbrev natural : Option ℤ → Option ℕ
natural (some (pos n)) = some n
natural _ = none

unfoldable pub make_cursor : Env → String → String → String → ℕ → Result String
unfolding cursor_body
make_cursor env secret query_id generation offset = do
  let raw = env.canonical (cursor_body query_id generation offset)
  signature ← ok_or (env.hmac secret raw) storage_error
  ok (append (env.url_encode raw) (append "." signature))

-- The offset of a cursor that this service made for the same query, while nothing was written.
unfoldable pub read_cursor : Env → String → String → String → String → Result ℕ
unfolding split_dot decode index is_text as_i64
read_cursor env secret query_id generation cursor = do
  parts ← ok_or (split_dot cursor) invalid_argument
  raw ← ok_or (env.url_decode parts.0) invalid_argument
  expected ← ok_or (env.hmac secret raw) storage_error
  fail_if (not (expected == parts.1)) invalid_argument
  c ← decode env.parse_tree raw
  fail_if
      (not (is_text (index c "query") query_id) || not (is_text (index c "generation") generation))
      invalid_argument
  ok_or (natural (as_i64 (index c "offset"))) invalid_argument
