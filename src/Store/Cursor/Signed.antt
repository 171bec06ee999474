-- ===== src/Store/Cursor/Signed.antt =====
-- The cursors of `search` in src/store.rs are signed.
use Prim.Native.Char.{code}
use Prim.Native.String.{◌++◌ as append, len}
use text.Mathlib.TextLemmas.{nil-append, cons-append}
use tekes_memory.Prelude.{
  ◌≡◌, refl, subst, ℕ, ◌<◌, ◌^◌, pos, Bool, true, not, ◌&&◌, String, Option, none, some, eq_iff,
  nat_eq, leb, arith,
}
use tekes_memory.Json.{Value}
use tekes_memory.Json.Access.{is_text, index, as_i64}
use tekes_memory.Common.{Env, ok}
use tekes_memory.Common.Schema.{max_body}
use tekes_memory.Common.Strict.{decode, strict}
use tekes_memory.Store.Cursor.{split_dot, cursor_body, make_cursor, read_cursor}

unfoldable pub no_dot : String → Bool
no_dot String.[] = true
no_dot (String.◌∷◌ c s) = not (nat_eq (code c) 46) && no_dot s

split_dot-append :
    (s t : String) → no_dot s ≡ true → split_dot (append s (append "." t)) ≡ some (s, t)
unfolding split_dot no_dot
split_dot-append String.[] t h =
    rw (nil-append (append "." t), cons-append _ String.[] t, nil-append t) refl
split_dot-append (String.◌∷◌ c s) t h =
    rw (cons-append c s (append "." t)) (ground (arith, split_dot-append s t))

strict-cursor_body :
    (query_id generation : String) (offset : ℕ)
    → strict (cursor_body query_id generation offset) ≡ ok (cursor_body query_id generation offset)
unfolding strict cursor_body tekes_memory.Json.Access.get_field
strict-cursor_body query_id generation offset = refl

-- The content of a cursor, read from an object.
cursor_body-query : (q g : String) (n : ℕ) → is_text (index (cursor_body q g n) "query") q ≡ true
unfolding cursor_body index is_text
cursor_body-query q g n = (eq_iff q q).1 refl

cursor_body-generation :
    (q g : String) (n : ℕ) → is_text (index (cursor_body q g n) "generation") g ≡ true
unfolding cursor_body index is_text
cursor_body-generation q g n = (eq_iff g g).1 refl

cursor_body-offset :
    (q g : String) (n : ℕ) → n < 2 ^ 63 → as_i64 (index (cursor_body q g n) "offset") ≡ some (pos n)
unfolding cursor_body index as_i64
cursor_body-offset q g n h = ground arith

module _ (env : Env) (secret query_id generation : String) (offset : ℕ) (raw : String)
    (is_raw : env.canonical (cursor_body query_id generation offset) ≡ raw)
    (dots : no_dot (env.url_encode raw) ≡ true)
    (urls : env.url_decode (env.url_encode raw) ≡ some raw)
    (parses : env.parse_tree raw ≡ some (cursor_body query_id generation offset))
    (bound : leb (len raw) max_body ≡ true) (small : offset < 2 ^ 63) where
  decode_any : decode env.parse_tree raw ≡ ok (cursor_body query_id generation offset)
  unfolding decode
  decode_any = rw (bound, parses) (strict-cursor_body query_id generation offset)

  read_signed :
      (signature : String)
      → env.hmac secret raw ≡ some signature
      → read_cursor env secret query_id generation
          (append (env.url_encode raw) (append "." signature))
        ≡ ok offset
  unfolding read_cursor
  read_signed signature h =
      rw
        (
          split_dot-append (env.url_encode raw) signature dots,
          urls,
          h,
          (eq_iff signature signature).1 refl,
          decode_any,
          cursor_body-query query_id generation offset,
          cursor_body-generation query_id generation offset,
          cursor_body-offset query_id generation offset small,
        )
        refl

  read_made :
      (o : Option String) (cursor : String)
      → env.hmac secret raw ≡ o
      → make_cursor env secret query_id generation offset ≡ ok cursor
      → read_cursor env secret query_id generation cursor ≡ ok offset
  unfolding make_cursor
  read_made none cursor e h = absurd (ground (arith, is_raw))
  read_made (some signature) cursor e h =
      subst (λ c. read_cursor env secret query_id generation c ≡ ok offset) (ground (arith, is_raw))
        (read_signed signature e)

-- A cursor is read back as the offset that it was made with, for the same query and generation: if
-- the canonical form of the content parses to the content and is within the bound of a body, its
-- base64 form has no dot and is read back, and the offset is below 2^63.
pub read_cursor-make_cursor :
    (env : Env) (secret query_id generation raw cursor : String) (offset : ℕ)
    → env.canonical (cursor_body query_id generation offset) ≡ raw
    → no_dot (env.url_encode raw) ≡ true
    → env.url_decode (env.url_encode raw) ≡ some raw
    → env.parse_tree raw ≡ some (cursor_body query_id generation offset)
    → leb (len raw) max_body ≡ true
    → offset < 2 ^ 63
    → make_cursor env secret query_id generation offset ≡ ok cursor
    → read_cursor env secret query_id generation cursor ≡ ok offset
read_cursor-make_cursor env secret query_id generation raw cursor offset is_raw dots urls parses
      bound small h =
    read_made env secret query_id generation offset raw is_raw dots urls parses bound small _ cursor
      refl h
