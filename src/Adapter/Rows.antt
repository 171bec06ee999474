-- ===== src/Adapter/Rows.antt =====
-- `texts`, `visible` and the reading of the ledger by `prefix` in src/adapter.rs.
pub mod Numbered
use tekes_memory.Prelude.{
  ℕ, zero, suc, ◌+◌, ◌*◌, pos, ltb, String, List, [], ◌∷◌, Option, none, some, ◌==◌, Bool, true,
  false, not, ◌&&◌, ◌||◌, if◌then◌else◌,
}
use tekes_memory.Json.{Value, obj, end, str, int, json_eq}
use tekes_memory.Json.Access.{get, index, as_str, as_array, is_text}
use tekes_memory.Json.Edit.{set_key}
use tekes_memory.Common.{Env, Result, ok, err, ◌>>=◌, ◌>>◌, fail_if, source_unavailable}
use tekes_memory.Common.Schema.{max_body}
use tekes_memory.Common.Scrub.{scrub}
use tekes_memory.Common.Strict.{decode}
use tekes_memory.Store.Words.{join}
use tekes_memory.Store.Hit.{take_chars}

abbrev is_text_block : Value → Bool
is_text_block b =
    is_text (index b "type") "text"
    || is_text (index b "type") "input_text"
    || is_text (index b "type") "output_text"

-- The texts of the blocks that have one.
unfoldable pub block_texts : List Value → List String
unfolding index is_text as_str
block_texts [] = []
block_texts (b ∷ bs) =
    let rest = block_texts bs in
    if is_text_block b
    then elim (as_str (index b "text")) [ none ↦ rest | some t ↦ t ∷ rest ]
    else rest

abbrev list_texts : Option (List Value) → List String
list_texts none = []
list_texts (some bs) = block_texts bs

unfoldable pub texts : Value → String
unfolding as_str as_array block_texts join
texts v = elim (as_str v) [ some s ↦ s | none ↦ join "\n" (list_texts (as_array v)) ]

-- The fields of a row that an observation may show.
abbrev visible_fields : List String
visible_fields =
    "kind" ∷ "seq" ∷ "turn" ∷ "outcome" ∷ "status" ∷ "reason" ∷ "classification" ∷ "call" ∷ "name"
    ∷ []

unfoldable pub copy_fields : Value → List String → Value → Value
unfolding get set_key
copy_fields e [] v = v
copy_fields e (k ∷ ks) v = elim (get k e) [
  | none ↦ copy_fields e ks v
  | some x ↦ copy_fields e ks (set_key v k x)
]

unfoldable pub visible : Env → Value → Value
unfolding copy_fields texts take_chars set_key scrub
visible env e =
    let v = copy_fields e visible_fields (obj end) in
    let content = texts (index e "content") in
    scrub env (if content == "" then v else set_key v "text" (str (take_chars 8192 content)))

-- What `read_until` gives: a text, the number of its bytes, and whether it ends with a line feed.
pub record Line : Type 0 where
  pub content : String
  pub size : ℕ
  pub ended : Bool

-- A line that is cut off or too long, or too many bytes in all.
abbrev pub is_broken : Line → ℕ → Bool
is_broken l total = not l.ended || ltb max_body l.size || ltb (64 * max_body) (total + l.size)

-- The loop over the lines: the number of those to come, the next number and the bytes so far.
unfoldable pub read_rows : Env → ℕ → ℕ → ℕ → List Line → Result (List Value)
unfolding decode index
read_rows env zero seq total lines = ok []
read_rows env (suc n) seq total [] = err source_unavailable
read_rows env (suc n) seq total (l ∷ ls) =
    let rest = read_rows env n (suc seq) (total + l.size) ls in
    do
      fail_if (is_broken l total) source_unavailable
      row ← decode env.parse_tree l.content
      fail_if (not (json_eq (index row "seq") (int (pos seq)))) source_unavailable
      rows ← rest
      ok (row ∷ rows)

-- The first row is the genesis of the thread.
abbrev pub is_genesis : Value → List Value → Bool
is_genesis r [] = false
is_genesis r (g ∷ rows) =
    is_text (index g "kind") "genesis"
    && json_eq (index g "thread") (index r "thread_id")
    && json_eq (index g "workspace") (index r "workspace_id")

-- The rows of the ledger up to a number, from the lines of its file.
unfoldable pub prefix_rows : Env → Value → ℕ → List Line → Result (List Value)
unfolding read_rows is_text
prefix_rows env r through lines = do
  rows ← read_rows env through 1 0 lines
  fail_if (not (is_genesis r rows)) source_unavailable
  ok rows
