-- ===== src/Store/Page.antt =====
-- The loop of `search` in src/store.rs that fills a page within a budget of items and bytes.
pub mod Bytes
use Prim.Native.String.{len}
use tekes_memory.Prelude.{
  ℕ, ◌+◌, ◌-◌, leb, Bool, true, false, not, ◌||◌, String, List, [], ◌∷◌, ◌++◌, none, some, length,
  if◌then◌else◌,
}
use tekes_memory.Json.{Value, str, arr, of_list}
use tekes_memory.Json.Access.{index, is_some, is_text, is_true}
use tekes_memory.Json.Edit.{set_key, object}
use tekes_memory.Common.{Env}
use tekes_memory.Store.Hit.{search_hit}
use tekes_memory.Store.Exec.{Settings, Exec, ◌>>=◌, pure}
use tekes_memory.Store.Rows.{valid, current_status}

-- What the page holds, and how far the rows were read.
pub record Page : Type 0 where
  pub items : List Value
  pub conflicts : List Value
  pub consumed : ℕ
  pub content_truncated : Bool
  pub omitted_for_budget : Bool

abbrev pub empty_page : Page
empty_page = record {
  items = [];
  conflicts = [];
  consumed = 0;
  content_truncated = false;
  omitted_for_budget = false;
}

-- `json!({"items":items,"conflicts":conflicts})`, and its size
unfoldable pub reference : List Value → List Value → Value
unfolding object of_list
reference items conflicts =
    object (("items", arr (of_list items)) ∷ ("conflicts", arr (of_list conflicts)) ∷ [])

unfoldable pub size_of : Env → List Value → List Value → ℕ
unfolding reference
size_of env items conflicts = len (env.canonical (reference items conflicts))

-- What the page and the query allow.
pub record Budget : Type 0 where
  pub query : String
  pub cap : ℕ
  pub max_items : ℕ

-- A hit is added.
unfoldable pub add_hit : Bool → Value → Page → Page
unfolding index is_true
add_hit contested r page =
    let truncated = page.content_truncated || is_true (index r "content_truncated") in
    if contested
    then record page {
      conflicts = page.conflicts ++ r ∷ [];
      consumed = page.consumed + 1;
      content_truncated = truncated;
    }
    else record page {
      items = page.items ++ r ∷ [];
      consumed = page.consumed + 1;
      content_truncated = truncated;
    }

-- One row, with its status of now: the page, and whether the loop goes on. A row that does not fit
-- here and would fit alone waits for the next page; one that fits nowhere is passed over.
unfoldable pub place : Env → Budget → Value → Page → Page × Bool
unfolding is_text index size_of search_hit add_hit
place env b r page =
    let contested = is_text (index r "status") "contested" in
    let used = size_of env page.items page.conflicts in
    let fresh = size_of env [] [] in
    let alone = search_hit env r b.query (b.cap - (fresh + 1)) in
    if leb b.max_items (length page.items + length page.conflicts)
    then (page, false)
    else elim (search_hit env r b.query (b.cap - (used + 1))) [
      | some hit ↦ (add_hit contested hit page, true)
      | none ↦
          if is_some alone
          then (page, false)
          else (record page { consumed = page.consumed + 1; omitted_for_budget = true }, true)
    ]

-- The loop. A fact that does not hold now is passed over.
unfoldable pub fill_page : Settings → Budget → List Value → Page → Exec Page
unfolding valid index current_status set_key place
fill_page st b [] page = pure page
fill_page st b (r ∷ rs) page =
    let go_on = λ (p : Page). fill_page st b rs p in
    if not (valid st (index r "fact"))
    then go_on (record page { consumed = page.consumed + 1 })
    else (do
      now ← current_status st r
      let (page', more) = place st.env b (set_key r "status" (str now)) page
      if more then go_on page' else pure page')
