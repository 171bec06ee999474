-- ===== src/Store/Reads.antt =====
-- The parts of the store that change nothing: they keep every property of the database.
use tekes_memory.Prelude.{String, List, [], ◌∷◌, Option, none, some}
use tekes_memory.Json.{Value}
use tekes_memory.Store.Tables.{Db}
use tekes_memory.Store.Exec.{Settings}
use tekes_memory.Store.Keeps.{
  Keeps, Keeps-bind, Keeps-if, Keeps-option, Keeps-pure, Keeps-query, Keeps-lift, keeps_rules,
}
use tekes_memory.Store.Put.{blocked, check_source, status}
use tekes_memory.Store.Rows.{row, current_status}
use tekes_memory.Store.Read.{at_revision, refresh, get_record}
use tekes_memory.Store.Page.{Page, Budget, fill_page}
use tekes_memory.Store.Search.{search as search_store}
use tekes_memory.Store.Observe.{check_derived}
use tekes_memory.Store.Call.{operation_status, read_tool}

module _ {P : Db → Type 0} where
  pub check_source-Keeps : (sc : String) (v : Value) → Keeps P (check_source sc v)
  check_source-Keeps sc v =
      Keeps-option _ _ _ (Keeps-pure tt) (λ k. Keeps-bind _ _ (Keeps-query _) (λ d. Keeps-lift _))

  pub blocked-Keeps : (st : Settings) (a : Value) → Keeps P (blocked st a)
  unfolding blocked
  blocked-Keeps st a = search (keeps_rules, check_source-Keeps) depth 10

  pub status-Keeps : (id : String) → Keeps P (status id)
  unfolding status
  status-Keeps id = search keeps_rules

  pub row-Keeps : (st : Settings) (sc : Value) (id : String) → Keeps P (row st sc id)
  unfolding row
  row-Keeps st sc id = search keeps_rules depth 10

  pub current_status-Keeps : (st : Settings) (r : Value) → Keeps P (current_status st r)
  unfolding current_status
  current_status-Keeps st r = search keeps_rules depth 10

  pub fill_page-Keeps :
      (st : Settings) (b : Budget) (rs : List Value) (page : Page)
      → Keeps P (fill_page st b rs page)
  unfolding fill_page
  fill_page-Keeps st b [] page = Keeps-pure page
  fill_page-Keeps st b (r ∷ rs) page = Keeps-if _ _ _ (fill_page-Keeps st b rs _) (
      Keeps-bind _ _ (current_status-Keeps st r)
        (λ now. Keeps-if _ _ _ (fill_page-Keeps st b rs _) (Keeps-pure _)))

  pub search_store-Keeps : (st : Settings) (p a : Value) → Keeps P (search_store st p a)
  unfolding search_store
  search_store-Keeps st p a = search (keeps_rules, fill_page-Keeps) depth 20

  pub at_revision-Keeps :
      (st : Settings) (id : String) (o : Option Value) (r : Value) → Keeps P (at_revision st id o r)
  unfolding at_revision
  at_revision-Keeps st id none r = Keeps-pure r
  at_revision-Keeps st id (some rev) r = search keeps_rules depth 10

  pub get_record-Keeps : (st : Settings) (a : Value) → Keeps P (get_record st a)
  unfolding get_record refresh
  get_record-Keeps st a =
      search (keeps_rules, row-Keeps, at_revision-Keeps, current_status-Keeps) depth 20

  pub check_derived-Keeps :
      (st : Settings) (typ : String) (sc obs : Value) (k : String)
      → Keeps P (check_derived st typ sc obs k)
  unfolding check_derived
  check_derived-Keeps st typ sc obs k = search keeps_rules depth 10

  pub operation_status-Keeps : (st : Settings) (p a : Value) → Keeps P (operation_status st p a)
  unfolding operation_status
  operation_status-Keeps st p a = search keeps_rules depth 20

  pub read_tool-Keeps :
      (st : Settings) (p : Value) (name : String) (a : Value) → Keeps P (read_tool st p name a)
  unfolding read_tool
  read_tool-Keeps st p name a = search (keeps_rules, search_store-Keeps, get_record-Keeps) depth 10
