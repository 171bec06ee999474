-- ===== src/Store/Erase/Linked.antt =====
-- The dependencies that `clear_lineage_dependents` of src/store.rs leaves are those that it found.
use tekes_memory.Prelude.{
  ◌≡◌, refl, sym, subst, ℕ, zero, suc, String, List, [], ◌∷◌, Bool, true, false, All, if-elim,
}
use tekes_memory.Json.{Value}
use tekes_memory.Store.Words.{has}
use tekes_memory.Store.Tables.{Db, ObservationRow, DependencyRow}
use tekes_memory.Store.Exec.{Settings}
use tekes_memory.Store.Keeps.{
  Keeps, Keeps-execute, Keeps-bind, Keeps-if, Keeps-pure, Keeps-fail, keeps_rules,
}
use tekes_memory.Store.Lineage.{
  add_tombstone, add_tombstones, clear_dependent, aliases, clear_row, visit_key, lineage_loop,
  clear_lineage_dependents, clear_observations, complete_jobs, job_exists,
}

module _ (keys : List String) where
  abbrev pub IsId : String → Type 0
  IsId k = has k keys ≡ true

  abbrev pub Ids : List String → Type 0
  Ids ks = All IsId ks

  -- The dependencies are those of records in the list.
  abbrev pub Linked : Db → Type 0
  Linked db = All (λ (d : DependencyRow). IsId d.record_id) db.dependencies

  same_links : (db db' : Db) → db'.dependencies ≡ db.dependencies → Linked db → Linked db'
  same_links db db' e h = subst (All (λ (d : DependencyRow). IsId d.record_id)) (sym e) h

  add_tombstones-dependencies :
      (scope : String) (ks : List String) (db : Db)
      → (add_tombstones scope ks db).dependencies ≡ db.dependencies
  unfolding add_tombstones add_tombstone
  add_tombstones-dependencies scope [] db = refl
  add_tombstones-dependencies scope (k ∷ ks) db =
      add_tombstones-dependencies scope ks (add_tombstone scope k db)

  clear_dependent-Linked :
      (scope : String) (block : Bool) (o : ObservationRow) (payload : Value) (db : Db)
      → Linked db
      → Linked (clear_dependent scope block o payload db)
  unfolding clear_dependent complete_jobs clear_observations add_tombstone
  clear_dependent-Linked scope true o payload db h =
      let h' =
        same_links db (add_tombstones scope (aliases payload) db)
          (add_tombstones-dependencies scope (aliases payload) db) h in
      if-elim Linked (job_exists o.id db) _ _ (λ t. h') (λ t. h')
  clear_dependent-Linked scope false o payload db h =
      if-elim Linked (job_exists o.id db) _ _ (λ t. h) (λ t. h)

  add_tombstone-Linked :
      (scope key : String) (db : Db) → Linked db → Linked (add_tombstone scope key db)
  unfolding add_tombstone
  add_tombstone-Linked scope key db h = h

  clear_row-Linked :
      (st : Settings) (sc : String) (b : Bool) (k : String) (o : ObservationRow) (l : List String)
      → Keeps Linked (clear_row st sc b k o l)
  unfolding clear_row
  clear_row-Linked st sc b k o l =
      search (keeps_rules, Keeps-execute, clear_dependent-Linked) depth 10

  visit_key-Linked :
      (st : Settings) (sc : String) (b : Bool) (k : String) (l : List String)
      → Keeps Linked (visit_key st sc b k l)
  unfolding visit_key
  visit_key-Linked st sc b k l =
      search (keeps_rules, Keeps-execute, add_tombstone-Linked, clear_row-Linked) depth 10

  lineage_loop-Linked :
      (st : Settings) (sc : String) (b : Bool) (f : ℕ) (l seen : List String)
      → Keeps Linked (lineage_loop st sc b f l seen)
  unfolding lineage_loop
  lineage_loop-Linked st sc b zero [] seen = Keeps-pure seen
  lineage_loop-Linked st sc b (suc f) [] seen = Keeps-pure seen
  lineage_loop-Linked st sc b zero (k ∷ l) seen =
      Keeps-if _ _ _ (lineage_loop-Linked st sc b zero l seen) (Keeps-fail _)
  lineage_loop-Linked st sc b (suc f) (k ∷ l) seen =
      Keeps-if _ _ _ (lineage_loop-Linked st sc b (suc f) l seen)
        (Keeps-bind _ _ (visit_key-Linked st sc b k l) (λ l'. lineage_loop-Linked st sc b f l' _))

  pub clear-Linked :
      (st : Settings) (sc k : String) (b : Bool) → Keeps Linked (clear_lineage_dependents st sc k b)
  unfolding clear_lineage_dependents
  clear-Linked st sc k b = search (keeps_rules, lineage_loop-Linked)
