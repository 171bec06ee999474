-- ===== src/Store/Stable/Erasure.antt =====
-- Stable outlast `clear_lineage_dependents`, `erase`, `forget` and `observe`.
use tekes_memory.Prelude.{refl, ℕ, zero, suc, Bool, String, List, [], ◌∷◌, Option, none, some}
use tekes_memory.Json.{Value}
use tekes_memory.Store.Tables.{Db, ObservationRow, JobRow}
use tekes_memory.Store.Exec.{Settings, Exec}
use tekes_memory.Store.Keeps.{
  Keeps, Keeps-execute, Keeps-bind, Keeps-if, Keeps-pure, Keeps-fail, keeps_rules,
}
use tekes_memory.Store.Lineage.{
  clear_observations, complete_jobs, clear_source, clear_row, visit_key, lineage_loop,
  clear_lineage_dependents,
}
use tekes_memory.Store.Erase.{
  push_dependents, push_invalidated, remove_record, erase_one, erase_loop, erase, check_revision,
  check_revisions, forget,
}
use tekes_memory.Store.Reads.{check_derived-Keeps}
use tekes_memory.Store.Observe.{
  extend_dependents, erase_derived, invalidate_target, insert_observation, insert_job,
  retire_previous, store_observation, deliver, observe,
}
use tekes_memory.Store.Stable.{Framed, Keeps-frame, clear_dependent-Keeps, reconcile-Keeps}

module _ {P : Db → Type 0} (framed : Framed P) where
  abbrev Kept {ℓ} : {A : Type ℓ} → Exec A → Type ℓ
  Kept m = Keeps P m

  pub clear_observations-Keeps :
      (s : String) (f : ObservationRow → Bool) (db : Db) → P db → P (clear_observations s f db)
  unfolding clear_observations
  clear_observations-Keeps s f db = framed.frame db _ refl refl refl

  complete_jobs-Keeps : (f : JobRow → Bool) (db : Db) → P db → P (complete_jobs f db)
  unfolding complete_jobs
  complete_jobs-Keeps f db = framed.frame db _ refl refl refl

  clear_source-Keeps : (sc k s : String) → Kept (clear_source sc k s)
  unfolding clear_source
  clear_source-Keeps sc k s =
      Keeps-bind _ _ (Keeps-execute _ (clear_observations-Keeps s _))
        (λ _. Keeps-execute _ (λ db h. complete_jobs-Keeps _ db h))

  pub clear_row-Keeps :
      (st : Settings) (sc : String) (b : Bool) (k : String) (o : ObservationRow) (l : List String)
      → Kept (clear_row st sc b k o l)
  unfolding clear_row
  clear_row-Keeps st sc b k o l =
      search (keeps_rules, Keeps-execute, Keeps-frame framed, clear_dependent-Keeps framed) depth 10

  visit_key-Keeps :
      (st : Settings) (sc : String) (b : Bool) (k : String) (l : List String)
      → Kept (visit_key st sc b k l)
  unfolding visit_key
  visit_key-Keeps st sc b k l =
      search (keeps_rules, Keeps-execute, Keeps-frame framed, framed.tombstone, clear_row-Keeps)
        depth 10

  pub lineage_loop-Keeps :
      (st : Settings) (sc : String) (b : Bool) (f : ℕ) (l seen : List String)
      → Kept (lineage_loop st sc b f l seen)
  unfolding lineage_loop
  lineage_loop-Keeps st sc b zero [] seen = Keeps-pure seen
  lineage_loop-Keeps st sc b (suc f) [] seen = Keeps-pure seen
  lineage_loop-Keeps st sc b zero (k ∷ l) seen =
      Keeps-if _ _ _ (lineage_loop-Keeps st sc b zero l seen) (Keeps-fail _)
  lineage_loop-Keeps st sc b (suc f) (k ∷ l) seen =
      Keeps-if _ _ _ (lineage_loop-Keeps st sc b (suc f) l seen)
        (Keeps-bind _ _ (visit_key-Keeps st sc b k l) (λ l'. lineage_loop-Keeps st sc b f l' _))

  pub clear_lineage_dependents-Keeps :
      (st : Settings) (sc k : String) (b : Bool) → Kept (clear_lineage_dependents st sc k b)
  unfolding clear_lineage_dependents
  clear_lineage_dependents-Keeps st sc k b = search (keeps_rules, lineage_loop-Keeps)

  push_dependents-Keeps : (sc k : String) (l : List String) → Kept (push_dependents sc k l)
  unfolding push_dependents
  push_dependents-Keeps sc k l = search keeps_rules

  push_invalidated-Keeps :
      (st : Settings) (sc : String) (b : Bool) (k : String) (l : List String)
      → Kept (push_invalidated st sc b k l)
  unfolding push_invalidated
  push_invalidated-Keeps st sc b k l =
      search (keeps_rules, clear_lineage_dependents-Keeps, push_dependents-Keeps)

  remove_record-Keeps : (id : String) (db : Db) → P db → P (remove_record id db)
  unfolding remove_record clear_observations complete_jobs
  remove_record-Keeps id db = framed.frame db _ refl refl refl

  erase_one-Keeps :
      (st : Settings) (sc : String) (b : Bool) (id : String) (l : List String)
      → Kept (erase_one st sc b id l)
  unfolding erase_one
  erase_one-Keeps st sc b id l =
      search
        (
          keeps_rules,
          Keeps-execute,
          Keeps-frame framed,
          push_invalidated-Keeps,
          remove_record-Keeps,
        )
        depth 10

  erase_loop-Keeps :
      (st : Settings) (sc : String) (b : Bool) (f : ℕ) (l seen : List String)
      → Kept (erase_loop st sc b f l seen)
  unfolding erase_loop
  erase_loop-Keeps st sc b zero [] seen = Keeps-pure seen
  erase_loop-Keeps st sc b (suc f) [] seen = Keeps-pure seen
  erase_loop-Keeps st sc b zero (k ∷ l) seen =
      Keeps-if _ _ _ (erase_loop-Keeps st sc b zero l seen) (Keeps-fail _)
  erase_loop-Keeps st sc b (suc f) (k ∷ l) seen =
      Keeps-if _ _ _ (erase_loop-Keeps st sc b (suc f) l seen)
        (Keeps-bind _ _ (erase_one-Keeps st sc b k l) (λ l'. erase_loop-Keeps st sc b f l' _))

  pub erase-Keeps :
      (st : Settings) (sc : String) (ids : List String) (b : Bool) → Kept (erase st sc ids b)
  unfolding erase
  erase-Keeps st sc ids b = search (keeps_rules, erase_loop-Keeps)

  check_revision-Keeps : (sc : String) (id rev : Value) → Kept (check_revision sc id rev)
  unfolding check_revision
  check_revision-Keeps sc id rev = search keeps_rules

  check_revisions-Keeps : (sc : String) (ids revs : List Value) → Kept (check_revisions sc ids revs)
  unfolding check_revisions
  check_revisions-Keeps sc [] revs = Keeps-pure tt
  check_revisions-Keeps sc (id ∷ ids) [] = Keeps-pure tt
  check_revisions-Keeps sc (id ∷ ids) (rev ∷ revs) =
      Keeps-bind _ _ (check_revision-Keeps sc id rev) (λ _. check_revisions-Keeps sc ids revs)

  pub forget-Keeps : (st : Settings) (a : Value) → Kept (forget st a)
  unfolding forget
  forget-Keeps st a =
      search (keeps_rules, check_revisions-Keeps, erase-Keeps, reconcile-Keeps framed) depth 20

  extend_dependents-Keeps : (sc k : String) (l : List String) → Kept (extend_dependents sc k l)
  unfolding extend_dependents
  extend_dependents-Keeps sc k l = search keeps_rules

  pub erase_derived-Keeps :
      (st : Settings) (sc k : String) (l : List String) (b : Bool)
      → Kept (erase_derived st sc k l b)
  unfolding erase_derived
  erase_derived-Keeps st sc k l b =
      search (keeps_rules, clear_lineage_dependents-Keeps, extend_dependents-Keeps, erase-Keeps)
        depth 10

  invalidate_target-Keeps :
      (st : Settings) (sc : String) (v : Value) → Kept (invalidate_target st sc v)
  unfolding invalidate_target
  invalidate_target-Keeps st sc v =
      search
        (
          keeps_rules,
          Keeps-execute,
          Keeps-frame framed,
          framed.tombstone,
          erase_derived-Keeps,
          clear_source-Keeps,
        )
        depth 10

  retire_previous-Keeps :
      (st : Settings) (obs : Value) (typ sc k : String) → Kept (retire_previous st obs typ sc k)
  unfolding retire_previous
  retire_previous-Keeps st obs typ sc k =
      search (keeps_rules, erase_derived-Keeps, clear_source-Keeps, invalidate_target-Keeps) depth
        10

  store_observation-Keeps :
      (st : Settings) (obs : Value) (typ sc k dg : String) (dead : Bool)
      → Kept (store_observation st obs typ sc k dg dead)
  unfolding store_observation insert_observation insert_job
  store_observation-Keeps st obs typ sc k dg dead =
      search (keeps_rules, Keeps-execute, Keeps-frame framed, erase_derived-Keeps) depth 10

  deliver-Keeps :
      (st : Settings) (obs : Value) (typ sc k dg : String) (dead : Bool) (o : Option ObservationRow)
      → Kept (deliver st obs typ sc k dg dead o)
  unfolding deliver
  deliver-Keeps st obs typ sc k dg dead none =
      search (keeps_rules, retire_previous-Keeps, store_observation-Keeps) depth 10
  deliver-Keeps st obs typ sc k dg dead (some o) = search keeps_rules

  pub observe-Keeps : (st : Settings) (a : Value) → Kept (observe st a)
  unfolding observe
  observe-Keeps st a = search (keeps_rules, check_derived-Keeps, deliver-Keeps) depth 10
