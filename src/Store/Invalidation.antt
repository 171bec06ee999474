-- ===== src/Store/Invalidation.antt =====
-- `clear_lineage_dependents` of src/store.rs with `block`, which `forget` and an invalidated source use.
use tekes_memory.Prelude.{
  ◌≡◌, refl, ◌++◌, ◌&&◌, Bool, true, String, List, [], ◌∷◌, ℕ, suc, ◌==◌, eq_iff, any, arith, inl,
  inr, Bool-cases,
}
use tekes_memory.Json.{Value}
use tekes_memory.Json.Access.{index}
use tekes_memory.Common.{ok, err, source_unavailable}
use tekes_memory.Common.Access.{array}
use tekes_memory.Store.Tables.{Db, TombstoneRow, insert_or_ignore}
use tekes_memory.Store.Exec.{Settings, State, Exec, query, execute, fold_each, ◌>>=◌}
use tekes_memory.Store.Keeps.{Keeps, Keeps-continue, Keeps-bind, Keeps-query, Keeps-fold_each}
use tekes_memory.Store.Put.{is_tombstoned}
use tekes_memory.Store.Lineage.{
  add_tombstone, live_observations, clear_row, visit_key, lineage_loop, clear_lineage_dependents,
}
use tekes_memory.Store.Stable.Erasure.{clear_row-Keeps, lineage_loop-Keeps}
use tekes_memory.Store.Tombstones.{Dead, Dead-Stable}
use tekes_memory.Store.Write.{save}
use tekes_memory.Store.History.{Request, run, carries, no_revival}

any-last {ℓ} :
    {A : Type ℓ} (f : A → Bool) (xs : List A) (a : A) → f a ≡ true → any f (xs ++ a ∷ []) ≡ true
unfolding any
any-last f [] a h = rw h refl
any-last f (x ∷ xs) a h = ground (arith, any-last f xs a)

add_tombstone-IsDead : (scope key : String) (db : Db) → Dead scope key (add_tombstone scope key db)
unfolding add_tombstone insert_or_ignore is_tombstoned
add_tombstone-IsDead scope key db =
    elim (Bool-cases
      (any (λ (t : TombstoneRow). t.scope == scope && t.source_key == key) db.tombstones)) [
        | inl e ↦ rw e e
        | inr e ↦ rw e (
            any-last (λ (t : TombstoneRow). t.scope == scope && t.source_key == key) db.tombstones _
              (rw ((eq_iff scope scope).1 refl, (eq_iff key key).1 refl) refl))
      ]

after_bind {ℓ κ} :
    {A : Type ℓ} {B : Type κ} {P : Db → Type 0} (first : Exec A) (rest : A → Exec B) (s : State)
    → P (first s).1.db
    → ((a : A) → Keeps P (rest a))
    → P ((first >>= rest) s).1.db
unfolding ◌>>=◌
after_bind first rest s h each = Keeps-continue (first s).0 rest (first s).1 each h

module _ (st : Settings) (scope key : String) where
  execute-Dead : (s : State) → Dead scope key (execute (add_tombstone scope key) s).1.db
  unfolding execute
  execute-Dead s = add_tombstone-IsDead scope key s.db

  visit_key-Dead :
      (stack : List String) (s : State) → Dead scope key (visit_key st scope true key stack s).1.db
  unfolding visit_key
  visit_key-Dead stack s =
      let rest : Exec (List String) = query (live_observations scope) >>= λ rows.
      fold_each rows stack (clear_row st scope true key) in
      after_bind (execute (add_tombstone scope key)) (λ _. rest) s (execute-Dead s)
        (λ _. Keeps-bind _ _ (Keeps-query _) (λ rows.
          Keeps-fold_each rows stack _
            (clear_row-Keeps (Dead-Stable scope key).framed st scope true key)))

  lineage_loop-Dead :
      (fuel : ℕ) (stack : List String) (s : State)
      → Dead scope key (lineage_loop st scope true (suc fuel) (key ∷ stack) [] s).1.db
  unfolding lineage_loop any
  lineage_loop-Dead fuel stack s =
      after_bind (visit_key st scope true key stack) _ s (visit_key-Dead stack s)
        (λ stack'. lineage_loop-Keeps (Dead-Stable scope key).framed st scope true fuel stack' _)

  clear_lineage_dependents-Dead :
      (s : State) → Dead scope key (clear_lineage_dependents st scope key true s).1.db
  unfolding clear_lineage_dependents ◌>>=◌
  clear_lineage_dependents-Dead s = lineage_loop-Dead _ [] s

-- Once the dependents of a source are cleared for good, no history of calls and maintenance makes
-- the store save a record with that source in that scope: the save is refused, and changes nothing.
pub cleared_forever :
    (st : Settings) (scope key : String) (s : State) (history : List Request) (st' : Settings)
    (a : Value) (vs : List Value)
    → st'.env.canonical (index a "scope") ≡ scope
    → array a "sources" ≡ ok vs
    → any (carries key) vs ≡ true
    → save st' a (run history (clear_lineage_dependents st scope key true s).1)
      ≡ (err source_unavailable, run history (clear_lineage_dependents st scope key true s).1)
cleared_forever st scope key s history st' a vs =
    no_revival scope key _ history st' a vs (clear_lineage_dependents-Dead st scope key s)
