-- ===== src/Store/Lineage/Covered.antt =====
-- The keys of the observations of src/store.rs while what derives from a source is cleared.
use tekes_memory.Prelude.{
  ◌≡◌, refl, sym, subst, String, List, [], ◌∷◌, ◌++◌, Option, none, some, Bool, true, false, select,
  update_where, All, if-elim, arith,
}
use tekes_memory.Json.{Value}
use tekes_memory.Common.{ok_or, Env, ok, invalid_argument}
use tekes_memory.Store.Tables.{Db, ObservationRow}
use tekes_memory.Store.Exec.{State, lift}
use tekes_memory.Store.Lineage.{
  add_tombstone, add_tombstones, aliases, clear_dependent, clear_observations, complete_jobs,
  is_pending, job_exists,
}
use tekes_memory.Store.Lineage.Ends.{row_keys, IsKey, Covered, CoveredDb, Ends}

module _ (env : Env) (keys : List String) where
  -- A row whose payload is cleared has no keys to follow.
  update-Covered :
      (f : ObservationRow → Bool) (state : String) (os : List ObservationRow)
      → All (Covered env keys) os
      → All
          (Covered env keys)
          (update_where f (λ (o : ObservationRow). record o { payload = "{}"; state = state }) os)
  unfolding update_where
  update-Covered f state [] h = tt
  update-Covered f state (o ∷ os) (h, hs) = (
    if-elim (Covered env keys) (f o) _ _ (λ t e. absurd (cc)) (λ t. h),
    update-Covered f state os hs,
  )

  add_tombstones-observations :
      (scope : String) (ks : List String) (db : Db)
      → (add_tombstones scope ks db).observations ≡ db.observations
  unfolding add_tombstones add_tombstone
  add_tombstones-observations scope [] db = refl
  add_tombstones-observations scope (k ∷ ks) db =
      add_tombstones-observations scope ks (add_tombstone scope k db)

  pub clear_dependent-Covered :
      (scope : String) (block : Bool) (o : ObservationRow) (payload : Value) (db : Db)
      → CoveredDb env keys db
      → CoveredDb env keys (clear_dependent scope block o payload db)
  unfolding clear_dependent complete_jobs clear_observations add_tombstone
  clear_dependent-Covered scope true o payload db h =
      if-elim (CoveredDb env keys) (job_exists o.id db) _ _
        (λ t. update-Covered _ _ _ (
          subst (All (Covered env keys))
            (sym (add_tombstones-observations scope (aliases payload) db)) h))
        (λ t. update-Covered _ _ _ (
          subst (All (Covered env keys))
            (sym (add_tombstones-observations scope (aliases payload) db)) h))
  clear_dependent-Covered scope false o payload db h =
      if-elim (CoveredDb env keys) (job_exists o.id db) _ _ (λ t. update-Covered _ _ _ h)
        (λ t. update-Covered _ _ _ h)

  -- Only rows with a payload are visited.
  pub select-IsKey :
      (scope : String) (os : List ObservationRow)
      → All (Covered env keys) os
      → All (λ o. All (IsKey env keys) (row_keys env o)) (select (is_pending scope) os)
  unfolding select
  select-IsKey scope [] h = tt
  select-IsKey scope (o ∷ os) (h, hs) =
      if-elim (All (λ o. All (IsKey env keys) (row_keys env o))) (is_pending scope o) _ _
        (λ t. (h (ground (arith, t)), select-IsKey scope os hs)) (λ t. select-IsKey scope os hs)

  pub All-append :
      (xs ys : List String)
      → All (IsKey env keys) xs
      → All (IsKey env keys) ys
      → All (IsKey env keys) (xs ++ ys)
  All-append [] ys h k = k
  All-append (x ∷ xs) ys (h, hs) k = (h, All-append xs ys hs k)

  pub parse-Ends :
      (o : Option Value) (s : State)
      → CoveredDb env keys s.db
      → Ends
          (CoveredDb env keys)
          (λ v. ok_or o invalid_argument ≡ ok v)
          (lift (ok_or o invalid_argument) s)
  unfolding lift
  parse-Ends none s c = refl
  parse-Ends (some v) s c = (c, refl)
