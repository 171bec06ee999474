-- ===== src/Store/Lineage/Ends.antt =====
-- `clear_lineage_dependents` of src/store.rs ends: it meets each source key of the database once at most.
use tekes_memory.Prelude.{◌≡◌, String, List, [], ◌∷◌, ◌++◌, ◌==◌, true, false, All}
use tekes_memory.Json.{Value}
use tekes_memory.Common.{Env, Result, ok, err, invalid_argument}
use tekes_memory.Store.Words.{has}
use tekes_memory.Store.Tables.{Db, ObservationRow}
use tekes_memory.Store.Exec.{State, Exec, ◌>>=◌, pure, fold_each, continue}
use tekes_memory.Store.Rows.{parse_doc}
use tekes_memory.Store.Lineage.{aliases}

abbrev pub aliases_of : Result Value → List String
aliases_of (err e) = []
aliases_of (ok v) = aliases v

-- The keys under which an observation is known, and those of all observations.
abbrev pub row_keys : Env → ObservationRow → List String
row_keys env o = o.source_key ∷ aliases_of (parse_doc env o.payload)

abbrev pub all_keys : Env → List ObservationRow → List String
all_keys env [] = []
all_keys env (o ∷ os) = row_keys env o ++ all_keys env os

module _ (env : Env) (keys : List String) where
  abbrev pub IsKey : String → Type 0
  IsKey k = has k keys ≡ true

  -- An observation with a payload is known under keys of the list.
  abbrev pub Covered : ObservationRow → Type 0
  Covered o = (o.payload == "{}") ≡ false → All IsKey (row_keys env o)

  abbrev pub CoveredDb : Db → Type 0
  CoveredDb db = All Covered db.observations

module _ (Inv : Db → Type 0) where
  -- An action that leaves the database in order and a result of the kind, or meets a payload
  -- that is not JSON.
  abbrev pub Ends : {A : Type 0} → (A → Type 0) → Result A × State → Type 0
  Ends Q (ok a, s) = Inv s.db × Q a
  Ends Q (err e, s) = e ≡ invalid_argument

  pub weaken-Ends :
      {A : Type 0} (Q R : A → Type 0) (x : Result A × State)
      → ((a : A) → Q a → R a)
      → Ends Q x
      → Ends R x
  weaken-Ends Q R (ok a, s) f h = (h.0, f a h.1)
  weaken-Ends Q R (err e, s) f h = h

  continue-Ends :
      {A B : Type 0} (Q : A → Type 0) (R : B → Type 0) (f : A → Exec B) (x : Result A × State)
      → Ends Q x
      → ((a : A) (s' : State) → Inv s'.db → Q a → Ends R (f a s'))
      → Ends R (continue x.0 f x.1)
  continue-Ends Q R f (ok a, s) h k = k a s h.0 h.1
  continue-Ends Q R f (err e, s) h k = h

  pub bind-Ends :
      {A B : Type 0} (Q : A → Type 0) (R : B → Type 0) (m : Exec A) (f : A → Exec B) (s : State)
      → Ends Q (m s)
      → ((a : A) (s' : State) → Inv s'.db → Q a → Ends R (f a s'))
      → Ends R ((m >>= f) s)
  unfolding ◌>>=◌
  bind-Ends Q R m f s h k = continue-Ends Q R f (m s) h k

  pub fold_each-Ends :
      {A B : Type 0} (P : A → Type 0) (Q : B → Type 0) (f : A → B → Exec B)
      → ((a : A) (b : B) (s : State) → Inv s.db → P a → Q b → Ends Q (f a b s))
      → (xs : List A) (b : B) (s : State) → Inv s.db
      → All P xs
      → Q b
      → Ends Q (fold_each xs b f s)
  unfolding fold_each pure
  fold_each-Ends P Q f step [] b s c h q = (c, q)
  fold_each-Ends P Q f step (a ∷ xs) b s c (p, h) q =
      bind-Ends Q Q (f a b) (λ b'. fold_each xs b' f) s (step a b s c p q)
        (λ b' s' c' q'. fold_each-Ends P Q f step xs b' s' c' h q')
