-- ===== src/Store/Keeps.antt =====
-- Invariants of store operations: one rule for each way to build one.
use tekes_memory.Prelude.{
  Bool, true, false, List, [], ◌∷◌, Option, none, some, Bool-cases, inl, inr, if◌then◌else◌,
}
use tekes_memory.Common.{Env, Error, Result, ok, err}
use tekes_memory.Store.Tables.{Db}
use tekes_memory.Store.Exec.{
  Settings, State, Exec, pure, fail, lift, query, execute, draw, ◌>>=◌, continue, settle,
  transaction, for_each, fold_each,
}

-- `m` keeps `P`, whether it returns or fails.
pub record Keeps {ℓ} {A : Type ℓ} (P : Db → Type 0) (m : Exec A) : Type ℓ where
  pub at : (s : State) → P s.db → P (m s).1.db

module _ {ℓ} {A : Type ℓ} {P : Db → Type 0} where
  pub Keeps-option {κ} :
      {B : Type κ} (o : Option B) (m : Exec A) (f : B → Exec A)
      → Keeps P m
      → ((b : B) → Keeps P (f b))
      → Keeps P (elim o [ none ↦ m | some b ↦ f b ])
  Keeps-option none m f km kf = km
  Keeps-option (some b) m f km kf = kf b

  -- A query, and what does not touch the database at all.
  pub Keeps-query : (read : Db → A) → Keeps P (query read)
  unfolding query
  Keeps-query read = record { at = λ _ before. before }

  pub Keeps-if : (b : Bool) (m n : Exec A) → Keeps P m → Keeps P n → Keeps P (if b then m else n)
  Keeps-if true m n km kn = km
  Keeps-if false m n km kn = kn

  pub Keeps-lift : (result : Result A) → Keeps P (lift result)
  unfolding lift
  Keeps-lift result = record { at = λ _ before. before }

  pub Keeps-fail : (error : Error) → Keeps P (fail {A = A} error)
  unfolding fail
  Keeps-fail error = record { at = λ _ before. before }

  pub Keeps-pure : (value : A) → Keeps P (pure value)
  unfolding pure
  Keeps-pure value = record { at = λ _ before. before }

module _ {P : Db → Type 0} where
  pub Keeps-execute : (f : Db → Db) → ((db : Db) → P db → P (f db)) → Keeps P (execute f)
  unfolding execute
  Keeps-execute f h = record { at = λ s p. h s.db p }

  pub Keeps-draw : (env : Env) → Keeps P (draw env)
  unfolding draw
  Keeps-draw env = record { at = λ s h. h }

module _ {ℓ κ} {A : Type ℓ} {B : Type κ} {P : Db → Type 0} where
  pub Keeps-continue :
      (result : Result A) (rest : A → Exec B) (s : State)
      → ((a : A) → Keeps P (rest a))
      → P s.db
      → P (continue result rest s).1.db
  Keeps-continue (err e) rest s each before = before
  Keeps-continue (ok a) rest s each before = (each a).at s before

  pub Keeps-bind :
      (first : Exec A) (rest : A → Exec B)
      → Keeps P first
      → ((a : A) → Keeps P (rest a))
      → Keeps P (first >>= rest)
  unfolding ◌>>=◌
  Keeps-bind first rest kept each = record {
    at = λ start before.
        Keeps-continue (first start).0 rest (first start).1 each (kept.at start before);
  }

module _ {ℓ} {A : Type ℓ} {P : Db → Type 0} where
  pub Keeps-for_each :
      (l : List A) (f : A → Exec (Unit {0})) → ((a : A) → Keeps P (f a)) → Keeps P (for_each l f)
  unfolding for_each
  Keeps-for_each [] f k = Keeps-pure tt
  Keeps-for_each (a ∷ l) f k = Keeps-bind (f a) _ (k a) (λ _. Keeps-for_each l f k)

  pub Keeps-fold_each :
      {B : Type ℓ} (l : List A) (b : B) (f : A → B → Exec B)
      → ((a : A) (b' : B) → Keeps P (f a b'))
      → Keeps P (fold_each l b f)
  unfolding fold_each
  Keeps-fold_each [] b f k = Keeps-pure b
  Keeps-fold_each (a ∷ l) b f k = Keeps-bind (f a b) _ (k a b) (λ b'. Keeps-fold_each l b' f k)

module _ {ℓ} {A : Type ℓ} (P : Db → Type 0) where
  pub Keeps-settle :
      (st : Settings) (before : Db) (r : Result A) (s : State)
      → P before
      → P s.db
      → P (settle st before (r, s)).1.db
  unfolding settle
  Keeps-settle st before (ok a) s hb hs = elim (Bool-cases st.commit_fails) [
    | inl e ↦ rw (e, settle) hb
    | inr e ↦ rw (e, settle) hs
  ]
  Keeps-settle st before (err e) s hb hs = hb

module _ {ℓ} {A : Type ℓ} {P : Db → Type 0} where
  pub Keeps-transaction : (st : Settings) (m : Exec A) → Keeps P m → Keeps P (transaction st m)
  unfolding transaction
  Keeps-transaction st m k = record {
    at = λ s h. let (r, s') = m s in Keeps-settle P st s.db r s' h (k.at s h);
  }

pub ruleset keeps_rules = (
  Keeps-pure, Keeps-fail, Keeps-lift, Keeps-query, Keeps-if, Keeps-option, Keeps-draw, Keeps-bind,
  Keeps-for_each, Keeps-fold_each, Keeps-transaction,
)
