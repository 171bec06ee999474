-- ===== src/Store/Lineage/Termination.antt =====
-- `clear_lineage_dependents` of src/store.rs meets each source key of the database once at most.
use tekes_memory.Prelude.{
  ◌≡◌, ◌⊎◌, refl, subst, ap, ℕ, zero, suc, ◌*◌, ◌≤◌, String, List, [], ◌∷◌, ◌++◌, Option, none,
  some, eq_iff, Bool, true, any, length, length-append, All, if-elim, arith, inl, inr,
  if◌then◌else◌,
}
use tekes_memory.Json.{Value}
use tekes_memory.Common.{Env, Result, ok, err, invalid_argument}
use tekes_memory.Common.Authorize.{set_insert}
use tekes_memory.Store.Words.{has}
use tekes_memory.Store.Tables.{Db, ObservationRow}
use tekes_memory.Store.Exec.{Settings, State, Exec, pure, lift, query, execute}
use tekes_memory.Store.Rows.{parse_doc}
use tekes_memory.Store.Lineage.{
  add_tombstone, aliases, clear_dependent, clear_row, depends_on, lineage_loop, live_observations,
  visit_key, clear_lineage_dependents,
}
use tekes_memory.Store.Lineage.Missing.{missing, missing-length, missing-new}
use tekes_memory.Store.Lineage.Ends.{
  aliases_of, row_keys, all_keys, IsKey, Covered, CoveredDb, Ends, bind-Ends, fold_each-Ends,
}
use tekes_memory.Store.Lineage.Covered.{
  clear_dependent-Covered, select-IsKey, All-append, parse-Ends,
}

module _ (st : Settings) (keys : List String) where
  abbrev Known : List String → Type 0
  Known ks = All (IsKey st.env keys) ks

  clear_row-Ends :
      (scope : String) (block : Bool) (key : String) (o : ObservationRow) (stack : List String)
      (s : State)
      → CoveredDb st.env keys s.db
      → Known (row_keys st.env o)
      → Known stack
      → Ends (CoveredDb st.env keys) Known (clear_row st scope block key o stack s)
  unfolding clear_row execute pure
  clear_row-Ends scope block key o stack s c (own, others) h =
      bind-Ends (CoveredDb st.env keys) (λ v. parse_doc st.env o.payload ≡ ok v) Known
        (lift (parse_doc st.env o.payload)) _ s
        (parse-Ends st.env keys (st.env.from_str o.payload) s c)
        (λ v s' c' read.
          if-elim (λ (m : Exec (List String)). Ends (CoveredDb st.env keys) Known (m s'))
            (depends_on key o v) _ _
            (λ t.
              bind-Ends (CoveredDb st.env keys) (λ _. Unit) Known
                (execute (clear_dependent scope block o v)) _ s'
                (clear_dependent-Covered st.env keys scope block o v s'.db c', tt)
                (λ _ s1 c1 _. (
                  c1,
                  All-append st.env keys (aliases v) (o.source_key ∷ stack)
                      (subst (λ x. Known (aliases_of x)) read others) (own, h),
                )))
            (λ t. (c', h)))

  visit_key-Ends :
      (scope : String) (block : Bool) (key : String) (stack : List String) (s : State)
      → CoveredDb st.env keys s.db
      → Known stack
      → Ends (CoveredDb st.env keys) Known (visit_key st scope block key stack s)
  unfolding visit_key execute pure query
  visit_key-Ends scope block key stack s c h =
      bind-Ends (CoveredDb st.env keys) (λ _. Unit) Known
        (if block then execute (add_tombstone scope key) else pure tt) _ s
        (if-elim (λ (m : Exec (Unit {0})). Ends (CoveredDb st.env keys) (λ _. Unit) (m s)) block _ _
          (λ t. (c, tt)) (λ t. (c, tt)))
        (λ _ s1 c1 _.
          bind-Ends (CoveredDb st.env keys) (All (λ o. Known (row_keys st.env o))) Known
            (query (live_observations scope)) _ s1
            (c1, select-IsKey st.env keys scope s1.db.observations c1)
            (λ rows s2 c2 known.
              fold_each-Ends (CoveredDb st.env keys) (λ o. Known (row_keys st.env o)) Known
                (clear_row st scope block key)
                (λ o b s3 c3 own q. clear_row-Ends scope block key o b s3 c3 own q) rows stack s2 c2
                known h))

  lineage_loop-Ends :
      (scope : String) (block : Bool) (fuel : ℕ) (stack seen : List String) (s : State)
      → CoveredDb st.env keys s.db
      → Known stack
      → missing keys seen ≤ fuel
      → Ends (CoveredDb st.env keys) (λ _. Unit) (lineage_loop st scope block fuel stack seen s)
  unfolding lineage_loop pure
  lineage_loop-Ends scope block fuel [] seen s c h enough = (c, tt)
  lineage_loop-Ends scope block zero (key ∷ stack) seen s c (k, h) enough =
      if-elim (λ (m : Exec (List String)). Ends (CoveredDb st.env keys) (λ _. Unit) (m s))
        (has key seen) _ _ (λ t. lineage_loop-Ends scope block zero stack seen s c h enough)
        (λ t. absurd (omega (arith, missing-new key keys seen k t, enough)))
  lineage_loop-Ends scope block (suc fuel) (key ∷ stack) seen s c (k, h) enough =
      if-elim (λ (m : Exec (List String)). Ends (CoveredDb st.env keys) (λ _. Unit) (m s))
        (has key seen) _ _ (λ t. lineage_loop-Ends scope block (suc fuel) stack seen s c h enough)
        (λ t.
          bind-Ends (CoveredDb st.env keys) Known (λ _. Unit) (visit_key st scope block key stack) _
            s (visit_key-Ends scope block key stack s c h)
            (λ stack' s' c' known.
              lineage_loop-Ends scope block fuel stack' (set_insert key seen) s' c' known
                (omega (arith, missing-new key keys seen k t, enough))))

pub has-append_left : (k : String) (xs ys : List String) → has k xs ≡ true → has k (xs ++ ys) ≡ true
unfolding any
has-append_left k [] ys h = absurd (cc)
has-append_left k (x ∷ xs) ys h = ground (arith, has-append_left k xs ys)

pub has-append_right :
    (k : String) (xs ys : List String) → has k ys ≡ true → has k (xs ++ ys) ≡ true
unfolding any
has-append_right k [] ys h = h
has-append_right k (x ∷ xs) ys h = ground (arith, has-append_right k xs ys h)

pub All-has :
    (P : String → Type 0) (xs : List String) → ((k : String) → has k xs ≡ true → P k) → All P xs
unfolding any
All-has P [] h = tt
All-has P (x ∷ xs) h =
    (h x (ground (arith, eq_iff x x)), All-has P xs (λ k e. h k (ground (arith, e))))

cover_rows :
    (env : Env) (keys : List String) (os : List ObservationRow)
    → ((k : String) → has k (all_keys env os) ≡ true → IsKey env keys k)
    → All (Covered env keys) os
cover_rows env keys [] h = tt
cover_rows env keys (o ∷ os) h = (
  (λ live.
      All-has (IsKey env keys) (row_keys env o)
        (λ k e. h k (has-append_left k (row_keys env o) (all_keys env os) e))),
  cover_rows env keys os (λ k e. h k (has-append_right k (row_keys env o) (all_keys env os) e)),
)

text-length :
    (o : Option String)
    → length (elim o as (λ x. List String) [ none ↦ [] | some alias ↦ alias ∷ [] ]) ≤ 1
text-length none = omega arith
text-length (some a) = omega arith

aliases_of-length : (r : Result Value) → length (aliases_of r) ≤ 1
unfolding aliases
aliases_of-length (err e) = omega arith
aliases_of-length (ok v) = text-length _

all_keys-length : (env : Env) (os : List ObservationRow) → length (all_keys env os) ≤ 2 * length os
all_keys-length env [] = omega arith
all_keys-length env (o ∷ os) = omega (
  arith,
  length-append (aliases_of (parse_doc env o.payload)) (all_keys env os),
  aliases_of-length (parse_doc env o.payload),
  all_keys-length env os,
)

key_first : (k : String) (ks : List String) → has k (k ∷ ks) ≡ true
unfolding any
key_first k ks = ground (arith, eq_iff k k)

later_key : (k j : String) (ks : List String) → has k ks ≡ true → has k (j ∷ ks) ≡ true
unfolding any
later_key k j ks h = ground (arith, h)

first_rows :
    (env : Env) (key : String) (os : List ObservationRow)
    → All (Covered env (key ∷ all_keys env os)) os
first_rows env key os =
    cover_rows env (key ∷ all_keys env os) os (λ k e. later_key k key (all_keys env os) e)

pub outcome :
    {A : Type 0} (Inv : Db → Type 0) (x : Result A × State)
    → Ends Inv (λ _. Unit) x
    → ((a : A) × (x.0 ≡ ok a)) ⊎ (x.0 ≡ err invalid_argument)
outcome Inv (ok a, s) h = inl (a, refl)
outcome Inv (err e, s) h = inr (ap err h)

pub outcome_with :
    {A : Type 0} (Inv : Db → Type 0) (Q : A → Type 0) (x : Result A × State)
    → Ends Inv Q x
    → ((a : A) × (x.0 ≡ ok a) × Q a) ⊎ (x.0 ≡ err invalid_argument)
outcome_with Inv Q (ok a, s) h = inl (a, refl, h.1)
outcome_with Inv Q (err e, s) h = inr (ap err h)

pub clear_lineage_dependents-ends :
    (st : Settings) (scope key : String) (block : Bool) (s : State)
    → let r = (clear_lineage_dependents st scope key block s).0 in
      ((ks : List String) × (r ≡ ok ks)) ⊎ (r ≡ err invalid_argument)
unfolding clear_lineage_dependents query
clear_lineage_dependents-ends st scope key block s =
    let keys = key ∷ all_keys st.env s.db.observations in
    outcome (CoveredDb st.env keys) _ (
      bind-Ends (CoveredDb st.env keys) (λ os. os ≡ s.db.observations) (λ _. Unit)
        (query (λ db. db.observations)) _ s (first_rows st.env key s.db.observations, refl)
        (λ os s' c e.
          lineage_loop-Ends st keys scope block (suc (2 * length os)) (key ∷ []) [] s' c
            (key_first key (all_keys st.env s.db.observations), tt)
            (omega (
              arith,
              missing-length keys [],
              all_keys-length st.env s.db.observations,
              ap length e,
            ))))
