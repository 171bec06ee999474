-- ===== src/Store/Erase/Round.antt =====
-- One round of the loop of `erase` of src/store.rs keeps the stack below what it pushes.
use mathlib.Core.List.{reverse, reverse_aux}
use tekes_memory.Prelude.{
  ◌≡◌, ◌⊎◌, true, String, List, [], ◌∷◌, ◌++◌, Bool, not, map, select, All, if-elim, inl, inr,
}
use tekes_memory.Common.{Result, ok, err, invalid_argument}
use tekes_memory.Store.Words.{has}
use tekes_memory.Store.Tables.{Db, DependencyRow, delete_where}
use tekes_memory.Store.Exec.{Settings, State, Exec, pure, query, execute, fold_each}
use tekes_memory.Store.Lineage.{clear_lineage_dependents, clear_observations, complete_jobs}
use tekes_memory.Store.Lineage.Ends.{Ends, bind-Ends, fold_each-Ends}
use tekes_memory.Store.Lineage.Termination.{clear_lineage_dependents-ends, has-append_right}
use tekes_memory.Store.Erase.{
  dependents, own_keys, in_scope, remove_record, push_dependents, push_invalidated, erase_one,
}
use tekes_memory.Store.Erase.Linked.{IsId, Ids, Linked, clear-Linked}

every_one {ℓ} : {A : Type ℓ} (P : A → Type 0) (xs : List A) → ((a : A) → P a) → All P xs
every_one P [] h = tt
every_one P (x ∷ xs) h = (h x, every_one P xs h)

pub reverse_aux-All {ℓ} :
    {A : Type ℓ} (P : A → Type 0) (xs ys : List A) → All P xs → All P ys → All P (reverse_aux xs ys)
reverse_aux-All P [] ys h k = k
reverse_aux-All P (x ∷ xs) ys (h, hs) k = reverse_aux-All P xs (x ∷ ys) hs (h, k)

All-append {ℓ} :
    {A : Type ℓ} (P : A → Type 0) (xs ys : List A) → All P xs → All P ys → All P (xs ++ ys)
All-append P [] ys h k = k
All-append P (x ∷ xs) ys (h, hs) k = (h, All-append P xs ys hs k)

All-select {ℓ} :
    {A : Type ℓ} (P : A → Type 0) (f : A → Bool) (xs : List A) → All P xs → All P (select f xs)
unfolding select
All-select P f [] h = tt
All-select P f (x ∷ xs) (h, hs) =
    if-elim (All P) (f x) _ _ (λ t. (h, All-select P f xs hs)) (λ t. All-select P f xs hs)

All-map {ℓ κ} :
    {A : Type ℓ} {B : Type κ} (P : B → Type 0) (f : A → B) (xs : List A)
    → All (λ x. P (f x)) xs
    → All P (map f xs)
All-map P f [] h = tt
All-map P f (x ∷ xs) (h, hs) = (h, All-map P f xs hs)

module _ (st : Settings) (keys : List String) where
  -- A stack above another.
  abbrev pub Known : List String → List String → Type 0
  Known base ks = Ids keys ks × ((k : String) → has k base ≡ true → has k ks ≡ true)

  abbrev pub Proceeds : {A : Type 0} → (A → Type 0) → Result A × State → Type 0
  Proceeds Q x = Ends (Linked keys) Q x

  of_outcome :
      {A : Type 0} (x : Result A × State)
      → Linked keys x.1.db
      → ((a : A) × (x.0 ≡ ok a)) ⊎ (x.0 ≡ err invalid_argument)
      → Proceeds (λ _. Unit) x
  of_outcome (ok a, s) c h = (c, tt)
  of_outcome (err e, s) c (inl (a, h)) = absurd (cc)
  of_outcome (err e, s) c (inr h) = cc

  clear-Ends :
      (scope key : String) (block : Bool) (s : State)
      → Linked keys s.db
      → Proceeds (λ _. Unit) (clear_lineage_dependents st scope key block s)
  clear-Ends scope key block s c =
      of_outcome _ ((clear-Linked keys st scope key block).at s c)
        (clear_lineage_dependents-ends st scope key block s)

  push_dependents-Ends :
      (base : List String) (scope key : String) (stack : List String) (s : State)
      → Linked keys s.db
      → Known base stack
      → Proceeds (Known base) (push_dependents scope key stack s)
  unfolding push_dependents query pure dependents
  push_dependents-Ends base scope key stack s c h =
      bind-Ends (Linked keys) (Ids keys) (Known base) (query (dependents scope key)) _ s
        (
          c,
          All-map (IsId keys) (λ (d : DependencyRow). d.record_id) _
              (All-select (λ (d : DependencyRow). IsId keys d.record_id) _ s.db.dependencies c),
        )
        (λ ids s' c' known. (
          c',
          (
            All-append (IsId keys) (reverse ids) stack (reverse_aux-All (IsId keys) ids [] known tt)
                h.0,
            λ k e. has-append_right k (reverse ids) stack (h.1 k e),
          ),
        ))

  push_invalidated-Ends :
      (base : List String) (scope : String) (block : Bool) (key : String) (stack : List String)
      (s : State)
      → Linked keys s.db
      → Known base stack
      → Proceeds (Known base) (push_invalidated st scope block key stack s)
  unfolding push_invalidated
  push_invalidated-Ends base scope block key stack s c h =
      bind-Ends (Linked keys) (λ _. Unit) (Known base) (clear_lineage_dependents st scope key block)
        _ s (clear-Ends scope key block s c)
        (λ gone s' c' _.
          fold_each-Ends (Linked keys) (λ _. Unit) (Known base) (push_dependents scope)
            (λ k l s1 c1 _ q. push_dependents-Ends base scope k l s1 c1 q) gone stack s' c'
            (every_one (λ _. Unit) gone (λ _. tt)) h)

  remove_record-Linked :
      (id : String) (db : Db) → Linked keys db → Linked keys (remove_record id db)
  unfolding remove_record delete_where clear_observations complete_jobs
  remove_record-Linked id db h =
      All-select (λ (d : DependencyRow). IsId keys d.record_id) _ db.dependencies h

  pub erase_one-Ends :
      (scope : String) (block : Bool) (id : String) (stack : List String) (s : State)
      → Linked keys s.db
      → Ids keys stack
      → Proceeds (Known stack) (erase_one st scope block id stack s)
  unfolding erase_one query pure execute
  erase_one-Ends scope block id stack s c h =
      bind-Ends (Linked keys) (λ _. Unit) (Known stack) (query (in_scope scope id)) _ s (c, tt)
        (λ found s1 c1 _.
          if-elim (λ (m : Exec (List String)). Proceeds (Known stack) (m s1)) (not found) _ _
            (λ t. (c1, (h, λ k e. e)))
            (λ t.
              bind-Ends (Linked keys) (λ _. Unit) (Known stack) (query (own_keys scope id)) _ s1
                (c1, tt)
                (λ own s2 c2 _.
                  bind-Ends (Linked keys) (Known stack) (Known stack)
                    (fold_each own stack (push_invalidated st scope block)) _ s2
                    (fold_each-Ends (Linked keys) (λ _. Unit) (Known stack)
                      (push_invalidated st scope block)
                      (λ k l s3 c3 _ q. push_invalidated-Ends stack scope block k l s3 c3 q) own
                      stack s2 c2 (every_one (λ _. Unit) own (λ _. tt)) (h, λ k e. e))
                    (λ stack' s3 c3 known.
                      bind-Ends (Linked keys) (λ _. Unit) (Known stack) (execute (remove_record id))
                        _ s3 (remove_record-Linked id s3.db c3, tt) (λ _ s4 c4 _. (c4, known))))))
