-- ===== src/Store/Erase/Termination.antt =====
-- `erase` of src/store.rs meets each record once at most.
use mathlib.Core.List.{reverse, reverse_aux}
use tekes_memory.Prelude.{
  ◌≡◌, ◌⊎◌, ◌∙◌, refl, sym, subst, eq_iff, any, true, ap, ℕ, zero, suc, ◌+◌, ◌≤◌, String, List, [],
  ◌∷◌, ◌++◌, Bool, map, length, length-append, All, if-elim, arith, inl, inr,
}
use tekes_memory.Common.{ok, err, invalid_argument}
use tekes_memory.Common.Authorize.{set_insert}
use tekes_memory.Store.Words.{has}
use tekes_memory.Store.Words.Prefix.{distinct}
use tekes_memory.Store.Tables.{DependencyRow}
use tekes_memory.Store.Exec.{Settings, State, Exec, pure, query}
use tekes_memory.Store.Lineage.Missing.{
  missing, missing-length, missing-new, has-set_insert, set_insert-has, set_insert-keeps,
  set_insert-distinct,
}
use tekes_memory.Store.Lineage.Ends.{weaken-Ends, bind-Ends}
use tekes_memory.Store.Lineage.Termination.{
  outcome_with, All-has, has-append_left, has-append_right,
}
use tekes_memory.Store.Erase.{erase_one, erase_loop, erase}
use tekes_memory.Store.Erase.Linked.{IsId, Ids, Linked}
use tekes_memory.Store.Erase.Round.{reverse_aux-All, Known, Proceeds, erase_one-Ends}

module _ (st : Settings) (keys : List String) where
  -- What the loop returns: a set that has the stack and what was met before, and only such identifiers.
  abbrev Met : List String → List String → List String → Type 0
  Met stack seen t =
      (distinct t ≡ true)
      × Ids keys t
      × ((k : String) → has k stack ≡ true → has k t ≡ true)
      × ((k : String) → has k seen ≡ true → has k t ≡ true)

  skip-Met :
      (id : String) (stack seen t : List String)
      → has id seen ≡ true
      → Met stack seen t
      → Met (id ∷ stack) seen t
  unfolding any
  skip-Met id stack seen t e (d, own, above, before) =
      (d, own, (λ k h. ground (arith, eq_iff id k, above k, before k, before id e)), before)

  next-Met :
      (id : String) (stack stack' seen t : List String)
      → ((k : String) → has k stack ≡ true → has k stack' ≡ true)
      → Met stack' (set_insert id seen) t
      → Met (id ∷ stack) seen t
  unfolding any
  next-Met id stack stack' seen t up (d, own, above, before) = (
    d,
    own,
    (λ k h. ground (arith, eq_iff id k, up k, above k, before id (set_insert-has id seen))),
    λ k h. before k (set_insert-keeps id k seen h),
  )

  set_insert-Ids :
      (id : String) (seen : List String)
      → IsId keys id
      → ((k : String) → has k seen ≡ true → IsId keys k)
      → (k : String) → has k (set_insert id seen) ≡ true
      → IsId keys k
  set_insert-Ids id seen own h k e = elim (has-set_insert id k seen e) [
    | inl same ↦ subst (IsId keys) (sym same) own
    | inr old ↦ h k old
  ]

  -- What was met before the round.
  abbrev Seen : List String → Type 0
  Seen seen = (distinct seen ≡ true) × ((k : String) → has k seen ≡ true → IsId keys k)

  erase_loop-Ends :
      (scope : String) (block : Bool) (fuel : ℕ) (stack seen : List String) (s : State)
      → Linked keys s.db
      → Ids keys stack
      → Seen seen
      → missing keys seen ≤ fuel
      → Proceeds st keys (Met stack seen) (erase_loop st scope block fuel stack seen s)
  unfolding erase_loop pure
  erase_loop-Ends scope block fuel [] seen s c h (d, own) enough =
      (c, (d, All-has (IsId keys) seen own, (λ k e. absurd (cc (e))), λ k e. e))
  erase_loop-Ends scope block zero (id ∷ stack) seen s c (k, h) old enough =
      if-elim (λ (m : Exec (List String)). Proceeds st keys (Met (id ∷ stack) seen) (m s))
        (has id seen) _ _
        (λ t.
          weaken-Ends (Linked keys) (Met stack seen) (Met (id ∷ stack) seen) _
            (λ u m. skip-Met id stack seen u t m)
            (erase_loop-Ends scope block zero stack seen s c h old enough))
        (λ t. absurd (omega (arith, missing-new id keys seen k t, enough)))
  erase_loop-Ends scope block (suc fuel) (id ∷ stack) seen s c (k, h) old enough =
      if-elim (λ (m : Exec (List String)). Proceeds st keys (Met (id ∷ stack) seen) (m s))
        (has id seen) _ _
        (λ t.
          weaken-Ends (Linked keys) (Met stack seen) (Met (id ∷ stack) seen) _
            (λ u m. skip-Met id stack seen u t m)
            (erase_loop-Ends scope block (suc fuel) stack seen s c h old enough))
        (λ t.
          bind-Ends (Linked keys) (Known st keys stack) (Met (id ∷ stack) seen)
            (erase_one st scope block id stack) _ s
            (erase_one-Ends st keys scope block id stack s c h)
            (λ stack' s' c' known.
              weaken-Ends (Linked keys) (Met stack' (set_insert id seen)) (Met (id ∷ stack) seen) _
                (λ u m. next-Met id stack stack' seen u known.1 m)
                (erase_loop-Ends scope block fuel stack' (set_insert id seen) s' c' known.0
                  (set_insert-distinct id seen t old.0, set_insert-Ids id seen k old.1)
                  (omega (arith, missing-new id keys seen k t, enough)))))

length-record_ids :
    (ds : List DependencyRow) → length (map (λ (d : DependencyRow). d.record_id) ds) ≡ length ds
length-record_ids [] = refl
length-record_ids (d ∷ ds) = ap suc (length-record_ids ds)

map-Linked :
    (P : String → Type 0) (ds : List DependencyRow)
    → All P (map (λ (d : DependencyRow). d.record_id) ds)
    → All (λ (d : DependencyRow). P d.record_id) ds
map-Linked P [] h = tt
map-Linked P (d ∷ ds) (h, hs) = (h, map-Linked P ds hs)

has-reverse_aux :
    (k : String) (xs ys : List String)
    → (has k xs ≡ true) ⊎ (has k ys ≡ true)
    → has k (reverse_aux xs ys) ≡ true
unfolding any
has-reverse_aux k [] ys h = elim h [ inl e ↦ absurd (cc) | inr e ↦ e ]
has-reverse_aux k (x ∷ xs) ys h = has-reverse_aux k xs (x ∷ ys) (ground arith)

abbrev pub record_ids : List DependencyRow → List String
record_ids ds = map (λ (d : DependencyRow). d.record_id) ds

-- The size of what was met.
abbrev Counted : Settings → List String → List String → ℕ → Type 0
Counted st keys ids n = (met : List String) × (n ≡ length met) × Met st keys (reverse ids) [] met

-- Erasing always ends, within as many rounds as there are identifiers and dependencies, however records
-- and sources refer to each other: it returns the size of a set without duplicates that has all the
-- identifiers asked for, and no other than these and those of records with dependencies, or the error
-- `invalid_argument`.
pub erase-ends :
    (st : Settings) (scope : String) (ids : List String) (block : Bool) (s : State)
    → let r = (erase st scope ids block s).0 in
      ((met : List String) × (r ≡ ok (length met))
        × (distinct met ≡ true)
        × All (λ k. has k met ≡ true) ids
        × All (λ k. has k (ids ++ record_ids s.db.dependencies) ≡ true) met)
      ⊎ (r ≡ err invalid_argument)
unfolding erase query pure
erase-ends st scope ids block s =
    let records = record_ids s.db.dependencies in
    let keys = ids ++ records in
    let linked =
      map-Linked (IsId keys) s.db.dependencies
        (All-has (IsId keys) records (λ k e. has-append_right k ids records e)) in
    let known = All-has (IsId keys) ids (λ k e. has-append_left k ids records e) in
    let ended = outcome_with (Linked keys) (Counted st keys ids) (erase st scope ids block s) (
      bind-Ends (Linked keys) (λ ds. ds ≡ s.db.dependencies) (Counted st keys ids)
        (query (λ db. db.dependencies)) _ s (linked, refl)
        (λ ds s1 c1 e.
          bind-Ends (Linked keys) (Met st keys (reverse ids) []) (Counted st keys ids)
            (erase_loop st scope block (length ids + length ds) (reverse ids) []) _ s1
            (erase_loop-Ends st keys scope block (length ids + length ds) (reverse ids) [] s1 c1
              (reverse_aux-All (IsId keys) ids [] known tt) (refl, λ k h. absurd (cc (h)))
              (omega (
                arith,
                missing-length keys [],
                length-append ids records,
                length-record_ids s.db.dependencies,
                ap length e,
              )))
            (λ seen s2 c2 m. (c2, (seen, refl, m))))) in
    elim ended [
      | inl (n, e, (met, size, (d, own, above, before))) ↦ inl (
        met,
        e ∙ ap ok size,
        d,
        All-has (λ k. has k met ≡ true) ids (λ k h. above k (has-reverse_aux k ids [] (inl h))),
        own,
      )
      | inr e ↦ inr e
    ]
