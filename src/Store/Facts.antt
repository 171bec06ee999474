-- ===== src/Store/Facts.antt =====
-- `reconcile_keys` of src/store.rs: which facts of a scope contradict one another.
use Prim.Native.Nat.{Ordering}
use Prim.Native.String.{compare}
use tekes_memory.Prelude.{
  Bool, true, false, not, ◌&&◌, String, List, [], ◌∷◌, ◌++◌, map, Option, none, some, ◌==◌, any,
  select, if◌then◌else◌,
}
use tekes_memory.Json.{Value, str, json_eq}
use tekes_memory.Json.Access.{index, is_text}
use tekes_memory.Json.Edit.{set_key}
use tekes_memory.Common.{Env, Result, ok, err, panicked}
use tekes_memory.Store.Tables.{Db, RecordRow}
use tekes_memory.Store.Exec.{Settings, Exec, ◌>>=◌, ◌>>◌, pure, lift, query, for_each}
use tekes_memory.Store.Rows.{is_current, unexpired, parse_docs, fact_key, overlaps}
use tekes_memory.Store.Put.{put}

-- `fact_key IN (…)`, or no such condition where the list is empty
abbrev in_keys : List String → Option String → Bool
in_keys [] k = true
in_keys (x ∷ xs) none = false
in_keys (x ∷ xs) (some k) = any (λ y. y == k) (x ∷ xs)

abbrev fact_docs : Settings → Value → List String → Db → List String
fact_docs st scope keys db =
    map (λ (r : RecordRow). r.doc)
      (select
        (λ (r : RecordRow).
          r.scope == st.env.canonical scope
          && r.kind == "fact"
          && is_current r.status
          && unexpired r.expires st.clock
          && in_keys keys r.fact_key)
        db.records)

-- `groups.entry(key).or_default().push(r)`, in a `BTreeMap`
unfoldable pub push_group : String → Value → List (String × List Value) → List (String × List Value)
push_group k r [] = (k, r ∷ []) ∷ []
push_group k r ((j, g) ∷ groups) = elim (compare k j) [
  | Ordering.lt ↦ (k, r ∷ []) ∷ (j, g) ∷ groups
  | Ordering.eq ↦ (j, g ++ r ∷ []) ∷ groups
  | Ordering.gt ↦ (j, g) ∷ push_group k r groups
]

-- The first loop. A document with no fact is a panic of the source.
unfoldable pub group_facts :
    Env → List Value → List (String × List Value) → Result (List (String × List Value))
unfolding push_group fact_key
group_facts env [] groups = ok groups
group_facts env (r ∷ rs) groups = elim (fact_key env r) [
  | none ↦ err panicked
  | some k ↦ group_facts env rs (push_group k r groups)
]

-- Two different facts that hold at a common time and differ in value.
unfoldable pub in_conflict : Value → Value → Bool
unfolding index overlaps
in_conflict a b =
    not (json_eq (index a "id") (index b "id"))
    && not (json_eq (index (index a "fact") "value") (index (index b "fact") "value"))
    && overlaps (index a "fact") (index b "fact")

unfoldable pub status_in : List Value → Value → String
unfolding any
status_in group a = if any (in_conflict a) group then "contested" else "active"

-- The body of the inner loop: a status that changes is written.
unfoldable pub settle_fact : Settings → List Value → Value → Exec (Unit {0})
unfolding index is_text set_key put
settle_fact st group a =
    if is_text (index a "status") (status_in group a)
    then pure tt
    else put st (set_key a "status" (str (status_in group a)))

unfoldable pub settle_groups : Settings → List (String × List Value) → Exec (Unit {0})
unfolding for_each
settle_groups st [] = pure tt
settle_groups st ((k, group) ∷ groups) =
    for_each group (settle_fact st group) >> settle_groups st groups

unfoldable pub reconcile_keys : Settings → Value → List String → Exec (Unit {0})
unfolding parse_docs group_facts settle_groups select any
reconcile_keys st scope keys = do
  docs ← query (fact_docs st scope keys)
  vs ← lift (parse_docs st.env docs)
  groups ← lift (group_facts st.env vs [])
  settle_groups st groups

unfoldable pub reconcile : Settings → Value → Exec (Unit {0})
unfolding reconcile_keys
reconcile st scope = reconcile_keys st scope []
