-- ===== src/Adapter/Observation/Keys.antt =====
-- The lineage keys of an observation of src/adapter.rs.
use tekes_memory.Prelude.{
  ◌≡◌, refl, subst, ap, ◌∙◌, ◌≤◌, String, List, [], ◌∷◌, ◌==◌, eq_iff, false, ◌||◌, any, map,
  length, ltb, arith,
}
use tekes_memory.Json.{Value}
use tekes_memory.Common.{Env, ok, fail_if, source_unavailable, ok_then, not_failed, ok-injective}
use tekes_memory.Common.Authorize.{set_insert}
use tekes_memory.Store.Words.{has}
use tekes_memory.Adapter.Observation.{source_key, sort_keys, lineage_keys}

has-set_insert : (k j : String) (l : List String) → has j (set_insert k l) ≡ ((k == j) || has j l)
unfolding set_insert any
has-set_insert k j [] = refl
has-set_insert k j (i ∷ l) =
    ground (arith, eq_iff k j, eq_iff i k, eq_iff i j, eq_iff k i, has-set_insert k j l)

has-sort_keys : (j : String) (l : List String) → has j (sort_keys l) ≡ has j l
unfolding sort_keys any
has-sort_keys j [] = refl
has-sort_keys j (k ∷ l) =
    has-set_insert k j (sort_keys l) ∙ ap (λ b. (k == j) || b) (has-sort_keys j l)

has-map :
    (f : Value → String) (j : String) (xs : List Value) → has j (map f xs) ≡ any (λ x. f x == j) xs
unfolding any
has-map f j [] = refl
has-map f j (x ∷ xs) = ap (λ b. (f x == j) || b) (has-map f j xs)

small : (keys : List String) → ltb 4096 (length keys) ≡ false → length keys ≤ 4096
small keys h = ground (arith, h)

-- The lineage keys of an observation are the keys of the rows that it shows and no others, whatever
-- their order and however often a row stands among them; and they are 4096 at most.
pub lineage_keys-rows :
    (env : Env) (c r : Value) (line : String) (shown : List Value) (keys : List String)
    → lineage_keys env c r line shown ≡ ok keys
    → (length keys ≤ 4096)
      × ((k : String) → has k keys ≡ any (λ row. source_key env c r line row == k) shown)
unfolding lineage_keys
lineage_keys-rows env c r line shown keys h =
    let sorted = sort_keys (map (source_key env c r line) shown) in
    let (u, e, h1) = ok_then (fail_if (ltb 4096 (length sorted)) source_unavailable) _ keys h in
    subst
      (λ ks.
        (length ks ≤ 4096)
        × ((k : String) → has k ks ≡ any (λ row. source_key env c r line row == k) shown))
      (ok-injective sorted keys h1)
      (
        small sorted (not_failed _ _ u e),
        λ k.
            has-sort_keys k (map (source_key env c r line) shown)
            ∙ has-map (source_key env c r line) k shown,
      )
