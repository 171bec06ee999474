-- ===== src/Prelude/Lists.antt =====
-- Lists measured by native numbers, and Boolean searches in a list.
use Prim.Native.Nat.{ℕ, suc, ◌+◌}
use mathlib.Core.Path.{◌≡◌}
use mathlib.Core.Bool.{Bool, true, false, ◌&&◌, ◌||◌}
use mathlib.Core.List.{List, [], ◌∷◌, ◌++◌}
use mathlib.Core.Option.{Option, none, some}
use native.Mathlib.Omega.{arith}
use tekes_memory.Prelude.Tests.{if◌then◌else◌}

module _ {ℓ} {A : Type ℓ} where
  abbrev pub length : List A → ℕ
  length [] = 0
  length (x ∷ xs) = suc (length xs)

  -- `iter().any(f)`
  unfoldable pub any : (A → Bool) → List A → Bool
  any f [] = false
  any f (x ∷ xs) = f x || any f xs

  -- `iter().all(f)`
  unfoldable pub all : (A → Bool) → List A → Bool
  all f [] = true
  all f (x ∷ xs) = f x && all f xs

  -- `iter().filter(f)`, or a `WHERE` clause
  unfoldable pub select : (A → Bool) → List A → List A
  select f [] = []
  select f (x ∷ xs) = if f x then x ∷ select f xs else select f xs

  -- `iter().find(f)`, or the first row of a query
  unfoldable pub find_first : (A → Bool) → List A → Option A
  find_first f [] = none
  find_first f (x ∷ xs) = if f x then some x else find_first f xs

  -- `UPDATE … WHERE f`
  unfoldable pub update_where : (A → Bool) → (A → A) → List A → List A
  update_where f g [] = []
  update_where f g (x ∷ xs) = (if f x then g x else x) ∷ update_where f g xs

  abbrev pub All {κ} : (A → Type κ) → List A → Type κ
  All P [] = Unit
  All P (x ∷ xs) = P x × All P xs

  pub length-append : (xs ys : List A) → length (xs ++ ys) ≡ length xs + length ys
  length-append [] ys = omega arith
  length-append (x ∷ xs) ys = omega (arith, length-append xs ys)
