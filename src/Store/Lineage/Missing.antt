-- ===== src/Store/Lineage/Missing.antt =====
-- The keys that a loop of src/store.rs has yet to meet become fewer with each new one.
use tekes_memory.Prelude.{
  ◌≡◌, ◌⊎◌, refl, sym, subst, ℕ, suc, ◌≤◌, String, List, [], ◌∷◌, ◌==◌, eq_iff, true, false, not,
  any, select, length, arith, Bool-cases, inl, inr,
}
use tekes_memory.Common.Authorize.{set_insert}
use tekes_memory.Store.Words.{has}
use tekes_memory.Store.Words.Prefix.{distinct}

-- The keys of a list that are not in a set.
abbrev pub missing : List String → List String → ℕ
missing keys seen = length (select (λ k. not (has k seen)) keys)

pub set_insert-has : (k : String) (l : List String) → has k (set_insert k l) ≡ true
unfolding set_insert any
set_insert-has k [] = ground (arith, eq_iff k k)
set_insert-has k (j ∷ l) = ground (arith, eq_iff j k, eq_iff k j, eq_iff k k, set_insert-has k l)

pub set_insert-keeps :
    (k u : String) (l : List String) → has u l ≡ true → has u (set_insert k l) ≡ true
unfolding set_insert any
set_insert-keeps k u [] h = absurd (cc)
set_insert-keeps k u (j ∷ l) h =
    ground (arith, eq_iff j k, eq_iff k j, eq_iff j u, eq_iff k u, set_insert-keeps k u l)

-- The set has the new key and the old ones, and no other.
pub has-set_insert :
    (k u : String) (l : List String) → has u (set_insert k l) ≡ true → (u ≡ k) ⊎ (has u l ≡ true)
unfolding set_insert any
has-set_insert k u [] h = ground (arith, eq_iff k u)
has-set_insert k u (j ∷ l) h = ground (arith, eq_iff j k, eq_iff k u, has-set_insert k u l)

pub set_insert-distinct :
    (k : String) (l : List String)
    → has k l ≡ false
    → distinct l ≡ true
    → distinct (set_insert k l) ≡ true
unfolding set_insert any
set_insert-distinct k [] h d = refl
set_insert-distinct k (j ∷ l) h d =
    ground (arith, eq_iff j k, eq_iff k j, has-set_insert k j l, set_insert-distinct k l)

pub missing-length : (keys seen : List String) → missing keys seen ≤ length keys
unfolding select
missing-length [] seen = omega arith
missing-length (k ∷ keys) seen = ground (arith, missing-length keys seen)

missing-fewer :
    (k : String) (keys seen : List String) → missing keys (set_insert k seen) ≤ missing keys seen
unfolding select
missing-fewer k [] seen = omega arith
missing-fewer k (u ∷ keys) seen =
    ground (arith, missing-fewer k keys seen, set_insert-keeps k u seen)

pub missing-new :
    (k : String) (keys seen : List String)
    → has k keys ≡ true
    → has k seen ≡ false
    → suc (missing keys (set_insert k seen)) ≤ missing keys seen
unfolding select any
missing-new k [] seen h new = absurd (cc)
missing-new k (u ∷ keys) seen h new = elim (Bool-cases (u == k)) [
  | inl same ↦
      let at_u =
        subst (λ x. has x (set_insert k seen) ≡ true) (sym ((eq_iff u k).0 same))
          (set_insert-has k seen) in
      let not_yet = subst (λ x. has x seen ≡ false) (sym ((eq_iff u k).0 same)) new in
      rw (at_u, not_yet) (ground (arith, missing-fewer k keys seen))
  | inr other ↦
      ground (arith, missing-new k keys seen (rw other at h) new, set_insert-keeps k u seen)
]
