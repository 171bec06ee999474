-- ===== src/Store/Hit/Largest.antt =====
-- The search for the longest excerpt in `search_hit` of src/store.rs.
use Prim.Native.String.{String, count}
use tekes_memory.Prelude.{
  ◌≡◌, refl, subst, ℕ, zero, suc, ◌+◌, ◌-◌, ◌/◌, ◌≤◌, ◌<◌, Bool, true, false, Option, none, some,
  leb, nat_eq, arith, inl, inr, ◌⊎◌, Bool-cases,
}
use tekes_memory.Json.{Value}
use tekes_memory.Json.Access.{index, as_str}
use tekes_memory.Common.{Env}
use tekes_memory.Store.Hit.{bisect, fits_bytes, search_hit, excerpt, passage_of}

-- `n` is the largest of `low` to `high` that passes the test.
pub record Largest (test : ℕ → Bool) (low high n : ℕ) : Type 0 where
  pub above : low ≤ n
  pub below : n ≤ high
  pub passes : test n ≡ true
  pub beyond : (m : ℕ) → n < m → m ≤ high → test m ≡ false

-- No candidate passes.
abbrev NonePasses : (ℕ → Bool) → ℕ → ℕ → Type 0
NonePasses test low high = (m : ℕ) → low ≤ m → m ≤ high → test m ≡ false

-- What passes, passes for every smaller number.
abbrev pub DownClosed : (ℕ → Bool) → Type 0
DownClosed test = (i j : ℕ) → i ≤ j → test j ≡ true → test i ≡ true

module _ (test : ℕ → Bool) (down : DownClosed test) where
  fails_up : (i j : ℕ) → i ≤ j → test i ≡ false → test j ≡ false
  fails_up i j le h = elim (Bool-cases (test j)) [
    | inl t ↦ absurd (ground (arith, down i j le t))
    | inr f ↦ f
  ]

  none_up : (low high : ℕ) → test low ≡ false → NonePasses test low high
  none_up low high h m lo hi = fails_up low m lo h

middle_bounds :
    (low high : ℕ) → low ≤ high → (low ≤ low + (high - low) / 2) × (low + (high - low) / 2 ≤ high)
middle_bounds low high h = (omega arith, omega arith)

middle_half :
    (low high : ℕ) → low + (high - low) / 2 + (low + (high - low) / 2) ≤ high + low + (low - high)
middle_half low high = omega arith

shorter :
    (fuel low high mid : ℕ)
    → low ≤ high
    → nat_eq mid 0 ≡ false
    → high + 1 ≤ suc fuel + low
    → low ≤ mid
    → mid + mid ≤ high + low + (low - high)
    → mid - 1 + 1 ≤ fuel + low
shorter fuel low high mid le nz enough lo half = ground arith

module _ {ℓ} {A : Type ℓ} (cand : ℕ → A) (fits : A → Bool)
    (down : DownClosed (λ n. fits (cand n))) where
  abbrev Found : ℕ → ℕ → Option A → Option A → Type ℓ
  Found low high best r =
      (NonePasses (λ n. fits (cand n)) low high × (r ≡ best))
      ⊎ ((n : ℕ) × Largest (λ n. fits (cand n)) low high n × (r ≡ some (cand n)))

  from_larger :
      (low high mid : ℕ) (best r : Option A)
      → low ≤ mid
      → mid ≤ high
      → fits (cand mid) ≡ true
      → Found (mid + 1) high (some (cand mid)) r
      → Found low high best r
  from_larger low high mid best r lo hi t (inl (no_one, e)) = inr (
    mid,
    record { above = lo; below = hi; passes = t; beyond = λ m a b. no_one m (omega arith) b },
    e,
  )
  from_larger low high mid best r lo hi t (inr (n, large, e)) = inr (
    n,
    record {
      above = omega (arith, large.above);
      below = large.below;
      passes = large.passes;
      beyond = large.beyond;
    },
    e,
  )

  from_smaller :
      (low high mid : ℕ) (best r : Option A)
      → low ≤ mid
      → mid ≤ high
      → nat_eq mid 0 ≡ false
      → fits (cand mid) ≡ false
      → Found low (mid - 1) best r
      → Found low high best r
  from_smaller low high mid best r lo hi nz t (inl (no_one, e)) = inl (
    (λ m a b. elim (Bool-cases (leb mid m)) [
      | inl c ↦ fails_up _ down mid m (ground arith) t
      | inr c ↦ no_one m a (ground arith)
    ]),
    e,
  )
  from_smaller low high mid best r lo hi nz t (inr (n, large, e)) = inr (
    n,
    record {
      above = large.above;
      below = ground (arith, large.below);
      passes = large.passes;
      beyond = λ m a b. elim (Bool-cases (leb mid m)) [
        | inl c ↦ fails_up _ down mid m (ground arith) t
        | inr c ↦ large.beyond m a (ground arith)
      ];
    },
    e,
  )

  first_fails :
      (low mid : ℕ)
      → low ≤ mid
      → nat_eq mid 0 ≡ true
      → fits (cand mid) ≡ false
      → fits (cand low) ≡ false
  first_fails low mid lo z f = subst (λ n. fits (cand n) ≡ false) (ground arith) f

  bisect-Found :
      (fuel low high : ℕ) (best : Option A)
      → high + 1 ≤ fuel + low
      → Found low high best (bisect cand fits fuel low high best)
  unfolding bisect
  bisect-Found zero low high best enough = inl ((λ m a b. absurd (omega arith)), refl)
  bisect-Found (suc fuel) low high best enough =
      let mid = low + (high - low) / 2 in
      elim (Bool-cases (leb low high)) [
        | inr e ↦ inl ((λ m a b. absurd (ground arith)), rw e refl)
        | inl e ↦
            let (lo, hi) = middle_bounds low high (ground arith) in
            elim (Bool-cases (fits (cand mid))) [
              | inl t ↦
                  rw (e, t)
                    (from_larger low high mid best _ lo hi t (
                      bisect-Found fuel (mid + 1) high (some (cand mid))
                        (omega (arith, enough, lo))))
              | inr f ↦ elim (Bool-cases (nat_eq mid 0)) [
                | inl z ↦
                    rw (e, f, z) (inl (none_up _ down low high (first_fails low mid lo z f), refl))
                | inr nz ↦
                    rw (e, f, nz)
                      (from_smaller low high mid best _ lo hi nz f (
                        bisect-Found fuel low (mid - 1) best (
                          shorter fuel low high mid (ground arith) nz enough lo
                            (middle_half low high))))
              ]
            ]
      ]

-- Whether the record with the first `n` characters of the passage fits.
abbrev pub excerpt_fits : Env → ℕ → Value → String → String → ℕ → Bool
excerpt_fits env available r original passage n =
    fits_bytes env available (excerpt r original passage n)

-- A record whose content is a text and that does not fit as it is gives the excerpt with the largest
-- number of characters that fits, or nothing if no excerpt fits: if an excerpt fits whenever a longer
-- one does.
pub search_hit-Largest :
    (env : Env) (r : Value) (query original : String) (available : ℕ)
    → as_str (index r "content") ≡ some original
    → fits_bytes env available r ≡ false
    → DownClosed (excerpt_fits env available r original (passage_of env original query))
    → (NonePasses
          (excerpt_fits env available r original (passage_of env original query))
          0
          (count (passage_of env original query))
        × (search_hit env r query available ≡ none))
      ⊎ ((n : ℕ) × Largest
            (excerpt_fits env available r original (passage_of env original query))
            0
            (count (passage_of env original query))
            n
          × (search_hit env r query available
              ≡ some (excerpt r original (passage_of env original query) n)))
unfolding search_hit
search_hit-Largest env r query original available e f down =
    let passage = passage_of env original query in
    rw (e, f)
      (bisect-Found (excerpt r original passage) (fits_bytes env available) down
        (suc (count passage)) 0 (count passage) none (omega arith))
