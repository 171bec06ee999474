-- ===== src/Store/Hit/Fits.antt =====
-- What `search_hit` of src/store.rs returns fits.
use Prim.Native.String.{String, count, len}
use tekes_memory.Prelude.{
  ◌≡◌, refl, subst, ℕ, zero, suc, ◌+◌, ◌-◌, ◌/◌, ◌≤◌, Bool, true, Option, none, some, leb, nat_eq,
  arith, inl, inr, Bool-cases,
}
use tekes_memory.Json.{Value}
use tekes_memory.Json.Access.{index, as_str}
use tekes_memory.Common.{Env}
use tekes_memory.Store.Hit.{bisect, fits_bytes, search_hit, excerpt, passage_of}

module _ {ℓ} {A : Type ℓ} where
  -- The candidate, if there is one, fits.
  abbrev Passing : (A → Bool) → Option A → Type 0
  Passing fits none = Unit
  Passing fits (some a) = fits a ≡ true

  bisect-Passing :
      (cand : ℕ → A) (fits : A → Bool) (fuel low high : ℕ) (best : Option A)
      → Passing fits best
      → Passing fits (bisect cand fits fuel low high best)
  unfolding bisect
  bisect-Passing cand fits zero low high best h = h
  bisect-Passing cand fits (suc fuel) low high best h =
      let mid = low + (high - low) / 2 in
      elim (Bool-cases (leb low high)) [
        | inr e ↦ rw e h
        | inl e ↦ elim (Bool-cases (fits (cand mid))) [
          | inl t ↦ rw (e, t) (bisect-Passing cand fits fuel (mid + 1) high (some (cand mid)) t)
          | inr f ↦ elim (Bool-cases (nat_eq mid 0)) [
            | inl z ↦ rw (e, f, z) h
            | inr nz ↦ rw (e, f, nz) (bisect-Passing cand fits fuel low (mid - 1) best h)
          ]
        ]
      ]

hit_of_text-Passing :
    (env : Env) (r : Value) (query : String) (available : ℕ) (o : Option String)
    → as_str (index r "content") ≡ o
    → Passing (fits_bytes env available) (search_hit env r query available)
unfolding search_hit
hit_of_text-Passing env r query available none e = rw e tt
hit_of_text-Passing env r query available (some original) e =
    let passage = passage_of env original query in
    elim (Bool-cases (fits_bytes env available r)) [
      | inl t ↦ rw (e, t) t
      | inr f ↦
          rw (e, f)
            (bisect-Passing (excerpt r original passage) (fits_bytes env available) _ 0
              (count passage) none tt)
    ]

-- The canonical form of a hit is never longer than the bytes that are available.
pub search_hit-fits :
    (env : Env) (r hit : Value) (query : String) (available : ℕ)
    → search_hit env r query available ≡ some hit
    → len (env.canonical hit) ≤ available
search_hit-fits env r hit query available h = ground (
  arith,
  subst (Passing (fits_bytes env available)) h (hit_of_text-Passing env r query available _ refl),
)
