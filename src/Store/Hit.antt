-- ===== src/Store/Hit.antt =====
-- `search_hit` of src/store.rs: a record is cut to a byte budget around the passage that matches.
pub mod Fits
pub mod Largest
use Prim.Native.String.{String, count, len}
use Prim.Native.String
use tekes_memory.Prelude.{
  ℕ, zero, suc, ◌+◌, ◌-◌, ◌/◌, Bool, List, [], ◌∷◌, Option, none, some, leb, ltb, nat_eq,
  if◌then◌else◌,
}
use text.Mathlib.Text.{find?}
use tekes_memory.Json.{Value, bool, str}
use tekes_memory.Json.Access.{index, as_str}
use tekes_memory.Json.Edit.{set_key}
use tekes_memory.Common.{Env}
use tekes_memory.Store.Words.{words}

-- The `while low <= high` loop over candidate lengths. With `high - low` below the fuel it ends by
-- its test or its `break`.
unfoldable pub bisect {ℓ} : {A : Type ℓ} → (ℕ → A) → (A → Bool) → ℕ → ℕ → ℕ → Option A → Option A
bisect cand fits zero low high best = best
bisect cand fits (suc fuel) low high best =
    let mid = low + (high - low) / 2 in
    let larger = bisect cand fits fuel (mid + 1) high (some (cand mid)) in
    let smaller = bisect cand fits fuel low (mid - 1) best in
    if leb low high
    then (if fits (cand mid) then larger else if nat_eq mid 0 then best else smaller)
    else best

-- `chars().take(n)`
unfoldable pub take_chars : ℕ → String → String
take_chars zero s = String.[]
take_chars (suc n) String.[] = String.[]
take_chars (suc n) (String.◌∷◌ c s) = String.◌∷◌ c (take_chars n s)

-- The rest of the text from the last character that starts at or before byte `start`; `pos` is the
-- byte at which `s` starts.
unfoldable pub drop_to : ℕ → ℕ → String → String
drop_to start pos (String.◌∷◌ c (String.◌∷◌ d s)) =
    let next = pos + len (String.◌∷◌ c String.[]) in
    let dropped = drop_to start next (String.◌∷◌ d s) in
    if leb next start then dropped else String.◌∷◌ c (String.◌∷◌ d s)
drop_to start pos s = s

-- The first token that occurs, and where.
unfoldable pub first_match : String → List String → Option ℕ
first_match lowercase [] = none
first_match lowercase (t ∷ ts) = elim (find? lowercase t) [
  | some i ↦ some i
  | none ↦ first_match lowercase ts
]

abbrev or_zero : Option ℕ → ℕ
or_zero none = 0
or_zero (some n) = n

unfoldable pub passage_of : Env → String → String → String
unfolding drop_to first_match
passage_of env original query =
    drop_to (or_zero (first_match (env.to_lowercase original) (words env query))) 0 original

-- The record with the first `n` characters of the passage for its content.
unfoldable pub excerpt : Value → String → String → ℕ → Value
unfolding set_key take_chars
excerpt record' original passage n =
    set_key (set_key record' "content" (str (take_chars n passage))) "content_truncated"
      (bool (ltb n (count original)))

-- Whether the canonical form of the record fits.
abbrev pub fits_bytes : Env → ℕ → Value → Bool
fits_bytes env available r = leb (len (env.canonical r)) available

abbrev hit_of : Env → Value → String → ℕ → Option String → Option Value
hit_of env record' query available none = none
hit_of env record' query available (some original) =
    let passage = passage_of env original query in
    let cut =
      bisect (excerpt record' original passage) (fits_bytes env available) (suc (count passage)) 0
        (count passage) none in
    if fits_bytes env available record' then some record' else cut

unfoldable pub search_hit : Env → Value → String → ℕ → Option Value
unfolding index as_str
search_hit env record' query available =
    hit_of env record' query available (as_str (index record' "content"))
