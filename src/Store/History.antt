-- ===== src/Store/History.antt =====
-- Histories of the store: the calls of the service and the rounds of its maintenance, in any order.
-- The service runs one at a time, under the mutex of `Inner` in src/server.rs.
use tekes_memory.Prelude.{
  ◌≡◌, refl, Bool, true, false, String, List, [], ◌∷◌, Option, none, some, ◌==◌, any, arith, inl,
  inr, Bool-cases, ◌⊎◌, eq_iff,
}
use tekes_memory.Json.{Value}
use tekes_memory.Json.Access.{index, as_str}
use tekes_memory.Common.{ok, err, source_unavailable}
use tekes_memory.Common.Access.{array}
use tekes_memory.Store.Tables.{Db}
use tekes_memory.Store.Exec.{Settings, State, ◌>>=◌, for_each}
use tekes_memory.Store.Put.{is_tombstoned, check_source, blocked}
use tekes_memory.Store.Write.{save}
use tekes_memory.Store.Maintain.{maintain}
use tekes_memory.Store.Call.{call_with_effect}
use tekes_memory.Store.Tombstones.{Dead, Dead-Stable}
use tekes_memory.Store.Stable.{Stable}
use tekes_memory.Store.Stable.Entry.{call-Keeps, maintain-Keeps}

-- What the environment asks for, with the clock and the commit of that moment.
pub data Request : Type 0 where
  call : Settings → Value → String → Value → Option String → Request
  maintenance : Settings → Request

unfoldable pub step : Request → State → State
step (call st p name a key) s = (call_with_effect st p name a key s).1
step (maintenance st) s = (maintain st s).1

unfoldable pub run : List Request → State → State
unfolding step
run [] s = s
run (r ∷ rs) s = run rs (step r s)

module _ {P : Db → Type 0} (stable : Stable P) where
  step-Keeps : (r : Request) (s : State) → P s.db → P (step r s).db
  unfolding step
  step-Keeps (call st p name a k) s h = (call-Keeps stable st p name a k).at s h
  step-Keeps (maintenance st) s h = (maintain-Keeps stable.framed st).at s h

  pub run-Keeps : (rs : List Request) (s : State) → P s.db → P (run rs s).db
  unfolding run
  run-Keeps [] s h = h
  run-Keeps (r ∷ rs) s h = run-Keeps rs (step r s) (step-Keeps r s h)

-- The source carries the key.
abbrev pub carries : String → Value → Bool
carries key source = elim (as_str (index source "source_key")) [ none ↦ false | some k ↦ k == key ]

module _ (scope key : String) (s : State) (dead : Dead scope key s.db) where
  check_some-refuses :
      (v : Value) (o : Option String)
      → as_str (index v "source_key") ≡ o
      → carries key v ≡ true
      → check_source scope v s ≡ (err source_unavailable, s)
  unfolding ◌>>=◌
  check_some-refuses v none e c = ground arith
  check_some-refuses v (some k) e c = ground (arith, eq_iff k key)

  check_source-refuses :
      (v : Value) → carries key v ≡ true → check_source scope v s ≡ (err source_unavailable, s)
  check_source-refuses v c = check_some-refuses v _ refl c

-- A check changes nothing, and has one error.
check_source_cases :
    (scope : String) (v : Value) (s : State)
    → (check_source scope v s ≡ (ok tt, s)) ⊎ (check_source scope v s ≡ (err source_unavailable, s))
unfolding ◌>>=◌
check_source_cases scope v s = ground arith

module _ (scope key : String) (s : State) (dead : Dead scope key s.db) where
  check_all-refuses :
      (vs : List Value)
      → any (carries key) vs ≡ true
      → for_each vs (check_source scope) s ≡ (err source_unavailable, s)
  unfolding for_each ◌>>=◌ any
  check_all-refuses [] h = absurd (cc)
  check_all-refuses (v ∷ vs) h = elim (check_source_cases scope v s) [
    | inr e ↦ rw e refl
    | inl e ↦ elim (Bool-cases (carries key v)) [
      | inl c ↦ rw (check_source-refuses scope key s dead v c) refl
      | inr c ↦ rw e (check_all-refuses vs (ground arith))
    ]
  ]

  pub save-refuses :
      (st : Settings) (a : Value) (vs : List Value)
      → st.env.canonical (index a "scope") ≡ scope
      → array a "sources" ≡ ok vs
      → any (carries key) vs ≡ true
      → save st a s ≡ (err source_unavailable, s)
  unfolding save blocked ◌>>=◌
  save-refuses st a vs e h c = rw (e, h) (rw (check_all-refuses vs c) refl)

-- Once a source is a tombstone, no history of calls and maintenance makes the store save a record
-- with that source in that scope again: the save is refused, and it changes nothing.
pub no_revival :
    (scope key : String) (s : State) (history : List Request) (st : Settings) (a : Value)
    (vs : List Value)
    → is_tombstoned scope key s.db ≡ true
    → st.env.canonical (index a "scope") ≡ scope
    → array a "sources" ≡ ok vs
    → any (carries key) vs ≡ true
    → save st a (run history s) ≡ (err source_unavailable, run history s)
no_revival scope key s history st a vs dead =
    save-refuses scope key (run history s) (run-Keeps (Dead-Stable scope key) history s dead) st a
      vs
