-- ===== src/Store/Atomic.antt =====
-- `call_with_effect` of src/store.rs seen from outside: a read changes nothing, and a write that fails
-- has changed nothing.
use tekes_memory.Prelude.{
  ◌≡◌, refl, sym, ap, ◌∙◌, Bool, true, false, not, ◌||◌, String, Option, ◌==◌, arith, inl, inr, ◌⊎◌,
  if◌then◌else◌,
}
use tekes_memory.Json.{Value}
use tekes_memory.Common.{Error, Result, ok, err}
use tekes_memory.Store.Tables.{Db}
use tekes_memory.Store.Exec.{Settings, State, Exec, lift, transaction}
use tekes_memory.Store.Keeps.{Keeps, Keeps-lift, Keeps-bind}
use tekes_memory.Store.Reads.{operation_status-Keeps, read_tool-Keeps}
use tekes_memory.Store.Inversion.{
  bind_of_err, lift_bind_ok, lift_bind, transaction_ok, transaction_err,
}
use tekes_memory.Store.Admit.{admit}
use tekes_memory.Store.Call.{write_body, call_with_effect}

-- The tools that write.
abbrev pub is_write : String → Bool
is_write name = not (name == "memory.status" || (name == "memory.search" || name == "memory.get"))

module _ (st : Settings) (p : Value) (name : String) (a : Value) (k : Option String)
    (s : State) where
  -- A call of a tool that writes is its checks and its transaction.
  pub call_admitted :
      is_write name ≡ true
      → admit st.env p name a k ≡ ok tt
      → call_with_effect st p name a k s ≡ transaction st (write_body st p name a k) s
  unfolding call_with_effect
  call_admitted w h = lift_bind _ _ s tt h ∙ ground arith

  pub call_ok :
      {r : Value} {s' : State}
      → is_write name ≡ true
      → call_with_effect st p name a k s ≡ (ok r, s')
      → (admit st.env p name a k ≡ ok tt)
        × (st.commit_fails ≡ false)
        × (write_body st p name a k s ≡ (ok r, s'))
  unfolding call_with_effect
  call_ok w h =
      let i = lift_bind_ok (admit st.env p name a k) _ s h in
      let t = transaction_ok st (write_body st p name a k) s (ground arith) in (i.1, t.0, t.1)

Result-cases {ℓ} :
    {A : Type ℓ} (r : Result A) → ((a : A) × (r ≡ ok a)) ⊎ ((e : Error) × (r ≡ err e))
Result-cases (ok a) = inl (a, refl)
Result-cases (err e) = inr (e, refl)

refused :
    (st : Settings) (p : Value) (name : String) (a : Value) (k : Option String) (s : State)
    (e : Error)
    → admit st.env p name a k ≡ err e
    → call_with_effect st p name a k s ≡ (err e, s)
unfolding call_with_effect lift
refused st p name a k s e h =
    bind_of_err (lift (admit st.env p name a k)) _ s s e (ap (λ (r : Result (Unit {0})). (r, s)) h)

-- A call of a tool that writes, if it fails for any reason, leaves the database as it was: the commit
-- itself may be what fails.
pub write_atomic :
    (st : Settings) (p : Value) (name : String) (a : Value) (k : Option String) (s s' : State)
    (e : Error)
    → is_write name ≡ true
    → call_with_effect st p name a k s ≡ (err e, s')
    → s'.db ≡ s.db
write_atomic st p name a k s s' e w h = elim (Result-cases (admit st.env p name a k)) [
  | inl (_, admitted) ↦
      transaction_err st (write_body st p name a k) s
        (rw (call_admitted st p name a k s w admitted) at h)
  | inr (e', no_entry) ↦
      ap (λ (x : Result Value × State). x.1.db) (sym h ∙ refused st p name a k s e' no_entry)
]

write_branch-Keeps {ℓ} :
    {A : Type ℓ} {P : Db → Type 0} (b c : Bool) (m n t : Exec A)
    → not (b || c) ≡ false
    → Keeps P m
    → Keeps P n
    → Keeps P (if b then m else if c then n else t)
write_branch-Keeps true c m n t h km kn = km
write_branch-Keeps false true m n t h km kn = kn
write_branch-Keeps false false m n t h km kn = absurd (ground arith)

reads-Keep :
    (P : Db → Type 0) (st : Settings) (p : Value) (name : String) (a : Value) (k : Option String)
    → is_write name ≡ false
    → Keeps P (call_with_effect st p name a k)
unfolding call_with_effect
reads-Keep P st p name a k w = Keeps-bind _ _ (Keeps-lift _) (λ _.
    write_branch-Keeps (name == "memory.status") (name == "memory.search" || name == "memory.get") _
      _ _ w (operation_status-Keeps st p a) (read_tool-Keeps st p name a))

-- `memory.status`, `memory.search` and `memory.get` change nothing.
pub read_only :
    (st : Settings) (p : Value) (name : String) (a : Value) (k : Option String) (s : State)
    → is_write name ≡ false
    → (call_with_effect st p name a k s).1.db ≡ s.db
read_only st p name a k s w = (reads-Keep (λ db. db ≡ s.db) st p name a k w).at s refl
