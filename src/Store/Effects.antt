-- ===== src/Store/Effects.antt =====
-- `reconcile_effect` of src/store.rs: the durable outcome of a write with an effect key.
use tekes_memory.Prelude.{
  ◌≡◌, refl, ap, subst, ◌∙◌, ℤ, true, String, List, none, some, find_first, eq_iff, arith, inl, inr,
  Bool-cases,
}
use tekes_memory.Json.{Value}
use tekes_memory.Json.Access.{index}
use tekes_memory.Common.{Env, Result, ok}
use tekes_memory.Common.Access.{text}
use tekes_memory.Common.Authorize.{authorize}
use tekes_memory.Store.Tables.{Db, ReceiptRow, OperationRow}
use tekes_memory.Store.Exec.{Settings, State, Exec, query, execute, pure, ◌>>=◌}
use tekes_memory.Store.Keeps.{Keeps}
use tekes_memory.Store.Inversion.{bind_ok, transaction_of_ok}
use tekes_memory.Store.Admit.{admit, valid_effect_key}
use tekes_memory.Store.Call.{
  add_operation, add_receipt, is_receipt, receipt_or, with_receipt, replay_result, write_body,
  request_digest, confirmed, reconcile_effect, call_with_effect,
}
use tekes_memory.Store.Stable.{Framed}
use tekes_memory.Store.Stable.Entry.{operate-Keeps}
use tekes_memory.Store.Tombstones.{Receipted, Receipted-Stable}
use tekes_memory.Store.Replay.{find_first-append_new}
use tekes_memory.Store.Atomic.{is_write, call_admitted, call_ok}
use tekes_memory.Store.History.{Request, run, run-Keeps}

-- The principal has not used the effect key yet.
abbrev pub Unused : String → String → Db → Type 0
Unused principal key db = find_first (is_receipt principal key) db.effect_receipts ≡ none

Unused-Framed : (principal key : String) → Framed (Unused principal key)
unfolding tekes_memory.Store.Lineage.add_tombstone
Unused-Framed principal key = record {
  frame = λ db db' t o e h. ap (find_first (is_receipt principal key)) e ∙ h;
  tombstone = λ sc k db h. h;
}

Unused-operation :
    (principal key : String) (o : OperationRow) (db : Db)
    → Unused principal key db
    → Unused principal key (add_operation o db)
unfolding add_operation
Unused-operation principal key o db h = h

abbrev pub receipt_row : Env → String → String → String → String → Value → ReceiptRow
receipt_row env principal key scope dg r = record {
  principal = principal;
  key = key;
  scope = scope;
  digest = dg;
  result = env.canonical r;
}

module _ (st : Settings) (principal key scope dg : String) where
  add_receipt-Receipted :
      (db : Db) (r : Value)
      → Unused principal key db
      → Receipted principal key
          (receipt_row st.env principal key scope dg r)
          (add_receipt (receipt_row st.env principal key scope dg r) db)
  unfolding add_receipt
  add_receipt-Receipted db r h =
      find_first-append_new (is_receipt principal key) db.effect_receipts
        (receipt_row st.env principal key scope dg r) h
        (ground (arith, eq_iff principal principal, eq_iff key key))

  -- The end of `receipt_or`, which stores the receipt.
  abbrev pub store_receipt : Value → Exec Value
  store_receipt r =
      execute (add_receipt (receipt_row st.env principal key scope dg r)) >>= λ _. pure r

  pub store_receipt_ok :
      (made : Value) (s : State) {r : Value} {s' : State}
      → store_receipt made s ≡ (ok r, s')
      → (made ≡ r) × (add_receipt (receipt_row st.env principal key scope dg made) s.db ≡ s'.db)
  unfolding ◌>>=◌
  store_receipt_ok made s h = (ground arith, ap (λ (x : Result Value × State). x.1.db) h)

  pub receipt_or-none :
      (body : Exec Value)
      → receipt_or st principal key scope dg body none ≡ (body >>= store_receipt)
  unfolding receipt_or
  receipt_or-none body = refl

  receipt_or_ok :
      (body : Exec Value) (s : State) {r : Value} {s' : State}
      → Keeps (Unused principal key) body
      → Unused principal key s.db
      → receipt_or st principal key scope dg body none s ≡ (ok r, s')
      → Receipted principal key (receipt_row st.env principal key scope dg r) s'.db
  receipt_or_ok body s {r} {s'} keeps unused h =
      let i = bind_ok body store_receipt s (rw (receipt_or-none body) at h) in
      let e = store_receipt_ok i.0 i.1 i.3 in
      let before : Unused principal key i.1.db =
        subst (λ (x : Result Value × State). Unused principal key x.1.db) i.2 (keeps.at s unused) in
      subst (λ x. Receipted principal key (receipt_row st.env principal key scope dg x) s'.db) e.0
        (subst (Receipted principal key (receipt_row st.env principal key scope dg i.0)) e.1
          (add_receipt-Receipted i.1.db i.0 before))

module _ (st : Settings) (p a : Value) (name key principal : String)
    (ep : text p "id" ≡ ok principal) where
  abbrev receipt_of : Value → ReceiptRow
  receipt_of r =
      receipt_row st.env principal key (st.env.canonical (index a "scope"))
        (request_digest st.env name a) r

  with_receipt_ok :
      (scope dg : String) (body : Exec Value) (s : State) {r : Value} {s' : State}
      → Keeps (Unused principal key) body
      → Unused principal key s.db
      → with_receipt st p key scope dg body s ≡ (ok r, s')
      → Receipted principal key (receipt_row st.env principal key scope dg r) s'.db
  unfolding with_receipt query ◌>>=◌
  with_receipt_ok scope dg body s keeps unused h =
      receipt_or_ok st principal key scope dg body s keeps unused (rw (ep, unused) at h)

  -- The first write under an effect key leaves its receipt.
  pub first_receipt :
      (s : State) {r : Value} {s' : State}
      → is_write name ≡ true
      → Unused principal key s.db
      → call_with_effect st p name a (some key) s ≡ (ok r, s')
      → Receipted principal key (receipt_of r) s'.db
  unfolding write_body
  first_receipt s w unused h =
      let c = call_ok st p name a (some key) s w h in
      with_receipt_ok _ _ _ s
        (operate-Keeps (Unused-Framed principal key) (Unused-operation principal key) st p name a _
          _)
        unused c.2

  pub with_receipt_again :
      (st' : Settings) (body : Exec Value) (s : State) (r : Value)
      → st'.env ≡ st.env
      → st.env.from_str (st.env.canonical r) ≡ some r
      → Receipted principal key (receipt_of r) s.db
      → with_receipt st' p key
          (st.env.canonical (index a "scope"))
          (request_digest st.env name a)
          body
          s
        ≡ (ok r, s)
  unfolding with_receipt receipt_or replay_result query ◌>>=◌
  with_receipt_again st' body s r e rt found =
      rw (ep, found)
        (ground (arith, eq_iff (request_digest st.env name a) (request_digest st.env name a)))

-- The checks of a call with an effect key include the form of the key.
admit-valid_effect_key :
    (env : Env) (p a : Value) (name key : String)
    → admit env p name a (some key) ≡ ok tt
    → valid_effect_key key ≡ true
unfolding admit
admit-valid_effect_key env p a name key h = elim (Bool-cases (valid_effect_key key)) [
  | inl e ↦ e
  | inr e ↦ absurd (cc (rw e at h))
]

found_outcome :
    (st : Settings) (p : Value) (principal key : String) (s : State) (row : ReceiptRow)
    (scope data' : Value)
    → valid_effect_key key ≡ true
    → text p "id" ≡ ok principal
    → Receipted principal key row s.db
    → st.env.from_str row.scope ≡ some scope
    → authorize p scope ≡ ok tt
    → st.env.from_str row.result ≡ some data'
    → reconcile_effect st p key s ≡ (ok (confirmed st.env data'), s)
unfolding reconcile_effect ◌>>=◌
found_outcome st p principal key s row scope data' valid ep found sc auth d =
    rw (valid, ep, found, sc, auth, d) refl

-- A write that succeeded under a new effect key is confirmed with its result, whatever was called in
-- between, to a principal with the same name that is allowed in the scope: if the scope and the
-- result read back from their canonical forms.
pub effect_confirmed :
    (st : Settings) (p p' : Value) (name key principal : String) (a r : Value) (s s' : State)
    (history : List Request)
    → is_write name ≡ true
    → text p "id" ≡ ok principal
    → Unused principal key s.db
    → call_with_effect st p name a (some key) s ≡ (ok r, s')
    → text p' "id" ≡ ok principal
    → authorize p' (index a "scope") ≡ ok tt
    → st.env.from_str (st.env.canonical r) ≡ some r
    → st.env.from_str (st.env.canonical (index a "scope")) ≡ some (index a "scope")
    → reconcile_effect st p' key (run history s') ≡ (ok (confirmed st.env r), run history s')
effect_confirmed st p p' name key principal a r s s' history w ep unused h ep' auth rt rts =
    let c = call_ok st p name a (some key) s w h in
    let first = first_receipt st p a name key principal ep s w unused h in
    found_outcome st p' principal key (run history s') _ (index a "scope") r
      (admit-valid_effect_key st.env p a name key c.0) ep'
      (run-Keeps (Receipted-Stable principal key _) history s' first) rts auth rt

-- A write that succeeded under a new effect key is answered with the same result when it is called
-- again under the key, and changes nothing then: if the result reads back from its canonical form,
-- and the commit of the repetition succeeds.
pub effect_again :
    (st : Settings) (p : Value) (name key principal : String) (a r : Value) (s s' : State)
    (history : List Request) (now : ℤ)
    → is_write name ≡ true
    → text p "id" ≡ ok principal
    → Unused principal key s.db
    → call_with_effect st p name a (some key) s ≡ (ok r, s')
    → st.env.from_str (st.env.canonical r) ≡ some r
    → call_with_effect (record st { clock = now }) p name a (some key) (run history s')
      ≡ (ok r, run history s')
unfolding write_body
effect_again st p name key principal a r s s' history now w ep unused h rt =
    let c = call_ok st p name a (some key) s w h in
    let first = first_receipt st p a name key principal ep s w unused h in
    let st' : Settings = record st { clock = now } in
    call_admitted st' p name a (some key) (run history s') w c.0
    ∙ transaction_of_ok st' _ _ _ r c.1 (
        with_receipt_again st p a name key principal ep st' _ (run history s') r refl rt
          (run-Keeps (Receipted-Stable principal key _) history s' first))
