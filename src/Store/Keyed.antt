-- ===== src/Store/Keyed.antt =====
-- A write of `call_with_effect` of src/store.rs with an effect key or without: the table `operations`
-- is looked up in both cases, unless the effect key has a receipt.
use tekes_memory.Prelude.{
  ◌≡◌, refl, sym, subst, ◌∙◌, Bool, false, String, Option, none, some, ◌==◌, eq_iff, find_first,
}
use tekes_memory.Json.{Value}
use tekes_memory.Json.Access.{index}
use tekes_memory.Common.{ok, err, idempotency_conflict}
use tekes_memory.Common.Access.{text}
use tekes_memory.Store.Tables.{Db, ReceiptRow}
use tekes_memory.Store.Exec.{Settings, State, Exec, fail, query, ◌>>=◌}
use tekes_memory.Store.Inversion.{bind_ok, bind_of_err}
use tekes_memory.Store.Call.{
  is_receipt, receipt_or, with_receipt, replay_result, write_body, operate, request_digest,
}
use tekes_memory.Store.Replay.{
  HasAnswer, operate_ok, operate_conflict, replay_ok, add_receipt-HasAnswer,
}
use tekes_memory.Store.Effects.{store_receipt, store_receipt_ok, receipt_or-none}

-- Whether the receipt is that of a request with the digest.
abbrev pub receipt_of : String → Option ReceiptRow → Bool
receipt_of dg none = false
receipt_of dg (some r) = r.digest == dg

-- Whether the effect key, if there is one, has a receipt of a request with the digest.
abbrev pub has_receipt : String → String → Option String → Db → Bool
has_receipt principal dg none db = false
has_receipt principal dg (some key) db =
    receipt_of dg (find_first (is_receipt principal key) db.effect_receipts)

with_receipt-looks_up :
    (st : Settings) (p : Value) (principal key scope dg : String) (body : Exec Value) (s : State)
    → text p "id" ≡ ok principal
    → with_receipt st p key scope dg body s
      ≡ receipt_or st principal key scope dg body
          (find_first (is_receipt principal key) s.db.effect_receipts)
          s
unfolding with_receipt query ◌>>=◌
with_receipt-looks_up st p principal key scope dg body s ep = rw ep refl

module _ (st : Settings) (p a : Value) (name principal : String)
    (ep : text p "id" ≡ ok principal) where
  abbrev scope : String
  scope = st.env.canonical (index a "scope")

  abbrev dg : String
  dg = request_digest st.env name a

  receipt_or-HasAnswer :
      (key : String) (o : Option ReceiptRow) (s : State) {r : Value} {s' : State}
      → receipt_of dg o ≡ false
      → st.env.from_str (st.env.canonical r) ≡ some r
      → receipt_or st principal key scope dg (operate st p name a scope dg) o s ≡ (ok r, s')
      → HasAnswer st.env p name a r s'.db
  unfolding receipt_or
  receipt_or-HasAnswer key (some old) s other rt h =
      let same = (replay_ok st p a name old.digest old.result s h).0 in
      absurd (cc (other, (eq_iff old.digest dg).1 same))
  receipt_or-HasAnswer key none s {r} {s'} other rt h =
      let body = operate st p name a scope dg in
      let i =
        bind_ok body (store_receipt st principal key scope dg) s
          (rw (receipt_or-none st principal key scope dg body) at h) in
      let e = store_receipt_ok st principal key scope dg i.0 i.1 i.3 in
      let made : body s ≡ (ok r, i.1) = subst (λ x. body s ≡ (ok x, i.1)) e.0 i.2 in
      subst (HasAnswer st.env p name a r) e.1
        (add_receipt-HasAnswer st.env p a r name _ i.1.db (operate_ok st p a name s rt made))

  -- A write that is answered, and not by a receipt, leaves its answer in the table.
  pub write_body-HasAnswer :
      (k : Option String) (s : State) {r : Value} {s' : State}
      → has_receipt principal dg k s.db ≡ false
      → st.env.from_str (st.env.canonical r) ≡ some r
      → write_body st p name a k s ≡ (ok r, s')
      → HasAnswer st.env p name a r s'.db
  unfolding write_body
  write_body-HasAnswer none s other rt h = operate_ok st p a name s rt h
  write_body-HasAnswer (some key) s other rt h =
      receipt_or-HasAnswer key (find_first (is_receipt principal key) s.db.effect_receipts) s other
        rt
        (sym (with_receipt-looks_up st p principal key scope dg (operate st p name a scope dg) s ep)
          ∙ h)

module _ (st : Settings) (p a a' r : Value) (name name' principal : String)
    (ep : text p "id" ≡ ok principal)
    (sc : st.env.canonical (index a' "scope") ≡ st.env.canonical (index a "scope"))
    (same_key : text a' "idempotency_key" ≡ text a "idempotency_key")
    (differ : (request_digest st.env name a == request_digest st.env name' a') ≡ false) where
  abbrev scope' : String
  scope' = st.env.canonical (index a' "scope")

  abbrev dg' : String
  dg' = request_digest st.env name' a'

  receipt_or-conflict :
      (key : String) (o : Option ReceiptRow) (s : State)
      → receipt_of dg' o ≡ false
      → HasAnswer st.env p name a r s.db
      → receipt_or st principal key scope' dg' (operate st p name' a' scope' dg') o s
        ≡ (err idempotency_conflict, s)
  unfolding receipt_or replay_result fail
  receipt_or-conflict key (some old) s other h = rw other refl
  receipt_or-conflict key none s other h =
      bind_of_err (operate st p name' a' scope' dg') (store_receipt st principal key scope' dg') s s
        idempotency_conflict (operate_conflict st p a a' r name name' s h sc same_key differ)

  -- A write under an idempotency key that has an answer of another request is refused, if it is not
  -- answered by a receipt.
  pub write_body-conflict :
      (k : Option String) (s : State)
      → has_receipt principal dg' k s.db ≡ false
      → HasAnswer st.env p name a r s.db
      → write_body st p name' a' k s ≡ (err idempotency_conflict, s)
  unfolding write_body
  write_body-conflict none s other h =
      operate_conflict st p a a' r name name' s h sc same_key differ
  write_body-conflict (some key) s other h =
      with_receipt-looks_up st p principal key scope' dg' (operate st p name' a' scope' dg') s ep
      ∙ receipt_or-conflict key (find_first (is_receipt principal key) s.db.effect_receipts) s other
          h
