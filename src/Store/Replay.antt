-- ===== src/Store/Replay.antt =====
-- The stored answer of a request: how it gets into the table `operations`, and how it is found again.
use tekes_memory.Prelude.{
  ◌≡◌, false, refl, sym, ap, subst, ◌∙◌, Bool, true, String, List, [], ◌∷◌, ◌++◌, Option, none,
  some, ◌==◌, eq_iff, find_first, arith, inl, inr, Bool-cases,
}
use tekes_memory.Json.{Value}
use tekes_memory.Json.Access.{index}
use tekes_memory.Common.{Env, Result, ok, err, idempotency_conflict}
use tekes_memory.Common.Access.{text}
use tekes_memory.Store.Tables.{Db, OperationRow, ReceiptRow}
use tekes_memory.Store.Exec.{Settings, State, fail, lift, query, draw, ◌>>=◌}
use tekes_memory.Store.Inversion.{bind_ok, lift_bind_ok}
use tekes_memory.Store.Rows.{parse_doc}
use tekes_memory.Store.Call.{
  is_repeat, replay_result, write_tool, add_operation, perform, operate_on, operate, request_digest,
  store_answer, stamp, add_receipt,
}
use tekes_memory.Store.Maintain.{bump}
use tekes_memory.Store.Derived.{scrub_write_args}
use tekes_memory.Store.Stable.{Framed}
use tekes_memory.Store.Stable.Entry.{write_tool-Keeps}
use tekes_memory.Store.Tombstones.{Answered, Answered-Stable}
use tekes_memory.Store.History.{Request, run, run-Keeps}

module _ {ℓ} {A : Type ℓ} where
  pub find_first-append_new :
      (f : A → Bool) (xs : List A) (a : A)
      → find_first f xs ≡ none
      → f a ≡ true
      → find_first f (xs ++ a ∷ []) ≡ some a
  unfolding find_first
  find_first-append_new f [] a h t = ground arith
  find_first-append_new f (x ∷ xs) a h t = ground (arith, find_first-append_new f xs a)

-- The request has an answer, which a repetition gets.
pub record HasAnswer (env : Env) (p : Value) (name : String) (a r : Value) (db : Db) : Type 0 where
  pub principal : String
  pub key : String
  pub row : OperationRow
  pub principal_text : text p "id" ≡ ok principal
  pub key_text : text a "idempotency_key" ≡ ok key
  pub stored : Answered principal (env.canonical (index a "scope")) key row db
  pub same_request : row.digest ≡ request_digest env name a
  pub readable : parse_doc env row.result ≡ ok r

abbrev Unanswered : String → String → String → Db → Type 0
Unanswered principal scope key db = find_first (is_repeat principal scope key) db.operations ≡ none

Unanswered-Framed : (principal scope key : String) → Framed (Unanswered principal scope key)
unfolding tekes_memory.Store.Lineage.add_tombstone
Unanswered-Framed principal scope key = record {
  frame = λ db db' t e r h. ap (find_first (is_repeat principal scope key)) e ∙ h;
  tombstone = λ sc k db h. h;
}

module _ (st : Settings) (p a : Value) (scope dg : String) (principal key : String)
    (ep : text p "id" ≡ ok principal) (ek : text a "idempotency_key" ≡ ok key) where
  abbrev new_row : String → Value → OperationRow
  new_row id r = record {
    id = id;
    principal = principal;
    scope = scope;
    key = key;
    digest = dg;
    result = st.env.canonical r;
  }

  -- What is written if the answer is stored.
  store_answer_ok :
      (r : Value) (s : State) {r' : Value} {s' : State}
      → store_answer st p a scope dg r s ≡ (ok r', s')
      → (id : String) × (r' ≡ r) × (s'.db.operations ≡ s.db.operations ++ new_row id r ∷ [])
  unfolding store_answer ◌>>=◌ add_operation bump
  store_answer_ok r s h =
      let i = lift_bind_ok (text r "operation_id") _ s h in
      let j = lift_bind_ok (text p "id") _ s i.2 in
      let k = lift_bind_ok (text a "idempotency_key") _ s j.2 in (i.0, ground arith, ground arith)

  new_row-IsRepeat : (id : String) (r : Value) → is_repeat principal scope key (new_row id r) ≡ true
  new_row-IsRepeat id r =
      ground (arith, eq_iff principal principal, eq_iff scope scope, eq_iff key key)

  stored_new :
      (db db' : Db) (id : String) (r : Value)
      → Unanswered principal scope key db
      → db'.operations ≡ db.operations ++ new_row id r ∷ []
      → Answered principal scope key (new_row id r) db'
  stored_new db db' id r un e =
      ap (find_first (is_repeat principal scope key)) e
      ∙ find_first-append_new _ db.operations (new_row id r) un (new_row-IsRepeat id r)

  perform_ok :
      (name : String) (s : State) {r : Value} {s' : State}
      → Unanswered principal scope key s.db
      → perform st p name a scope dg s ≡ (ok r, s')
      → (id : String) × Answered principal scope key (new_row id r) s'.db
  unfolding perform draw
  perform_ok name s {r} {s'} un h =
      let w = bind_ok (write_tool st name (scrub_write_args st.env name a)) _ s h in
      let s1 = w.1 in
      let d1 = bind_ok (draw st.env) _ s1 w.3 in
      let d2 = bind_ok (draw st.env) _ d1.1 d1.3 in
      let i = store_answer_ok (stamp w.0 d1.0 d2.0) d2.1 d2.3 in
      let kept : Unanswered principal scope key
          (write_tool st name (scrub_write_args st.env name a) s).1.db =
        (write_tool-Keeps (Unanswered-Framed principal scope key) st name
            (scrub_write_args st.env name a)).at
          s un in
      let same : s1.db ≡ d2.1.db = ground arith in
      let path : (write_tool st name (scrub_write_args st.env name a) s).1.db ≡ d2.1.db =
        ap (λ (x : Result Value × State). x.1.db) w.2 ∙ same in
      let un' = subst (Unanswered principal scope key) path kept in
      (
        i.0,
        subst (λ x. Answered principal scope key (new_row i.0 x) s'.db) (sym i.1)
            (stored_new d2.1.db s'.db i.0 (stamp w.0 d1.0 d2.0) un' i.2),
      )

-- The same, for a request that was answered before.
module _ (st : Settings) (p a : Value) (name : String) where
  abbrev scope_of : String
  scope_of = st.env.canonical (index a "scope")

  abbrev digest_of : String
  digest_of = request_digest st.env name a

  pub replay_ok :
      (stored result : String) (s : State) {r : Value} {s' : State}
      → replay_result st.env stored digest_of result s ≡ (ok r, s')
      → (stored ≡ digest_of) × (parse_doc st.env result ≡ ok r) × (s' ≡ s)
  unfolding replay_result fail lift
  replay_ok stored result s h = elim (Bool-cases (stored == digest_of)) [
    | inl e ↦ ((eq_iff stored digest_of).0 e, ground arith, ground arith)
    | inr e ↦ ground arith
  ]

  operate_on_ok :
      (principal key : String) (o : Option OperationRow) (s : State) {r : Value} {s' : State}
      → text p "id" ≡ ok principal
      → text a "idempotency_key" ≡ ok key
      → find_first (is_repeat principal scope_of key) s.db.operations ≡ o
      → st.env.from_str (st.env.canonical r) ≡ some r
      → operate_on st p name a scope_of digest_of o s ≡ (ok r, s')
      → HasAnswer st.env p name a r s'.db
  unfolding operate_on
  operate_on_ok principal key none s {r} {s'} ep ek found rt h =
      let i = perform_ok st p a scope_of digest_of principal key ep ek name s found h in
      record {
        principal = principal;
        key = key;
        row = new_row st p a scope_of digest_of principal key ep ek i.0 r;
        principal_text = ep;
        key_text = ek;
        stored = i.1;
        same_request = refl;
        readable = rw rt refl;
      }
  operate_on_ok principal key (some o) s {r} {s'} ep ek found rt h =
      let i = replay_ok o.digest o.result s h in
      record {
        principal = principal;
        key = key;
        row = o;
        principal_text = ep;
        key_text = ek;
        stored = rw i.2 found;
        same_request = i.0;
        readable = i.1;
      }

  pub operate_ok :
      (s : State) {r : Value} {s' : State}
      → st.env.from_str (st.env.canonical r) ≡ some r
      → operate st p name a scope_of digest_of s ≡ (ok r, s')
      → HasAnswer st.env p name a r s'.db
  unfolding operate query ◌>>=◌
  operate_ok s rt h =
      let i = lift_bind_ok (text p "id") _ s h in
      let j = lift_bind_ok (text a "idempotency_key") _ s i.2 in
      operate_on_ok i.0 j.0 _ s i.1 j.1 refl rt j.2

  -- A request that has an answer gets it, and changes nothing.
  pub operate_again :
      (s : State) (r : Value)
      → HasAnswer st.env p name a r s.db
      → operate st p name a scope_of digest_of s ≡ (ok r, s)
  unfolding operate operate_on replay_result ◌>>=◌
  operate_again s r h = ground (arith, eq_iff h.row.digest digest_of)

module _ (st : Settings) (p a a' r : Value) (name name' : String) where
  -- Another request under the same key is an error, and changes nothing.
  pub operate_conflict :
      (s : State)
      → HasAnswer st.env p name a r s.db
      → st.env.canonical (index a' "scope") ≡ st.env.canonical (index a "scope")
      → text a' "idempotency_key" ≡ text a "idempotency_key"
      → (request_digest st.env name a == request_digest st.env name' a') ≡ false
      → operate st p name' a'
          (st.env.canonical (index a' "scope"))
          (request_digest st.env name' a')
          s
        ≡ (err idempotency_conflict, s)
  unfolding operate operate_on replay_result ◌>>=◌
  operate_conflict s h sc k d = rw (sc, k) (ground arith)

module _ (env : Env) (p a r : Value) (name : String) where
  pub add_receipt-HasAnswer :
      (row : ReceiptRow) (db : Db)
      → HasAnswer env p name a r db
      → HasAnswer env p name a r (add_receipt row db)
  unfolding add_receipt
  add_receipt-HasAnswer row db h = record {
    principal = h.principal;
    key = h.key;
    row = h.row;
    principal_text = h.principal_text;
    key_text = h.key_text;
    stored = h.stored;
    same_request = h.same_request;
    readable = h.readable;
  }

  -- An answer lasts.
  pub run-HasAnswer :
      (history : List Request) (s : State)
      → HasAnswer env p name a r s.db
      → HasAnswer env p name a r (run history s).db
  run-HasAnswer history s h = record {
    principal = h.principal;
    key = h.key;
    row = h.row;
    principal_text = h.principal_text;
    key_text = h.key_text;
    stored =
        run-Keeps (Answered-Stable h.principal (env.canonical (index a "scope")) h.key h.row)
          history s h.stored;
    same_request = h.same_request;
    readable = h.readable;
  }
