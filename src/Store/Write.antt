-- ===== src/Store/Write.antt =====
-- `save` and `correct` of src/store.rs.
use tekes_memory.Prelude.{
  ℤ, pos, ◌+ℤ◌, lt_int, Bool, false, not, String, [], ◌∷◌, Option, none, some, ◌==◌, if◌then◌else◌,
}
use tekes_memory.Prelude.Int.{◌*ℤ◌}
use tekes_memory.Json.{Value, null, bool, int, str, json_eq}
use tekes_memory.Json.Access.{get, index, as_i64, as_bool, is_text, is_true, unwrap_or}
use tekes_memory.Json.Edit.{set_key, object}
use tekes_memory.Common.{ok_or, fail_if, invalid_argument, revision_conflict, panicked}
use tekes_memory.Common.Access.{text}
use tekes_memory.Store.Exec.{Settings, Exec, ◌>>=◌, ◌>>◌, pure, lift, draw}
use tekes_memory.Store.Rows.{row, fact_key}
use tekes_memory.Store.Put.{put, blocked, check_kind, status}
use tekes_memory.Store.Facts.{reconcile_keys}

-- When a new record expires: never if it is pinned, else as asked, else an episode after some days.
unfoldable pub expires_at : Settings → Value → String → Value
unfolding index is_true get
expires_at st a kind =
    if is_true (index a "pinned")
    then null
    else unwrap_or (get "expires_at" a)
        (if kind == "episode" then int (st.clock +ℤ st.episode_days *ℤ pos 86400) else null)

-- `if let Some(v) = a.get(f) { r[f] = v.clone() }`
unfoldable pub copy_field : Value → Value → String → Value
unfolding get set_key
copy_field a r f = elim (get f a) [ none ↦ r | some v ↦ set_key r f v ]

-- The new record.
unfoldable pub new_record : Settings → Value → String → String → Value
unfolding object index as_bool expires_at copy_field
new_record st a kind id =
    let r = object (
      ("id", str id)
      ∷ ("scope", index a "scope")
      ∷ ("kind", str kind)
      ∷ ("revision", int (pos 1))
      ∷ ("status", str "active")
      ∷ ("content", index a "content")
      ∷ ("sources", index a "sources")
      ∷ ("observed_at", int st.clock)
      ∷ ("verified_at", index a "verified_at")
      ∷ ("pinned", bool (unwrap_or (as_bool (index a "pinned")) false))
      ∷ ("expires_at", expires_at st a kind)
      ∷ []) in
    copy_field a (copy_field a r "fact") "procedure"

abbrev in_future : Option ℤ → ℤ → Bool
in_future none now = false
in_future (some n) now = lt_int now n

-- `Self::fact_key(&r).unwrap()`
abbrev key_or_panic : Settings → Value → Exec String
key_or_panic st r = lift (ok_or (fact_key st.env r) panicked)

unfoldable pub save : Settings → Value → Exec Value
unfolding blocked text check_kind index as_i64 new_record put reconcile_keys fact_key status object
save st a = do
  blocked st a
  kind ← lift (text a "kind")
  lift (check_kind a kind)
  lift (fail_if (in_future (as_i64 (index a "verified_at")) st.clock) invalid_argument)
  id ← draw st.env
  let r = new_record st a kind id
  put st r
  if kind == "fact"
      then (do k ← key_or_panic st r; reconcile_keys st (index a "scope") (k ∷ []))
      else pure tt
  id' ← lift (text r "id")
  now ← status id'
  pure (object (("id", index r "id") ∷ ("revision", int (pos 1)) ∷ ("status", str now) ∷ []))

-- The record after a correction.
unfoldable pub corrected : Settings → Value → Value → ℤ → Value
unfolding set_key index copy_field
corrected st a r revision =
    let r1 = set_key r "revision" (int (revision +ℤ pos 1)) in
    let r2 = set_key r1 "content" (index a "replacement") in
    let r3 = set_key r2 "sources" (index a "sources") in
    let r4 = set_key r3 "observed_at" (int st.clock) in
    let r5 = set_key r4 "verified_at" null in
    let r6 = set_key r5 "status" (str "active") in copy_field a (copy_field a r6 "fact") "procedure"

unfoldable pub correct : Settings → Value → Exec Value
unfolding row text index fact_key check_kind blocked as_i64 corrected put is_text reconcile_keys
    status object
correct st a = do
  id ← lift (text a "id")
  old ← row st (index a "scope") id
  lift (
      fail_if (not (json_eq (index old "revision") (index a "expected_revision")))
        revision_conflict)
  kind ← lift (text old "kind")
  lift (check_kind a kind)
  blocked st a
  revision ← lift (ok_or (as_i64 (index old "revision")) panicked)
  let r = corrected st a old revision
  put st r
  if is_text (index r "kind") "fact"
      then (do
        old_key ← key_or_panic st old
        key ← key_or_panic st r
        reconcile_keys st (index a "scope") (old_key ∷ key ∷ []))
      else pure tt
  id' ← lift (text r "id")
  now ← status id'
  pure (object (("id", index r "id") ∷ ("revision", index r "revision") ∷ ("status", str now) ∷ []))
