-- ===== src/Store/Rows.antt =====
-- The helpers of src/store.rs that read and write record rows.
use Prim.Native.String.{◌++◌ as append}
use tekes_memory.Prelude.{
  ℤ, pos, lt_int, le_int, max_int, min_int, Bool, true, false, not, ◌&&◌, ◌||◌, String, List, [],
  ◌∷◌, ◌++◌, map, Option, none, some, ◌==◌, any, select, find_first, ℤ_discrete, if◌then◌else◌,
}
use tekes_memory.Json.{Value, json_eq}
use tekes_memory.Json.Access.{get, index, as_str, as_i64, unwrap_or, is_text}
use tekes_memory.Json.Edit.{object}
use tekes_memory.Common.{Env, Result, ok, err, ok_or, fail_if, invalid_argument, not_found}
use tekes_memory.Common.Access.{text}
use tekes_memory.Common.Schema.{max_int_json}
use tekes_memory.Store.Words.{words, join}
use tekes_memory.Store.Tables.{Db, RecordRow, DependencyRow, insert_or_ignore}
use tekes_memory.Store.Exec.{Settings, Exec, ◌>>=◌, ◌>>◌, pure, lift, query, execute}

abbrev pub same_int : ℤ → ℤ → Bool
same_int a b = elim (ℤ_discrete a b) [ yes _ ↦ true | no _ ↦ false ]

-- `status IN ('active','contested')`
abbrev pub is_current : String → Bool
is_current s = s == "active" || s == "contested"

-- `expires IS NULL OR expires>?`
abbrev pub unexpired : Option ℤ → ℤ → Bool
unexpired none now = true
unexpired (some e) now = lt_int now e

-- `serde_json::from_str` on a column; its error becomes `invalid_argument`
abbrev pub parse_doc : Env → String → Result Value
parse_doc env s = ok_or (env.from_str s) invalid_argument

unfoldable pub parse_docs : Env → List String → Result (List Value)
parse_docs env [] = ok []
parse_docs env (d ∷ ds) = elim (parse_doc env d) [
  | err e ↦ err e
  | ok v ↦ elim (parse_docs env ds) [ err e ↦ err e | ok vs ↦ ok (v ∷ vs) ]
]

-- The optional key of the group of facts that speak of one thing.
unfoldable pub fact_key : Env → Value → Option String
unfolding get index object
fact_key env r = elim (get "fact" r) [
  | none ↦ none
  | some f ↦ some (
      env.hash (
        env.canonical (
          object (
            ("subject", index f "subject")
            ∷ ("predicate", index f "predicate")
            ∷ ("environment", index f "environment")
            ∷ []))))
]

-- `digest`
abbrev pub digest : Env → Value → String
digest env v = env.hash (env.canonical v)

-- The interval in which a fact holds.
unfoldable pub valid_from : Value → ℤ
unfolding index as_i64
valid_from f = unwrap_or (as_i64 (index f "valid_from")) (pos 0)

unfoldable pub valid_to : Value → ℤ
unfolding index as_i64
valid_to f = unwrap_or (as_i64 (index f "valid_to")) max_int_json

-- A fact holds now.
unfoldable pub valid : Settings → Value → Bool
unfolding valid_from valid_to
valid st f = le_int (valid_from f) st.clock && lt_int st.clock (valid_to f)

abbrev is_record : String → String → RecordRow → Bool
is_record id scope r = r.id == id && r.scope == scope

-- A row that may be read: not deleted, not expired.
abbrev pub is_live : Settings → RecordRow → Bool
is_live st r = not (r.status == "deleted" || r.status == "expired") && unexpired r.expires st.clock

unfoldable pub row : Settings → Value → String → Exec Value
unfolding find_first
row st scope id = do
  found ← query (λ db. find_first (is_record id (st.env.canonical scope)) db.records)
  r ← lift (ok_or found not_found)
  lift (fail_if (not (is_live st r)) not_found)
  lift (parse_doc st.env r.doc)

-- Whether two facts hold at a common time.
unfoldable pub overlaps : Value → Value → Bool
unfolding valid_from valid_to
overlaps fa fb =
    lt_int (max_int (valid_from fa) (valid_from fb)) (min_int (valid_to fa) (valid_to fb))

abbrev same_key : Option String → Option String → Bool
same_key (some a) (some b) = a == b
same_key _ _ = false

abbrev disputes : Settings → Value → Value → Bool
disputes st r o =
    not (json_eq (index (index o "fact") "value") (index (index r "fact") "value"))
    && valid st (index o "fact")

abbrev others : Settings → Value → Db → List String
others st r db =
    map (λ (x : RecordRow). x.doc)
      (select
        (λ (x : RecordRow).
          x.scope == st.env.canonical (index r "scope")
          && same_key x.fact_key (fact_key st.env r)
          && is_current x.status
          && unexpired x.expires st.clock)
        db.records)

-- The status that a reader sees now.
unfoldable pub current_status : Settings → Value → Exec String
unfolding valid parse_docs select fact_key index is_text text any
current_status st r =
    if not (is_text (index r "kind") "fact")
    then lift (text r "status")
    else if not (valid st (index r "fact"))
    then pure "expired"
    else (do
      docs ← query (others st r)
      vs ← lift (parse_docs st.env docs)
      pure (if any (disputes st r) vs then "contested" else "active"))

-- The terms of a record in the full-text index.
unfoldable pub index_words : Env → String → Value → String
unfolding words join index
index_words env content r =
    join " " (words env (append content (append " " (env.canonical (index r "fact")))))

abbrev pub put_dependency : String → Value → Exec (Unit {0})
put_dependency id source = elim (as_str (index source "source_key")) [
  | none ↦ pure tt
  | some key ↦ execute (λ db. record db {
    dependencies =
        insert_or_ignore (λ (d : DependencyRow). d.record_id == id && d.source_key == key)
          (record { record_id = id; source_key = key }) db.dependencies;
  })
]

abbrev pub put_index : Env → String → Value → Exec (Unit {0})
put_index env id r = do
  content ← lift (text r "content")
  execute (λ db. record db {
    search_index = db.search_index ++ (record { id = id; words = index_words env content r } ∷ []);
  })
