-- ===== src/Store/Open/Again.antt =====
-- What `Store::open` of src/store.rs leaves for the next opening.
use tekes_memory.Prelude.{
  ℤ, pos, ◌≡◌, refl, sym, ap, ◌∙◌, ℕ, String, List, [], ◌∷◌, Option, none, some, eq_iff, Bool, true,
  false, not, map, if_true, if_false, if◌then◌else◌,
}
use tekes_memory.Common.{
  Env, Error, Result, ok, err, ok_then, ok-injective, unsupported_database_version,
}
use tekes_memory.Store.Tables.{Db, RecordRow, IndexRow}
use tekes_memory.Store.Rows.{parse_doc}
use tekes_memory.Store.Open.{
  File, open_file, prepare, opened_db, reindex, with_index, is_indexed, is_supported, current_rows,
}

-- Nothing is left to prepare.
record Ready (f : File) : Type 0 where
  version : f.user_version ≡ pos 1
  secret : (s : String) × (f.cursor_secret ≡ some s)
  counter : (n : ℕ) × (f.generation ≡ some n)
  indexed : f.search_index_version ≡ some "2"

Opens : Db → Result Db × File → Type 0
Opens db (r, f) = r ≡ ok db → Ready f × (opened_db f ≡ db)

indexed_version : (o : Option String) → is_indexed o ≡ true → o ≡ some "2"
indexed_version none h = absurd (cc)
indexed_version (some v) h = ap some ((eq_iff v "2").0 h)

with_index-Opens :
    (env : Env) (draws : ℕ) (f : File) (rows : Result (List IndexRow)) (db : Db)
    → Opens db (with_index (prepare env draws f) rows)
unfolding Opens prepare
with_index-Opens env draws f (err e) db h = absurd (cc)
with_index-Opens env draws f (ok rows) db h = (
  record { version = refl; secret = (_, refl); counter = (_, refl); indexed = refl },
  ok-injective _ db h,
)

indexed-Opens :
    (env : Env) (draws : ℕ) (f : File) (db : Db) (b : Bool)
    → is_indexed f.search_index_version ≡ b
    → Opens db (
        if b
        then (ok (opened_db (prepare env draws f)), prepare env draws f)
        else with_index (prepare env draws f) (reindex env (current_rows f.tables.records)))
unfolding Opens prepare
indexed-Opens env draws f db true e h = (
  record { version = refl; secret = (_, refl); counter = (_, refl); indexed = indexed_version _ e },
  ok-injective _ db h,
)
indexed-Opens env draws f db false e h =
    with_index-Opens env draws f (reindex env (current_rows f.tables.records)) db h

version-Opens :
    (db : Db) (b : Bool) (f : File) (e : Error) (x : Result Db × File)
    → Opens db x
    → Opens db (if b then (err e, f) else x)
unfolding Opens
version-Opens db true f e x h p = absurd (cc)
version-Opens db false f e x h p = h p

open_file-Opens : (env : Env) (draws : ℕ) (f : File) (db : Db) → Opens db (open_file env draws f)
unfolding open_file
open_file-Opens env draws f db =
    version-Opens db (not (is_supported f.user_version)) f unsupported_database_version _
      (indexed-Opens env draws f db (is_indexed f.search_index_version) refl)

prepare-Ready : (env : Env) (draws : ℕ) (f : File) → Ready f → prepare env draws f ≡ f
unfolding prepare
prepare-Ready env draws f h = rw (h.secret.1, h.counter.1, h.version) refl

not_old : (v : ℤ) → v ≡ pos 1 → not (is_supported v) ≡ false
not_old v h = rw h refl

open-Ready :
    (env : Env) (draws : ℕ) (f : File) → Ready f → open_file env draws f ≡ (ok (opened_db f), f)
unfolding open_file
open-Ready env draws f h =
    if_false _ _ _ (not_old f.user_version h.version)
    ∙ if_true (is_indexed f.search_index_version) _ _ (ap is_indexed h.indexed)
    ∙ ap (λ (g : File). (ok (opened_db g), g)) (prepare-Ready env draws f h)

-- A store that was opened is opened again as it is: the second opening, whatever identifiers it draws,
-- works on the same database, the secret of the cursors and the generation included, and changes
-- nothing in the file.
pub open_again :
    (env : Env) (draws draws' : ℕ) (f : File) (db : Db)
    → (open_file env draws f).0 ≡ ok db
    → open_file env draws' (open_file env draws f).1 ≡ (ok db, (open_file env draws f).1)
unfolding Opens
open_again env draws draws' f db h =
    let (ready, same) = open_file-Opens env draws f db h in
    open-Ready env draws' (open_file env draws f).1 ready
    ∙ ap (λ (d : Db). (ok d, (open_file env draws f).1)) same

-- The rows that the rebuilding writes are those of the current records, in their order.
reindex-rows :
    (env : Env) (xs : List RecordRow) (rows : List IndexRow)
    → reindex env xs ≡ ok rows
    → map (λ (r : IndexRow). r.id) rows ≡ map (λ (r : RecordRow). r.id) xs
unfolding reindex
reindex-rows env [] rows h = ap (map (λ (r : IndexRow). r.id)) (sym (ok-injective _ _ h))
reindex-rows env (x ∷ xs) rows h =
    let (r, read, h1) = ok_then (parse_doc env x.doc) _ rows h in
    let (tail, rest, h2) = ok_then (reindex env xs) _ rows h1 in
    ap (map (λ (r : IndexRow). r.id)) (sym (ok-injective _ _ h2))
    ∙ ap (λ ids. x.id ∷ ids) (reindex-rows env xs tail rest)

index_of : Result Db → List String
index_of (err e) = []
index_of (ok db) = map (λ (r : IndexRow). r.id) db.search_index

with_index-rows :
    (env : Env) (f : File) (db : Db) (xs : List RecordRow) (rows : Result (List IndexRow))
    → reindex env xs ≡ rows
    → (with_index f rows).0 ≡ ok db
    → map (λ (r : IndexRow). r.id) db.search_index ≡ map (λ (r : RecordRow). r.id) xs
unfolding index_of
with_index-rows env f db xs (err e) h k = absurd (cc)
with_index-rows env f db xs (ok rows) h k = sym (ap index_of k) ∙ reindex-rows env xs rows h

supported :
    (b : Bool) (e : Error) (f : File) (x : Result Db × File) (db : Db)
    → (if b then (err e, f) else x).0 ≡ ok db
    → x.0 ≡ ok db
supported true e f x db h = absurd (cc)
supported false e f x db h = h

-- An opening that finds the index of an older version writes it anew: it then has a row for each record
-- that is active or contested, in their order, and no other.
pub open_indexes :
    (env : Env) (draws : ℕ) (f : File) (db : Db)
    → is_indexed f.search_index_version ≡ false
    → (open_file env draws f).0 ≡ ok db
    → map (λ (r : IndexRow). r.id) db.search_index
      ≡ map (λ (r : RecordRow). r.id) (current_rows f.tables.records)
unfolding open_file
open_indexes env draws f db old h =
    with_index-rows env (prepare env draws f) db (current_rows f.tables.records) _ refl (
      sym
        (ap (λ (x : Result Db × File). x.0) (if_false (is_indexed f.search_index_version) _ _ old))
      ∙ supported (not (is_supported f.user_version)) unsupported_database_version f _ db h)
