-- ===== src/Tests/Parts.antt =====
-- The parts of the store and of src/common.rs on concrete inputs.
use Prim.Native.String.{◌++◌ as append, len, count}
use text.Mathlib.TextPositions.{len-append}
use tekes_memory.Prelude.{
  ◌≡◌, ◌↔◌, map, any, refl, ap, ◌∙◌, ℕ, zero, suc, ◌+◌, ◌≤◌, ◌<◌, pos, negsuc, Bool, true, false,
  String, List, [], ◌∷◌, ◌++◌, Option, none, some, ◌==◌, arith, inl, inr, ◌⊎◌, Bool-cases,
  if◌then◌else◌,
}
use tekes_memory.Json.{
  Value, Items, null, bool, int, float, str, arr, obj, nil, cons, end, field, of_list,
}
use tekes_memory.Common.Authorize.{authorize}
use tekes_memory.Common.Authorize.Grants.{Granted, authorize-Granted}
use tekes_memory.Common.Strict.{strict}
use tekes_memory.Common.Strict.Unique.{unique, strict-unique}
use tekes_memory.Json.Access.{index, as_str}
use tekes_memory.Common.{Env, is_ok, ok, err, invalid_argument, storage_error}
use tekes_memory.Common.Scrub.{scrub, apply_rules}
use tekes_memory.Common.Scrub.Masked.{masked, scrub-masked}
use tekes_memory.Store.Words.{words, query_words}
use tekes_memory.Store.Words.Prefix.{take, distinct, query_words-prefix, words-distinct}
use tekes_memory.Store.Cursor.{check_secret, cursor_body, make_cursor, read_cursor}
use tekes_memory.Store.Cursor.Signed.{read_cursor-make_cursor}
use tekes_memory.Store.Exec.{Settings, State}
use tekes_memory.Store.Hit.{search_hit, excerpt, passage_of}
use tekes_memory.Store.Hit.Fits.{search_hit-fits}
use tekes_memory.Store.Hit.Largest.{Largest, DownClosed, excerpt_fits, search_hit-Largest}
use tekes_memory.Store.Page.{Page, Budget, empty_page, size_of, reference, fill_page}
use tekes_memory.Store.Page.Bytes.{Compact, page_size, fill_page-fits}
use tekes_memory.Store.Open.{File, open_file, opened_db, current_rows}
use tekes_memory.Store.Open.Again.{open_again, open_indexes}
use tekes_memory.Store.Tables.{Db, empty_db, IndexRow, RecordRow}
use tekes_memory.Tests.Fixture.{
  principal, scope, env, settings, start, answer, print, print_items, print_fields, number,
}

words_example : query_words env "tea" ≡ take 256 (words env "tea")
words_example = query_words-prefix env "tea"

distinct_example : distinct (words env "tea") ≡ true
distinct_example = words-distinct env "tea"

abbrev letter : Value
letter = obj (
    field "password" (str "x") (
      field "items" (arr (cons (obj (field "password" null (field "text" (str "token") end))) nil))
        end))

secret_test : check_secret "0a+F" ≡ ok tt
unfolding check_secret
secret_test = refl

no_secret_test : check_secret "0ag0" ≡ err storage_error
unfolding check_secret
no_secret_test = refl

masked_example : masked env (scrub env letter) ≡ true
masked_example = scrub-masked env letter

-- An environment for cursors: the canonical form of any value is the content of one cursor.
abbrev cursor_env : Env
cursor_env = record env { canonical = λ v. "q7"; parse_tree = λ s. some (cursor_body "q" "g" 7) }

cursor_example : read_cursor cursor_env "s" "q" "g" "q7.sq7" ≡ ok 7
unfolding make_cursor tekes_memory.Store.Cursor.Signed.no_dot
cursor_example =
    read_cursor-make_cursor cursor_env "s" "q" "g" "q7" "q7.sq7" 7 refl refl refl refl refl
      (omega arith) refl

abbrev note : Value
note = obj (
    field "content" (str "tea")
      (field "kind" (str "preference") (field "status" (str "active") end)))

fits_example : len (print note) ≤ 100
unfolding print search_hit tekes_memory.Json.Access.index tekes_memory.Json.Access.as_str
fits_example = search_hit-fits env note note "tea" 100 refl

print_items-size :
    (vs : List Value) (r : Value)
    → len (print_items (of_list (vs ++ r ∷ [])))
      ≡ len (print_items (of_list vs)) + 1 + len (print r)
unfolding print of_list
print_items-size [] r = omega (arith, len-append (print r) ",]")
print_items-size (v ∷ vs) r = omega (
  arith,
  len-append (print v) (append "," (print_items (of_list (vs ++ r ∷ [])))),
  len-append "," (print_items (of_list (vs ++ r ∷ []))),
  len-append (print v) (append "," (print_items (of_list vs))),
  len-append "," (print_items (of_list vs)),
  print_items-size vs r,
)

print-not_empty : (v : Value) → 0 < len (print v)
unfolding print
print-not_empty null = omega arith
print-not_empty (bool true) = omega arith
print-not_empty (bool false) = omega arith
print-not_empty (int (pos n)) = omega (arith, len-append "+" (number n))
print-not_empty (int (negsuc n)) = omega (arith, len-append "-" (number n))
print-not_empty (float n) = omega (arith, len-append "f" (number n))
print-not_empty (str s) = omega (arith, len-append "'" (append s "'"))
print-not_empty (arr vs) = omega (arith, len-append "[" (print_items vs))
print-not_empty (obj fs) = omega (arith, len-append "{" (print_fields fs))

-- The length of the form of a page, which is not computed, from the lengths of its lists.
len-tail :
    (items : String)
    → len (append "," (append "items" (append ":" (append (append "[" items) ",}"))))
      ≡ len items + 10
len-tail items = omega (
  arith,
  len-append "," (append "items" (append ":" (append (append "[" items) ",}"))),
  len-append "items" (append ":" (append (append "[" items) ",}")),
  len-append ":" (append (append "[" items) ",}"),
  len-append (append "[" items) ",}",
  len-append "[" items,
)

len-page :
    (conflicts rest : String)
    → len (append "{" (append "conflicts" (append ":" (append (append "[" conflicts) rest))))
      ≡ len rest + len conflicts + 12
len-page conflicts rest = omega (
  arith,
  len-append "{" (append "conflicts" (append ":" (append (append "[" conflicts) rest))),
  len-append "conflicts" (append ":" (append (append "[" conflicts) rest)),
  len-append ":" (append (append "[" conflicts) rest),
  len-append (append "[" conflicts) rest,
  len-append "[" conflicts,
)

size_of-page_text :
    (items conflicts : List Value)
    → size_of env items conflicts
      ≡ len (print_items (of_list items)) + len (print_items (of_list conflicts)) + 22
unfolding size_of print
size_of-page_text items conflicts =
    len-page (print_items (of_list conflicts)) _
    ∙ ap (λ n. n + len (print_items (of_list conflicts)) + 12)
        (len-tail (print_items (of_list items)))
    ∙ omega arith

compact : Compact env
compact = record {
  not_empty = print-not_empty;
  one_item = λ items conflicts r. omega (
    arith,
    size_of-page_text items conflicts,
    size_of-page_text (items ++ r ∷ []) conflicts,
    print_items-size items r,
  );
  one_conflict = λ items conflicts r. omega (
    arith,
    size_of-page_text items conflicts,
    size_of-page_text items (conflicts ++ r ∷ []),
    print_items-size conflicts r,
  );
}

abbrev budget : Budget
budget = record { query = "tea"; cap = 100; max_items = 5 }

abbrev full : Page
full = record empty_page { items = note ∷ []; consumed = 1 }

filled : fill_page settings budget (note ∷ []) empty_page start ≡ (ok full, start)
unfolding tekes_memory.Json.json_eq tekes_memory.Json.to_list tekes_memory.Store.Admit.all_hex
    tekes_memory.Store.Admit.valid_effect_key tekes_memory.Store.Admit.may_call
    tekes_memory.Store.Admit.admit tekes_memory.Store.Call.replay_result
    tekes_memory.Store.Call.write_tool tekes_memory.Store.Call.add_operation
    tekes_memory.Store.Call.stamp tekes_memory.Store.Call.store_answer
    tekes_memory.Store.Call.perform tekes_memory.Store.Call.operate_on
    tekes_memory.Store.Call.operate tekes_memory.Store.Call.add_receipt
    tekes_memory.Store.Call.receipt_or tekes_memory.Store.Call.with_receipt
    tekes_memory.Store.Call.request_digest tekes_memory.Store.Call.write_body
    tekes_memory.Store.Call.call_with_effect tekes_memory.Store.Exec.pure
    tekes_memory.Store.Exec.fail tekes_memory.Store.Exec.lift tekes_memory.Store.Exec.query
    tekes_memory.Store.Exec.execute tekes_memory.Store.Exec.draw tekes_memory.Store.Exec.◌>>=◌
    tekes_memory.Store.Exec.settle tekes_memory.Store.Exec.transaction
    tekes_memory.Store.Exec.for_each tekes_memory.Store.Exec.fold_each
    tekes_memory.Store.Facts.push_group tekes_memory.Store.Facts.in_conflict
    tekes_memory.Store.Facts.status_in tekes_memory.Store.Facts.settle_fact
    tekes_memory.Store.Facts.reconcile_keys tekes_memory.Store.Put.put
    tekes_memory.Store.Put.is_tombstoned tekes_memory.Store.Put.blocked
    tekes_memory.Store.Put.check_kind tekes_memory.Store.Put.status
    tekes_memory.Store.Rows.parse_docs tekes_memory.Store.Rows.fact_key
    tekes_memory.Store.Rows.valid_from tekes_memory.Store.Rows.valid_to
    tekes_memory.Store.Rows.valid tekes_memory.Store.Rows.index_words
    tekes_memory.Store.Tables.replace_row tekes_memory.Store.Tables.insert_or_ignore
    tekes_memory.Store.Tables.delete_where tekes_memory.Store.Words.bigrams
    tekes_memory.Store.Words.tokens_of tekes_memory.Store.Words.collect
    tekes_memory.Store.Words.words_limited tekes_memory.Store.Words.words
    tekes_memory.Store.Words.join tekes_memory.Store.Write.expires_at
    tekes_memory.Store.Write.copy_field tekes_memory.Store.Write.new_record
    tekes_memory.Store.Write.save tekes_memory.Json.Access.get_field tekes_memory.Json.Access.get
    tekes_memory.Json.Access.index tekes_memory.Json.Access.as_str tekes_memory.Json.Access.as_i64
    tekes_memory.Json.Access.as_bool tekes_memory.Json.Access.as_array
    tekes_memory.Json.Access.as_object tekes_memory.Json.Access.is_text
    tekes_memory.Json.Access.is_true tekes_memory.Json.Edit.insert_field
    tekes_memory.Json.Edit.remove_field tekes_memory.Json.Edit.set_key
    tekes_memory.Json.Edit.remove_key tekes_memory.Json.Edit.fields_of tekes_memory.Json.Edit.object
    tekes_memory.Prelude.Int.ℤ_discrete tekes_memory.Prelude.Int.◌+ℤ◌ tekes_memory.Prelude.Int.◌*ℤ◌
    tekes_memory.Prelude.Lists.any tekes_memory.Prelude.Lists.select
    tekes_memory.Prelude.Lists.find_first tekes_memory.Common.Access.text
    tekes_memory.Common.Access.array tekes_memory.Common.Authorize.set_insert
    tekes_memory.Common.Authorize.same_set tekes_memory.Common.Authorize.keys_of
    tekes_memory.Common.Authorize.scope_keys tekes_memory.Common.Authorize.covers
    tekes_memory.Common.Authorize.authorize tekes_memory.Common.Envelope.tool_result
    tekes_memory.Common.Envelope.ensure_tool_result_readable
    tekes_memory.Common.Envelope.ensure_record_readable
    tekes_memory.Common.Envelope.supported_rpc_id tekes_memory.Common.Schema.type_of
    tekes_memory.Common.Schema.has_type tekes_memory.Common.Schema.in_enum
    tekes_memory.Common.Schema.check_const tekes_memory.Common.Schema.check_required
    tekes_memory.Common.Schema.in_bounds tekes_memory.Common.Schema.int_in_bounds
    tekes_memory.Common.Schema.check_pattern tekes_memory.Common.Schema.check_head
    tekes_memory.Common.Schema.check_text tekes_memory.Common.Schema.check_int
    tekes_memory.Common.Schema.check_size tekes_memory.Common.Schema.validate
    tekes_memory.Common.Scrub.apply_rules tekes_memory.Common.Scrub.scrub
    tekes_memory.Store.Derived.scrub_write_args tekes_memory.Store.Maintain.bump print fill_page
    tekes_memory.Store.Page.place tekes_memory.Store.Page.add_hit size_of search_hit
    tekes_memory.Store.Rows.current_status
filled = refl

page_example : page_size env full ≤ 100
unfolding size_of print
page_example =
    fill_page-fits settings budget (note ∷ []) empty_page full start start compact
      (omega (arith, size_of-page_text [] [])) filled

abbrev text_or : Option String → String
text_or none = ""
text_or (some t) = t

-- An environment that counts the content alone.
abbrev content_env : Env
content_env = record env { canonical = λ v. text_or (as_str (index v "content")) }

down_two : DownClosed (excerpt_fits content_env 2 note "tea" (passage_of content_env "tea" "e"))
unfolding excerpt passage_of words index as_str any
down_two zero j le t = refl
down_two (suc zero) j le t = refl
down_two (suc (suc zero)) j le t = refl
down_two (suc (suc (suc i))) zero le t = absurd (omega arith)
down_two (suc (suc (suc i))) (suc zero) le t = absurd (omega arith)
down_two (suc (suc (suc i))) (suc (suc zero)) le t = absurd (omega arith)
down_two (suc (suc (suc i))) (suc (suc (suc j))) le t = t

excerpt_example :
    ((m : ℕ)
        → 0 ≤ m
        → m ≤ count (passage_of content_env "tea" "e")
        → excerpt_fits content_env 2 note "tea" (passage_of content_env "tea" "e") m ≡ false)
      × (search_hit content_env note "e" 2 ≡ none)
    ⊎ ((n : ℕ) × Largest
          (excerpt_fits content_env 2 note "tea" (passage_of content_env "tea" "e"))
          0
          (count (passage_of content_env "tea" "e"))
          n
        × (search_hit content_env note "e" 2
            ≡ some (excerpt note "tea" (passage_of content_env "tea" "e") n)))
unfolding index as_str
excerpt_example = search_hit-Largest content_env note "e" "tea" 2 refl refl down_two

-- A text with the key `a` twice.
abbrev twice : Value
twice = obj (field "a" null (field "a" null end))

unique_example : is_ok (strict twice) ≡ unique twice
unique_example = strict-unique twice

authorize_example : (authorize principal scope ≡ ok tt) ↔ Granted principal scope
authorize_example = authorize-Granted principal scope

-- A file that an older version has left.
abbrev old_file : File
old_file = record {
  user_version = pos 1;
  tables = empty_db "";
  cursor_secret = none;
  generation = some 4;
  search_index_version = none;
}

abbrev reopened : File
reopened = (open_file env 0 old_file).1

again_file_example : open_file env 7 reopened ≡ (ok (opened_db reopened), reopened)
unfolding open_file
again_file_example = open_again env 0 7 old_file (opened_db reopened) refl

abbrev row : String → String → String → RecordRow
row id status doc = record {
  id = id;
  revision = pos 1;
  scope = print scope;
  kind = "fact";
  status = status;
  expires = none;
  doc = doc;
  fact_key = none;
}

-- The same with three records, of which one is deleted.
abbrev full_file : File
full_file = record old_file {
  tables = record (empty_db "") {
    records =
        row "1" "active" (print answer)
        ∷ row "2" "deleted" "{}"
        ∷ row "3" "contested" (print answer)
        ∷ [];
  };
}

abbrev indexed_db : Db
indexed_db = opened_db (open_file env 0 full_file).1

indexes_example :
    map (λ (r : IndexRow). r.id) indexed_db.search_index
    ≡ map (λ (r : RecordRow). r.id) (current_rows full_file.tables.records)
unfolding open_file tekes_memory.Store.Open.reindex print print_items print_fields
    tekes_memory.Store.Rows.index_words index as_str
indexes_example = open_indexes env 0 full_file indexed_db refl refl
