-- ===== src/Tests/Calls.antt =====
-- The calls of the store on concrete requests.
use tekes_memory.Prelude.{
  ◌⊎◌, ◌++◌, length, All, ℕ, true, ◌≡◌, refl, pos, Bool, true, false, String, List, [], ◌∷◌, Option,
  none, some,
}
use tekes_memory.Json.{Value, str, obj, field, end, cons, nil}
use tekes_memory.Common.{
  Result, ok, err, source_unavailable, idempotency_conflict, storage_error, invalid_argument,
}
use tekes_memory.Store.Exec.{Settings, State}
use tekes_memory.Store.Write.{save}
use tekes_memory.Store.Call.{call_with_effect, reconcile_effect, confirmed, request_digest}
use tekes_memory.Common.Authorize.{authorize}
use tekes_memory.Store.Admit.{admit}
use tekes_memory.Store.History.{Request, run, no_revival}
use tekes_memory.Store.Atomic.{write_atomic, read_only}
use tekes_memory.Store.Lineage.{clear_lineage_dependents}
use tekes_memory.Store.Erase.{erase}
use tekes_memory.Store.Words.{has}
use tekes_memory.Store.Words.Prefix.{distinct}
use tekes_memory.Store.Erase.Termination.{record_ids, erase-ends}
use tekes_memory.Store.Invalidation.{cleared_forever}
use tekes_memory.Store.Answers.{call_again, call_conflict}
use tekes_memory.Store.Keyed.{has_receipt}
use tekes_memory.Store.Effects.{effect_confirmed, effect_again}
use tekes_memory.Store.Maintain.{maintain_round, maintain}
use tekes_memory.Store.Maintain.Atomic.{maintain_atomic}
use tekes_memory.Tests.Fixture.{
  env, settings, start, forgotten, args, other_args, principal, source, scope, print, answer,
}

abbrev history : List Request
history =
    Request.call settings principal "memory.save" other_args none
    ∷ Request.maintenance settings
    ∷ []

abbrev after : State
after = (call_with_effect settings principal "memory.save" args none start).1

abbrev effect_key : String
effect_key = "0123456789abcdef0123456789abcdef0123456789abcdef0123456789abcdef"

abbrev after_effect : State
after_effect = (call_with_effect settings principal "memory.save" args (some effect_key) start).1

-- The commit is refused.
abbrev broken : Settings
broken = record settings { commit_fails = true }

abbrev after_broken : State
after_broken = (call_with_effect broken principal "memory.save" args none start).1

abbrev after_round : State
after_round = (maintain broken after).1

-- The runs of the code that the examples below start from.
abbrev Runs : Type 0
Runs =
    (call_with_effect settings principal "memory.save" args none start ≡ (ok answer, after))
    × (admit env principal "memory.save" other_args (some effect_key) ≡ ok tt)
    × (call_with_effect settings principal "memory.save" args (some effect_key) start
        ≡ (ok answer, after_effect))
    × (call_with_effect broken principal "memory.save" args none start
        ≡ (err storage_error, after_broken))
    × (maintain broken after ≡ (err storage_error, after_round))
    × (authorize principal scope ≡ ok tt)
    × (has_receipt "alice" (request_digest env "memory.save" other_args) (some effect_key)
          (run history after).db
        ≡ false)

runs : Runs
unfolding tekes_memory.Json.json_eq tekes_memory.Json.to_list tekes_memory.Store.Admit.all_hex
    tekes_memory.Store.Admit.valid_effect_key tekes_memory.Store.Admit.may_call
    tekes_memory.Store.Admit.admit tekes_memory.Store.Call.replay_result
    tekes_memory.Store.Call.write_tool tekes_memory.Store.Call.add_operation
    tekes_memory.Store.Call.stamp tekes_memory.Store.Call.store_answer
    tekes_memory.Store.Call.perform tekes_memory.Store.Call.operate_on
    tekes_memory.Store.Call.operate tekes_memory.Store.Call.add_receipt
    tekes_memory.Store.Call.receipt_or tekes_memory.Store.Call.with_receipt
    tekes_memory.Store.Call.request_digest tekes_memory.Store.Call.write_body
    tekes_memory.Store.Call.call_with_effect tekes_memory.Store.Exec.pure
    tekes_memory.Store.Exec.fail tekes_memory.Store.Exec.lift tekes_memory.Store.Exec.query
    tekes_memory.Store.Exec.execute tekes_memory.Store.Exec.draw tekes_memory.Store.Exec.◌>>=◌
    tekes_memory.Store.Exec.settle tekes_memory.Store.Exec.transaction
    tekes_memory.Store.Exec.for_each tekes_memory.Store.Exec.fold_each
    tekes_memory.Store.Facts.push_group tekes_memory.Store.Facts.in_conflict
    tekes_memory.Store.Facts.status_in tekes_memory.Store.Facts.settle_fact
    tekes_memory.Store.Facts.reconcile_keys tekes_memory.Store.Put.put
    tekes_memory.Store.Put.is_tombstoned tekes_memory.Store.Put.blocked
    tekes_memory.Store.Put.check_kind tekes_memory.Store.Put.status
    tekes_memory.Store.Rows.parse_docs tekes_memory.Store.Rows.fact_key
    tekes_memory.Store.Rows.valid_from tekes_memory.Store.Rows.valid_to
    tekes_memory.Store.Rows.valid tekes_memory.Store.Rows.index_words
    tekes_memory.Store.Tables.replace_row tekes_memory.Store.Tables.insert_or_ignore
    tekes_memory.Store.Tables.delete_where tekes_memory.Store.Words.bigrams
    tekes_memory.Store.Words.tokens_of tekes_memory.Store.Words.collect
    tekes_memory.Store.Words.words_limited tekes_memory.Store.Words.words
    tekes_memory.Store.Words.join tekes_memory.Store.Write.expires_at
    tekes_memory.Store.Write.copy_field tekes_memory.Store.Write.new_record
    tekes_memory.Store.Write.save tekes_memory.Json.Access.get_field tekes_memory.Json.Access.get
    tekes_memory.Json.Access.index tekes_memory.Json.Access.as_str tekes_memory.Json.Access.as_i64
    tekes_memory.Json.Access.as_bool tekes_memory.Json.Access.as_array
    tekes_memory.Json.Access.as_object tekes_memory.Json.Access.is_text
    tekes_memory.Json.Access.is_true tekes_memory.Json.Edit.insert_field
    tekes_memory.Json.Edit.remove_field tekes_memory.Json.Edit.set_key
    tekes_memory.Json.Edit.remove_key tekes_memory.Json.Edit.fields_of tekes_memory.Json.Edit.object
    tekes_memory.Prelude.Int.ℤ_discrete tekes_memory.Prelude.Int.◌+ℤ◌ tekes_memory.Prelude.Int.◌*ℤ◌
    tekes_memory.Prelude.Lists.any tekes_memory.Prelude.Lists.select
    tekes_memory.Prelude.Lists.find_first tekes_memory.Common.Access.text
    tekes_memory.Common.Access.array tekes_memory.Common.Authorize.set_insert
    tekes_memory.Common.Authorize.same_set tekes_memory.Common.Authorize.keys_of
    tekes_memory.Common.Authorize.scope_keys tekes_memory.Common.Authorize.covers
    tekes_memory.Common.Authorize.authorize tekes_memory.Common.Envelope.tool_result
    tekes_memory.Common.Envelope.ensure_tool_result_readable
    tekes_memory.Common.Envelope.ensure_record_readable
    tekes_memory.Common.Envelope.supported_rpc_id tekes_memory.Common.Schema.type_of
    tekes_memory.Common.Schema.has_type tekes_memory.Common.Schema.in_enum
    tekes_memory.Common.Schema.check_const tekes_memory.Common.Schema.check_required
    tekes_memory.Common.Schema.in_bounds tekes_memory.Common.Schema.int_in_bounds
    tekes_memory.Common.Schema.check_pattern tekes_memory.Common.Schema.check_head
    tekes_memory.Common.Schema.check_text tekes_memory.Common.Schema.check_int
    tekes_memory.Common.Schema.check_size tekes_memory.Common.Schema.validate
    tekes_memory.Common.Scrub.apply_rules tekes_memory.Common.Scrub.scrub
    tekes_memory.Store.Derived.scrub_write_args tekes_memory.Store.Maintain.bump print maintain
    tekes_memory.Store.Maintain.expire_and_choose tekes_memory.Store.Maintain.maintain_end
    tekes_memory.Store.Maintain.maintain_round tekes_memory.Store.Maintain.checkpoint
    tekes_memory.Store.Maintain.bump_if tekes_memory.Store.Maintain.first_task
    tekes_memory.Store.Maintain.due_tasks tekes_memory.Store.History.step
    tekes_memory.Store.History.run
runs = (refl, refl, refl, refl, refl, refl, refl)

no_revival_example :
    save settings args (run history forgotten) ≡ (err source_unavailable, run history forgotten)
unfolding tekes_memory.Store.Put.is_tombstoned print tekes_memory.Json.Access.index
    tekes_memory.Common.Access.array tekes_memory.Json.Access.as_str
no_revival_example =
    no_revival (print scope) "k1" forgotten history settings args (source ∷ []) refl refl refl refl

again_example :
    call_with_effect settings principal "memory.save" args none (run history after)
    ≡ (ok answer, run history after)
unfolding print
again_example =
    call_again settings principal "memory.save" args answer start after history (pos 5) refl runs.0
      refl

conflict_example :
    call_with_effect settings principal "memory.save" other_args
      (some effect_key)
      (run history after)
    ≡ (err idempotency_conflict, run history after)
unfolding print request_digest tekes_memory.Json.Access.index tekes_memory.Common.Access.text
    tekes_memory.Json.Edit.object
conflict_example =
    call_conflict settings principal "alice" "memory.save" "memory.save" args other_args answer none
      (some effect_key) start after history (pos 5) refl refl refl refl runs.0 refl runs.1 refl refl
      refl runs.6

confirmed_example :
    reconcile_effect settings principal effect_key (run history after_effect)
    ≡ (ok (confirmed env answer), run history after_effect)
unfolding print tekes_memory.Prelude.Lists.find_first tekes_memory.Json.Access.index
    tekes_memory.Common.Access.text
confirmed_example =
    effect_confirmed settings principal principal "memory.save" effect_key "alice" args answer start
      after_effect history refl refl refl runs.2 refl runs.5 refl refl

effect_again_example :
    call_with_effect settings principal "memory.save" args
      (some effect_key)
      (run history after_effect)
    ≡ (ok answer, run history after_effect)
unfolding print tekes_memory.Prelude.Lists.find_first tekes_memory.Json.Access.index
    tekes_memory.Common.Access.text
effect_again_example =
    effect_again settings principal "memory.save" effect_key "alice" args answer start after_effect
      history (pos 5) refl refl refl runs.2 refl

atomic_example : after_broken.db ≡ start.db
atomic_example =
    write_atomic broken principal "memory.save" args none start after_broken storage_error refl
      runs.3

maintain_example :
    (after_round.db ≡ after.db)
    ⊎ ((storage_error ≡ storage_error)
        × (broken.checkpoint_fails ≡ true)
        × (job : Bool) × (maintain_round broken after ≡ (ok job, after_round)))
maintain_example = maintain_atomic broken after after_round storage_error runs.4

read_only_example :
    (call_with_effect settings principal "memory.status" args none after).1.db ≡ after.db
read_only_example = read_only settings principal "memory.status" args none after refl

-- The source of the saved record is cleared.
abbrev after_clear : State
after_clear = (clear_lineage_dependents settings (print scope) "k1" true after).1

cleared_example :
    save settings args (run history after_clear) ≡ (err source_unavailable, run history after_clear)
unfolding print tekes_memory.Json.Access.index tekes_memory.Common.Access.array
    tekes_memory.Json.Access.as_str tekes_memory.Prelude.Lists.any
cleared_example =
    cleared_forever settings (print scope) "k1" after history settings args (source ∷ []) refl refl
      refl

erase_example :
    let r = (erase settings (print scope) ("1" ∷ []) true after).0 in
    ((met : List String) × (r ≡ ok (length met))
      × (distinct met ≡ true)
      × All (λ k. has k met ≡ true) ("1" ∷ [])
      × All (λ k. has k (("1" ∷ []) ++ record_ids after.db.dependencies) ≡ true) met)
    ⊎ (r ≡ err invalid_argument)
erase_example = erase-ends settings (print scope) ("1" ∷ []) true after
