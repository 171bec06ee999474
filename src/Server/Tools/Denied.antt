-- ===== src/Server/Tools/Denied.antt =====
-- The tools that src/config.rs lists, and those that src/server.rs and src/store.rs run.
use tekes_memory.Prelude.{
  ◌≡◌, refl, sym, subst, ap, ◌∙◌, String, List, Option, ◌==◌, eq_iff, Bool, true, false, not, ◌&&◌,
  ◌||◌, any, Bool-cases, inl, inr, if_true, if_false, arith,
}
use package.text.Mathlib.Text.{starts_with}
use tekes_memory.Json.{Value, Fields, str, json_eq}
use tekes_memory.Json.Access.{index, is_text}
use tekes_memory.Common.{Env, Result, ok, err, scope_denied, fail_if}
use tekes_memory.Common.Access.{array}
use tekes_memory.Store.Exec.{Settings, State, lift}
use tekes_memory.Store.Admit.{bad_key, may_call, admit}
use tekes_memory.Store.Call.{call_with_effect}
use tekes_memory.Store.Inversion.{bind_of_err}
use tekes_memory.Config.Tools.{is_listed, has_write, permitted}
use tekes_memory.Config.Service.Sound.{array-index}
use tekes_memory.Server.Tools.{
  call_tool, run_tool, reconcile_tool, is_known, arguments_or_empty, tool_error, tool, reply_of,
}

same_test : (a b c : Bool) → (a && (not b || c)) ≡ (a && not (b && not c))
same_test a b c = ground arith

and_true : (b : Bool) → (b && true) ≡ b
and_true b = ground arith

-- Over the tools of the store, the listing is what the store permits.
listed-may_call :
    (p : Value) (name : String) (tools : List Value)
    → starts_with name "memory." ≡ true
    → (name == "memory.reconcile_effect") ≡ false
    → array p "tools" ≡ ok tools
    → is_listed p name ≡ may_call name p tools
unfolding is_listed may_call permitted
listed-may_call p name tools m other h =
    rw (m, other, array-index p "tools" tools h)
      (same_test (any (λ t. json_eq t (str name)) tools) (name == "memory.observe")
        (is_text (index p "role") "adapter"))

admit-denied :
    (env : Env) (p : Value) (name : String) (a : Value) (tools : List Value) (k : Option String)
    → bad_key k ≡ false
    → array p "tools" ≡ ok tools
    → may_call name p tools ≡ false
    → admit env p name a k ≡ err scope_denied
unfolding admit
admit-denied env p name a tools k form h denied = rw (form, h, denied) refl

lift-denied :
    (r : Result (Unit {0})) (s : State) → r ≡ err scope_denied → lift r s ≡ (err scope_denied, s)
unfolding lift
lift-denied r s h = rw h refl

call-denied :
    (st : Settings) (p : Value) (name : String) (a : Value) (tools : List Value) (k : Option String)
    (s : State)
    → bad_key k ≡ false
    → array p "tools" ≡ ok tools
    → may_call name p tools ≡ false
    → call_with_effect st p name a k s ≡ (err scope_denied, s)
unfolding call_with_effect
call-denied st p name a tools k s form h denied =
    bind_of_err (lift (admit st.env p name a k)) _ s s scope_denied
      (lift-denied (admit st.env p name a k) s (admit-denied st.env p name a tools k form h denied))

reconcile-denied :
    (st : Settings) (p args : Value) (s : State)
    → has_write p ≡ false
    → reconcile_tool st p args s ≡ (err scope_denied, s)
unfolding reconcile_tool
reconcile-denied st p args s denied =
    bind_of_err (lift (fail_if (not (has_write p)) scope_denied)) _ s s scope_denied
      (lift-denied (fail_if (not (has_write p)) scope_denied) s (rw denied refl))

listed-reconcile :
    (p : Value) (name : String)
    → (name == "memory.reconcile_effect") ≡ true
    → is_listed p name ≡ has_write p
unfolding is_listed
listed-reconcile p name r =
    subst (λ n. is_listed p n ≡ has_write p) (sym ((eq_iff name "memory.reconcile_effect").0 r))
      (and_true (has_write p))

run_tool-denied :
    (st : Settings) (p : Value) (name : String) (tools : List Value) (s : State) (args : Value)
    (k : Option String)
    → bad_key k ≡ false
    → starts_with name "memory." ≡ true
    → is_listed p name ≡ false
    → array p "tools" ≡ ok tools
    → run_tool st p name args k s ≡ (err scope_denied, s)
unfolding run_tool
run_tool-denied st p name tools s args k form m unlisted h =
    elim (Bool-cases (name == "memory.reconcile_effect")) [
      | inl r ↦
          ap (λ (f : State → Result Value × State). f s)
            (if_true (name == "memory.reconcile_effect") _ _ r)
          ∙ reconcile-denied st p args s (sym (listed-reconcile p name r) ∙ unlisted)
      | inr o ↦
          ap (λ (f : State → Result Value × State). f s)
            (if_false (name == "memory.reconcile_effect") _ _ o)
          ∙ call-denied st p name args tools k s form h
              (sym (listed-may_call p name tools m o h) ∙ unlisted)
    ]

known_prefix :
    (env : Env) (name : String) → is_known env name ≡ true → starts_with name "memory." ≡ true
known_prefix env name h = ground arith

-- A known tool that is not listed to a principal, whose tools are an array, is denied to it: a call
-- answers `scope_denied`, whatever its arguments, and changes nothing, if it has no effect key or one of
-- the right form.
pub unlisted-denied :
    (st : Settings) (p : Value) (name : String) (tools : List Value) (args : Option Fields)
    (k : Option String) (s : State)
    → bad_key k ≡ false
    → is_known st.env name ≡ true
    → array p "tools" ≡ ok tools
    → is_listed p name ≡ false
    → call_tool st p name args k s ≡ (tool (tool_error "scope_denied"), s)
unfolding call_tool
unlisted-denied st p name tools args k s form known h unlisted =
    if_true _ _ _ known
    ∙ ap (reply_of st.env) (
        run_tool-denied st p name tools s (arguments_or_empty args) k form
          (known_prefix st.env name known) unlisted h)
