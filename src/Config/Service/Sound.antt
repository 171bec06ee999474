-- ===== src/Config/Service/Sound.antt =====
-- What a configuration satisfies that `service_config` of src/config.rs accepts.
use tekes_memory.Prelude.{
  All, ◌≡◌, sym, subst, if_true, ◌∙◌, ◌≤◌, String, List, [], ◌∷◌, Option, none, some, ◌==◌, eq_iff,
  Bool, true, false, not, ◌||◌, any, select, length, arith, Bool-cases, inl, inr, if◌then◌else◌,
}
use tekes_memory.Json.{Value, null, bool, int, float, str, arr, obj, json_eq}
use tekes_memory.Json.Access.{index, get, as_str, as_array, is_text, or_null}
use tekes_memory.Common.{
  Env, Result, ok, ok_or, fail_if, invalid_config, invalid_argument, ok_then, not_failed,
  ok-injective,
}
use tekes_memory.Common.Access.{text, array, and_then}
use tekes_memory.Common.Authorize.{authorize}
use tekes_memory.Store.Words.{has}
use tekes_memory.Config.Service.{
  check_distinct, check_role, check_scopes, check_principals, service_config, Url, schema,
  is_absolute, check_origins,
}
use tekes_memory.Common.Schema.{validate}

abbrev pub has_field : String → String → Value → Bool
has_field f t p = is_text (index p f) t

read_text :
    (o : Option Value) (t : String)
    → ok_or (and_then o as_str) invalid_argument ≡ ok t
    → or_null o ≡ str t
unfolding as_str
read_text none t h = absurd (cc)
read_text (some (str x)) t h = cc
read_text (some null) t h = absurd (cc)
read_text (some (bool x)) t h = absurd (cc)
read_text (some (int x)) t h = absurd (cc)
read_text (some (float x)) t h = absurd (cc)
read_text (some (arr x)) t h = absurd (cc)
read_text (some (obj x)) t h = absurd (cc)

-- `text` and indexing read the same field.
text-index : (p : Value) (f t : String) → text p f ≡ ok t → index p f ≡ str t
unfolding text index
text-index p f t h = read_text (get f p) t h

read_array :
    (o : Option Value) (vs : List Value)
    → ok_or (and_then o as_array) invalid_argument ≡ ok vs
    → as_array (or_null o) ≡ some vs
unfolding as_array
read_array none t h = absurd (cc)
read_array (some (arr x)) t h = cc
read_array (some null) t h = absurd (cc)
read_array (some (bool x)) t h = absurd (cc)
read_array (some (int x)) t h = absurd (cc)
read_array (some (float x)) t h = absurd (cc)
read_array (some (str x)) t h = absurd (cc)
read_array (some (obj x)) t h = absurd (cc)

pub array-index :
    (p : Value) (f : String) (vs : List Value) → array p f ≡ ok vs → as_array (index p f) ≡ some vs
unfolding array index
array-index p f vs h = read_array (get f p) vs h

select_step :
    (f : String) (p : Value) (ps : List Value) (seen : List String) (t h : String)
    → index p f ≡ str t
    → has t seen ≡ false
    → length (select (has_field f h) ps) ≤ (if (t == h) || has h seen then 0 else 1)
    → length (select (has_field f h) (p ∷ ps)) ≤ (if has h seen then 0 else 1)
unfolding select is_text
select_step f p ps seen t h e new bound = elim (Bool-cases (t == h)) [
  | inl same ↦
      let fresh = subst (λ x. has x seen ≡ false) ((eq_iff t h).0 same) new in
      rw (e, same, fresh) (omega (arith, rw (same) at bound))
  | inr other ↦ rw (e, other) (rw other at bound)
]

check_distinct-select :
    (f : String) (ps : List Value) (seen : List String)
    → check_distinct f ps seen ≡ ok tt
    → (h : String) → length (select (has_field f h) ps) ≤ (if has h seen then 0 else 1)
unfolding check_distinct select
check_distinct-select f [] seen e h = omega arith
check_distinct-select f (p ∷ ps) seen e h =
    let (t, e1, e2) = ok_then (text p f) _ tt e in
    let (u, e3, e4) = ok_then (fail_if (has t seen) invalid_config) _ tt e2 in
    select_step f p ps seen t h (text-index p f t e1) (not_failed _ _ u e3)
      (check_distinct-select f ps (t ∷ seen) e4 h)

-- A model does not observe.
abbrev KeepsRole : Value → Type 0
KeepsRole p =
    is_text (index p "role") "model" ≡ true
    → (tools : List Value) × (array p "tools" ≡ ok tools)
      × (any (λ t. json_eq t (str "memory.observe")) tools ≡ false)

-- Each scope of the principal is one that it is authorized for.
abbrev KeepsScopes : Value → Type 0
KeepsScopes p =
    (scopes : List Value) × (array p "scopes" ≡ ok scopes) × All (λ s. authorize p s ≡ ok tt) scopes

check_scopes-All :
    (p : Value) (ss : List Value) → check_scopes p ss ≡ ok tt → All (λ s. authorize p s ≡ ok tt) ss
unfolding check_scopes
check_scopes-All p [] h = tt
check_scopes-All p (s ∷ ss) h =
    let (u, a, rest) = ok_then (authorize p s) _ tt h in (a, check_scopes-All p ss rest)

check_role-KeepsRole : (p : Value) → check_role p ≡ ok tt → KeepsRole p
unfolding check_role
check_role-KeepsRole p h model =
    let (tools, read, rest) = ok_then (array p "tools") _ tt (sym (if_true _ _ _ model) ∙ h) in
    (tools, read, not_failed _ _ tt rest)

check_principals-All :
    (ps : List Value) → check_principals ps ≡ ok tt → All (λ p. KeepsRole p × KeepsScopes p) ps
unfolding check_principals
check_principals-All [] h = tt
check_principals-All (p ∷ ps) h =
    let (u, role, h1) = ok_then (check_role p) _ tt h in
    let (scopes, read, h2) = ok_then (array p "scopes") _ tt h1 in
    let (v, checked, rest) = ok_then (check_scopes p scopes) _ tt h2 in
    (
      (check_role-KeepsRole p role, (scopes, read, check_scopes-All p scopes checked)),
      check_principals-All ps rest,
    )

-- What holds of the principals.
pub record Sound (c : Value) : Type 0 where
  pub principals : List Value
  pub read_principals : array c "principals" ≡ ok principals
  pub one_id : (id : String) → length (select (has_field "id" id) principals) ≤ 1
  pub one_token : (hash : String) → length (select (has_field "token_sha256" hash) principals) ≤ 1
  pub kept : All (λ p. KeepsRole p × KeepsScopes p) principals

-- A configuration that is accepted is the content of the file, its principals differ in their
-- identifiers and in their token hashes, each scope of a principal is one that `authorize` grants it,
-- and no model has `memory.observe` among its tools.
pub service_config-Sound :
    (env : Env) (parse_url : String → Option Url) (file : Result Value) (c : Value)
    → service_config env parse_url file ≡ ok c
    → (file ≡ ok c) × Sound c
unfolding service_config
service_config-Sound env parse_url file c h =
    let (d, read, h1) = ok_then file _ c h in
    let (s, e1, h2) = ok_then (schema env "service-config") _ c h1 in
    let (u1, e2, h3) = ok_then (validate env d s) _ c h2 in
    let (ps, e3, h4) = ok_then (array d "principals") _ c h3 in
    let (u2, e4, h5) = ok_then (check_distinct "id" ps []) _ c h4 in
    let (u3, e5, h6) = ok_then (check_distinct "token_sha256" ps []) _ c h5 in
    let (u4, e6, h7) = ok_then (check_principals ps) _ c h6 in
    let (t, e7, h8) = ok_then (text d "data_directory") _ c h7 in
    let (u5, e8, h9) = ok_then (fail_if (not (is_absolute t)) invalid_config) _ c h8 in
    let (os, e9, h10) = ok_then (array d "allowed_origins") _ c h9 in
    let (u6, e10, h11) = ok_then (check_origins parse_url os) _ c h10 in
    let same = ok-injective d c h11 in
    (
      read ∙ h11,
      subst Sound same (record {
        principals = ps;
        read_principals = e3;
        one_id = check_distinct-select "id" ps [] e4;
        one_token = check_distinct-select "token_sha256" ps [] e5;
        kept = check_principals-All ps e6;
      }),
    )
