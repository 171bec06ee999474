-- ===== src/Common/Authorize/Grants.antt =====
-- What `authorize` of src/common.rs allows, said without its tests.
use tekes_memory.Prelude.{
  ◌≡◌, sym, subst, refl, ap, ◌↔◌, ◌⊎◌, inl, inr, Bool, true, false, not, ◌||◌, String, List, [],
  ◌∷◌, eq_iff, any, arith, if◌then◌else◌,
}
use tekes_memory.Json.{Value, Fields, obj, str, json_eq, json_eq_iff}
use tekes_memory.Json.Access.{index, as_object, is_text}
use tekes_memory.Common.{Error, Result, ok, err, fail_if, scope_denied, ◌>>=◌}
use tekes_memory.Common.Access.{text, array}
use tekes_memory.Common.Authorize.Keys.{Shaped, Shaped-sound, Shaped-complete}
use tekes_memory.Common.Authorize.{authorize, covers, scope_keys, is_kind, has_keys}

-- A grant is the scope itself, or the workspace of a thread.
abbrev pub Covers : String → Value → Value → Type 0
Covers kind s g =
    (g ≡ s)
    ⊎ (((index g "kind" ≡ str "workspace") × (kind ≡ "thread"))
        × ((index g "owner_id" ≡ index s "owner_id")
            × (index g "workspace_id" ≡ index s "workspace_id")))

-- One of the elements has the property.
abbrev pub OneOf {ℓ} : {A : Type ℓ} → (A → Type 0) → List A → Type 0
OneOf P [] = ⊥
OneOf P (x ∷ xs) = P x ⊎ OneOf P xs

-- The principal may act in the scope: it is an object of one of three shapes.
pub record Granted (p s : Value) : Type 0 where
  pub kind : String
  pub grants : List Value
  pub kind_text : text s "kind" ≡ ok kind
  pub fields : Fields
  pub object : s ≡ obj fields
  pub shaped : Shaped kind fields
  pub same_owner : index s "owner_id" ≡ index p "owner_id"
  pub grants_array : array p "scopes" ≡ ok grants
  pub covered : OneOf (Covers kind s) grants

string_of : Value → String
string_of (str s) = s
string_of _ = ""

is_text_iff : (v : Value) (t : String) → (is_text v t ≡ true) ↔ (v ≡ str t)
unfolding is_text string_of
is_text_iff (str s) t = (λ h. ap str ((eq_iff s t).0 h), λ e. (eq_iff s t).1 (ap string_of e))
is_text_iff v t = (λ h. absurd (cc), λ e. absurd (cc))

covers_iff : (kind : String) (s g : Value) → (covers kind s g ≡ true) ↔ Covers kind s g
unfolding covers
covers_iff kind s g = ground (
  arith,
  json_eq_iff g s,
  is_text_iff (index g "kind") "workspace",
  eq_iff kind "thread",
  json_eq_iff (index g "owner_id") (index s "owner_id"),
  json_eq_iff (index g "workspace_id") (index s "workspace_id"),
)

or_cases : (b c : Bool) → (b || c) ≡ true → (b ≡ true) ⊎ (c ≡ true)
or_cases true c h = inl refl
or_cases false c h = inr h

or_right : (b c : Bool) → c ≡ true → (b || c) ≡ true
or_right true c h = refl
or_right false c h = h

any_iff {ℓ} :
    {A : Type ℓ} (f : A → Bool) (P : A → Type 0) (xs : List A)
    → ((a : A) → (f a ≡ true) ↔ P a)
    → (any f xs ≡ true) ↔ OneOf P xs
unfolding any
any_iff f P [] h = (λ e. absurd (cc), λ e. absurd e)
any_iff f P (x ∷ xs) h =
    let rest = any_iff f P xs h in
    (
      (λ e. elim (or_cases (f x) (any f xs) e) [
        | inl a ↦ inl ((h x).0 a)
        | inr b ↦ inr (rest.0 b)
      ]),
      (λ o. elim o [ inl a ↦ rw ((h x).1 a) refl | inr b ↦ or_right (f x) (any f xs) (rest.1 b) ]),
    )

-- The tests as one.
all_tests :
    (k o w g : Bool)
    → ((fail_if (not k || not o || not w) scope_denied >>= λ _.
          if g then ok (tt {0}) else err scope_denied)
        ≡ ok (tt {0}))
      ↔ ((k ≡ true) × (o ≡ true) × (w ≡ true) × (g ≡ true))
all_tests true true true true = ((λ _. (refl, refl, refl, refl)), λ _. refl)
all_tests true true true false = ((λ h. absurd (cc)), λ h. absurd (cc (h.3)))
all_tests true true false g = ((λ h. absurd (cc)), λ h. absurd (cc (h.2)))
all_tests true false w g = ((λ h. absurd (cc)), λ h. absurd (cc (h.1)))
all_tests false o w g = ((λ h. absurd (cc)), λ h. absurd (cc (h.0)))

no_kind : (e : Error) → err e ≡ ok (tt {0}) → ⊥
no_kind e h = cc

no_grants : (b : Bool) (e : Error) → (fail_if b scope_denied >>= λ _. err e) ≡ ok (tt {0}) → ⊥
no_grants true e h = cc
no_grants false e h = cc

shape_of :
    (kind : String) (s : Value)
    → is_kind kind ≡ true
    → has_keys (as_object s) (scope_keys kind) ≡ true
    → (fs : Fields) × (s ≡ obj fs) × Shaped kind fs
unfolding as_object
shape_of kind (obj fs) known h = (fs, refl, Shaped-sound kind fs known h)
shape_of kind v known h = absurd (cc)

module _ (p s : Value) where
  -- The tests, once the kind and the grants are read.
  tests_iff :
      (kind : String) (grants : List Value)
      → text s "kind" ≡ ok kind
      → array p "scopes" ≡ ok grants
      → (authorize p s ≡ ok tt) ↔ (
          (is_kind kind ≡ true)
          × (has_keys (as_object s) (scope_keys kind) ≡ true)
          × (json_eq (index s "owner_id") (index p "owner_id") ≡ true)
          × (any (covers kind s) grants ≡ true))
  unfolding authorize
  tests_iff kind grants ek eg =
      rw (ek, eg)
        (all_tests (is_kind kind) (has_keys (as_object s) (scope_keys kind))
          (json_eq (index s "owner_id") (index p "owner_id")) (any (covers kind s) grants))

  sound_of_results :
      (rk : Result String) (rg : Result (List Value))
      → text s "kind" ≡ rk
      → array p "scopes" ≡ rg
      → authorize p s ≡ ok tt
      → Granted p s
  unfolding authorize
  sound_of_results (err e) rg ek eg h = absurd (no_kind e (rw ek at h))
  sound_of_results (ok kind) (err e) ek eg h = absurd (no_grants _ e (rw (ek, eg) at h))
  sound_of_results (ok kind) (ok grants) ek eg h =
      let tests = (tests_iff kind grants ek eg).0 h in
      let shape = shape_of kind s tests.0 tests.1 in
      record {
        kind = kind;
        grants = grants;
        kind_text = ek;
        fields = shape.0;
        object = shape.1;
        shaped = shape.2;
        same_owner = (json_eq_iff (index s "owner_id") (index p "owner_id")).0 tests.2;
        grants_array = eg;
        covered = (any_iff (covers kind s) (Covers kind s) grants (covers_iff kind s)).0 tests.3;
      }

  authorize_sound : authorize p s ≡ ok tt → Granted p s
  authorize_sound h = sound_of_results (text s "kind") (array p "scopes") refl refl h

  authorize_complete : Granted p s → authorize p s ≡ ok tt
  unfolding as_object
  authorize_complete g = (tests_iff g.kind g.grants g.kind_text g.grants_array).1 (
    (Shaped-complete g.kind g.fields g.shaped).0,
    subst (λ v. has_keys (as_object v) (scope_keys g.kind) ≡ true) (sym g.object)
        (Shaped-complete g.kind g.fields g.shaped).1,
    (json_eq_iff (index s "owner_id") (index p "owner_id")).1 g.same_owner,
    (any_iff (covers g.kind s) (Covers g.kind s) g.grants (covers_iff g.kind s)).1 g.covered,
  )

-- A principal may act in a scope exactly if the scope is an object with the kind `user` and the keys
-- `kind` and `owner_id`, or `workspace` and `workspace_id` besides, or `thread` and `workspace_id` and
-- `thread_id` besides, with no other key, it belongs to the principal's owner, and it is one of the
-- principal's grants, or is a thread of a workspace that is one.
pub authorize-Granted : (p s : Value) → (authorize p s ≡ ok tt) ↔ Granted p s
authorize-Granted p s = (authorize_sound p s, authorize_complete p s)
