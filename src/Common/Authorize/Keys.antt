-- ===== src/Common/Authorize/Keys.antt =====
-- The keys that `authorize` of src/common.rs asks of a scope, kind by kind.
use Prim.Native.Nat.{Ordering}
use Prim.Native.String.{compare}
use tekes_memory.Prelude.{
  ◌≡◌, ◌⊎◌, inl, inr, refl, sym, ap, subst, ◌∙◌, arith, Bool, Bool-cases, true, false, String, List,
  [], ◌∷◌, ◌==◌, eq_iff, any, if◌then◌else◌,
}
use tekes_memory.Json.{Value, Fields, end, field}
use tekes_memory.Json.Access.{get_field, is_some}
use tekes_memory.Common.Authorize.{set_insert, same_set, keys_of, scope_keys, is_kind}
use tekes_memory.Store.Words.{has}
use tekes_memory.Store.Lineage.Missing.{has-set_insert, set_insert-has, set_insert-keeps}

abbrev pub user_keys : List String
user_keys = "kind" ∷ "owner_id" ∷ []

abbrev pub workspace_keys : List String
workspace_keys = "kind" ∷ "owner_id" ∷ "workspace_id" ∷ []

abbrev pub thread_keys : List String
thread_keys = "kind" ∷ "owner_id" ∷ "thread_id" ∷ "workspace_id" ∷ []

-- The object has these keys and no other.
abbrev pub Exactly : Fields → List String → Type 0
Exactly fs ks = (k : String) → is_some (get_field k fs) ≡ has k ks

-- The scope is an object with the keys of its kind, which is one of three.
abbrev pub Shaped : String → Fields → Type 0
Shaped kind fs =
    ((kind ≡ "user") × Exactly fs user_keys)
    ⊎ (((kind ≡ "workspace") × Exactly fs workspace_keys)
        ⊎ ((kind ≡ "thread") × Exactly fs thread_keys))

has-keys_of : (k : String) (fs : Fields) → has k (keys_of fs) ≡ is_some (get_field k fs)
unfolding keys_of get_field any
has-keys_of k end = refl
has-keys_of k (field j v fs) = elim (Bool-cases (j == k)) [
  | inl same ↦
      subst (λ x. has x (set_insert j (keys_of fs)) ≡ true) ((eq_iff j k).0 same)
        (set_insert-has j (keys_of fs))
      ∙ rw same refl
  | inr other ↦ rw other (
      ground (
        arith,
        eq_iff j k,
        eq_iff k j,
        has-set_insert j k (keys_of fs),
        set_insert-keeps j k (keys_of fs),
        has-keys_of k fs,
      ))
]

same_set-path : (xs ys : List String) → same_set xs ys ≡ true → xs ≡ ys
unfolding same_set
same_set-path [] [] h = refl
same_set-path [] (y ∷ ys) h = absurd (cc)
same_set-path (x ∷ xs) [] h = absurd (cc)
same_set-path (x ∷ xs) (y ∷ ys) h = ground (arith, eq_iff x y, same_set-path xs ys)

-- The sorted lists of some of the four keys.
abbrev pick : String → Bool → List String → List String
pick x b l = if b then x ∷ l else l

abbrev some_of : Bool → Bool → Bool → Bool → List String
some_of k o t w = pick "kind" k (pick "owner_id" o (pick "thread_id" t (pick "workspace_id" w [])))

pick-after :
    (x y : String) (b : Bool) (l : List String)
    → compare x y ≡ Ordering.gt
    → set_insert x (pick y b l) ≡ pick y b (set_insert x l)
unfolding set_insert
pick-after x y true l h = rw (h, set_insert) refl
pick-after x y false l h = refl

workspace_at :
    (w : Bool) → set_insert "workspace_id" (pick "workspace_id" w []) ≡ "workspace_id" ∷ []
unfolding set_insert
workspace_at true = refl
workspace_at false = refl

thread_at :
    (t w : Bool)
    → set_insert "thread_id" (pick "thread_id" t (pick "workspace_id" w []))
      ≡ "thread_id" ∷ pick "workspace_id" w []
unfolding set_insert
thread_at true w = refl
thread_at false true = refl
thread_at false false = refl

owner_at : (o t w : Bool) → set_insert "owner_id" (some_of false o t w) ≡ some_of false true t w
unfolding set_insert
owner_at true t w = refl
owner_at false true w = refl
owner_at false false true = refl
owner_at false false false = refl

insert_kind : (k o t w : Bool) → set_insert "kind" (some_of k o t w) ≡ some_of true o t w
unfolding set_insert
insert_kind true o t w = refl
insert_kind false true t w = refl
insert_kind false false true w = refl
insert_kind false false false true = refl
insert_kind false false false false = refl

insert_owner : (k o t w : Bool) → set_insert "owner_id" (some_of k o t w) ≡ some_of k true t w
insert_owner k o t w = pick-after "owner_id" "kind" k _ refl ∙ ap (pick "kind" k) (owner_at o t w)

insert_thread : (k o t w : Bool) → set_insert "thread_id" (some_of k o t w) ≡ some_of k o true w
insert_thread k o t w =
    pick-after "thread_id" "kind" k _ refl
    ∙ ap (pick "kind" k)
        (pick-after "thread_id" "owner_id" o _ refl ∙ ap (pick "owner_id" o) (thread_at t w))

insert_workspace :
    (k o t w : Bool) → set_insert "workspace_id" (some_of k o t w) ≡ some_of k o t true
insert_workspace k o t w =
    pick-after "workspace_id" "kind" k _ refl
    ∙ ap (pick "kind" k) (
        pick-after "workspace_id" "owner_id" o _ refl
        ∙ ap (pick "owner_id" o) (
            pick-after "workspace_id" "thread_id" t _ refl
            ∙ ap (pick "thread_id" t) (workspace_at w)))

-- Whether the object has the key.
abbrev holds : Fields → String → Bool
holds fs k = is_some (get_field k fs)

abbrev Known : String → Type 0
Known k = (k ≡ "kind") ⊎ ((k ≡ "owner_id") ⊎ ((k ≡ "thread_id") ⊎ (k ≡ "workspace_id")))

abbrev held : Fields → List String
held fs =
    some_of (holds fs "kind") (holds fs "owner_id") (holds fs "thread_id") (holds fs "workspace_id")

-- A key more, of the four.
insert-Known :
    (k : String) (v : Value) (fs : Fields) → Known k → set_insert k (held fs) ≡ held (field k v fs)
unfolding get_field
insert-Known k v fs (inl e) =
    subst (λ x. set_insert x (held fs) ≡ held (field x v fs)) (sym e) (insert_kind _ _ _ _)
insert-Known k v fs (inr (inl e)) =
    subst (λ x. set_insert x (held fs) ≡ held (field x v fs)) (sym e) (insert_owner _ _ _ _)
insert-Known k v fs (inr (inr (inl e))) =
    subst (λ x. set_insert x (held fs) ≡ held (field x v fs)) (sym e) (insert_thread _ _ _ _)
insert-Known k v fs (inr (inr (inr e))) =
    subst (λ x. set_insert x (held fs) ≡ held (field x v fs)) (sym e) (insert_workspace _ _ _ _)

holds-first : (k : String) (v : Value) (fs : Fields) → holds (field k v fs) k ≡ true
unfolding get_field
holds-first k v fs = rw ((eq_iff k k).1 refl) refl

holds-rest :
    (j k : String) (v : Value) (fs : Fields) → holds fs k ≡ true → holds (field j v fs) k ≡ true
unfolding get_field
holds-rest j k v fs h = elim (Bool-cases (j == k)) [ inl e ↦ rw e refl | inr e ↦ rw e h ]

-- The keys of an object that has no key but the four.
keys_of-held : (fs : Fields) → ((k : String) → holds fs k ≡ true → Known k) → keys_of fs ≡ held fs
unfolding keys_of get_field
keys_of-held end known = refl
keys_of-held (field k v fs) known =
    ap (set_insert k) (keys_of-held fs (λ j h. known j (holds-rest k j v fs h)))
    ∙ insert-Known k v fs (known k (holds-first k v fs))

Known-in : (k : String) → has k thread_keys ≡ true → Known k
unfolding any
Known-in k h =
    ground
      (arith, eq_iff "kind" k, eq_iff "owner_id" k, eq_iff "thread_id" k, eq_iff "workspace_id" k)

user_in : (k : String) → has k user_keys ≡ true → has k thread_keys ≡ true
unfolding any
user_in k h = ground arith

workspace_in : (k : String) → has k workspace_keys ≡ true → has k thread_keys ≡ true
unfolding any
workspace_in k h = ground arith

abbrev flags : List String → List String
flags ks = some_of (has "kind" ks) (has "owner_id" ks) (has "thread_id" ks) (has "workspace_id" ks)

-- An object with some of the four keys and no other, by its keys.
keys_of-exact :
    (fs : Fields) (ks : List String)
    → ((k : String) → has k ks ≡ true → Known k)
    → Exactly fs ks
    → keys_of fs ≡ flags ks
keys_of-exact fs ks known exact =
    keys_of-held fs (λ k h. known k (sym (exact k) ∙ h))
    ∙ rw (exact "kind", exact "owner_id", exact "thread_id", exact "workspace_id") refl

exact_of : (fs : Fields) (ks : List String) → same_set (keys_of fs) ks ≡ true → Exactly fs ks
exact_of fs ks h k = sym (has-keys_of k fs) ∙ ap (has k) (same_set-path (keys_of fs) ks h)

kind_cases :
    (kind : String)
    → is_kind kind ≡ true
    → (kind ≡ "user") ⊎ ((kind ≡ "workspace") ⊎ (kind ≡ "thread"))
kind_cases kind h =
    ground (arith, eq_iff kind "user", eq_iff kind "workspace", eq_iff kind "thread")

pub Shaped-sound :
    (kind : String) (fs : Fields)
    → is_kind kind ≡ true
    → same_set (keys_of fs) (scope_keys kind) ≡ true
    → Shaped kind fs
unfolding scope_keys set_insert
Shaped-sound kind fs known h = elim (kind_cases kind known) [
  | inl e ↦ inl (e, exact_of fs _ (subst (λ x. same_set (keys_of fs) (scope_keys x) ≡ true) e h))
  | inr (inl e) ↦
      inr (inl (e, exact_of fs _ (subst (λ x. same_set (keys_of fs) (scope_keys x) ≡ true) e h)))
  | inr (inr e) ↦
      inr (inr (e, exact_of fs _ (subst (λ x. same_set (keys_of fs) (scope_keys x) ≡ true) e h)))
]

pub Shaped-complete :
    (kind : String) (fs : Fields)
    → Shaped kind fs
    → (is_kind kind ≡ true) × (same_set (keys_of fs) (scope_keys kind) ≡ true)
unfolding scope_keys set_insert same_set any
Shaped-complete kind fs (inl (e, exact)) =
    subst (λ x. (is_kind x ≡ true) × (same_set (keys_of fs) (scope_keys x) ≡ true)) (sym e)
      (refl, rw (keys_of-exact fs user_keys (λ k h. Known-in k (user_in k h)) exact) refl)
Shaped-complete kind fs (inr (inl (e, exact))) =
    subst (λ x. (is_kind x ≡ true) × (same_set (keys_of fs) (scope_keys x) ≡ true)) (sym e)
      (refl, rw (keys_of-exact fs workspace_keys (λ k h. Known-in k (workspace_in k h)) exact) refl)
Shaped-complete kind fs (inr (inr (e, exact))) =
    subst (λ x. (is_kind x ≡ true) × (same_set (keys_of fs) (scope_keys x) ≡ true)) (sym e)
      (refl, rw (keys_of-exact fs thread_keys Known-in exact) refl)
