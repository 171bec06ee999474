-- ===== src/Common/Strict/Unique.antt =====
-- Which trees `Strict` of src/common.rs accepts: those with no duplicate key.
use tekes_memory.Prelude.{
  ◌≡◌, refl, sym, ap, subst, ◌∙◌, Bool, true, false, not, ◌&&◌, String, Option, none, some, eq_iff,
  arith,
}
use tekes_memory.Json.{Value, Items, Fields, arr, obj, nil, cons, end, field}
use tekes_memory.Json.Access.{get_field, is_some}
use tekes_memory.Json.Edit.{insert_field, get_field-insert_field}
use tekes_memory.Common.{Result, ok, err, is_ok, ◌>>=◌}
use tekes_memory.Common.Strict.{insert_new, strict, strict_items, strict_fields}

-- No object of the tree has a key twice.
unfoldable mutual
  unfolding get_field

  pub unique : Value → Bool
  unique (arr vs) = unique_items vs
  unique (obj fs) = unique_fields fs
  unique v = true

  pub unique_items : Items → Bool
  unique_items nil = true
  unique_items (cons v vs) = unique v && unique_items vs

  pub unique_fields : Fields → Bool
  unique_fields end = true
  unique_fields (field k v fs) = unique v && not (is_some (get_field k fs)) && unique_fields fs

-- No key of the first is in the second.
unfoldable apart : Fields → Fields → Bool
unfolding get_field
apart end m = true
apart (field k v fs) m = not (is_some (get_field k m)) && apart fs m

apart-insert :
    (fs m : Fields) (k : String) (x : Value)
    → apart fs (insert_field k x m) ≡ (not (is_some (get_field k fs)) && apart fs m)
unfolding apart get_field
apart-insert end m k x = refl
apart-insert (field j v fs) m k x =
    ground (arith, apart-insert fs m k x, get_field-insert_field k j x m, eq_iff k j, eq_iff j k)

apart-end : (fs : Fields) → apart fs end ≡ true
unfolding apart get_field
apart-end end = refl
apart-end (field k v fs) = apart-end fs

module _ {ℓ κ} {A : Type ℓ} {B : Type κ} where
  is_ok-bind_all :
      (m : Result A) (f : A → Result B) (b c : Bool)
      → is_ok m ≡ b
      → ((a : A) → m ≡ ok a → is_ok (f a) ≡ c)
      → is_ok (m >>= f) ≡ (b && c)
  is_ok-bind_all (ok a) f b c h k = rw (sym h) (k a refl)
  is_ok-bind_all (err e) f b c h k = rw (sym h) refl

module _ {ℓ κ} {A : Type ℓ} {B : Type κ} where
  is_ok-map : (m : Result A) (f : A → B) → is_ok (m >>= λ a. ok (f a)) ≡ is_ok m
  is_ok-map (ok a) f = refl
  is_ok-map (err e) f = refl

and_true : (b : Bool) → (b && true) ≡ b
and_true true = refl
and_true false = refl

insert_new-IsOk :
    (k : String) (v : Value) (m : Fields) (o : Option Value)
    → get_field k m ≡ o
    → is_ok (insert_new k v m) ≡ not (is_some (get_field k m))
insert_new-IsOk k v m none e = ground arith
insert_new-IsOk k v m (some w) e = ground arith

insert_new_ok :
    (k : String) (v : Value) (m : Fields) (o : Option Value) {m' : Fields}
    → get_field k m ≡ o
    → insert_new k v m ≡ ok m'
    → m' ≡ insert_field k v m
insert_new_ok k v m none e h = ground arith
insert_new_ok k v m (some w) e h = absurd (ground arith)

-- The conditions of a field in the order in which they are tested, and as `unique_fields` has them.
field_conditions :
    (u o n w a : Bool) → (u && (not o && (w && (not n && a)))) ≡ (u && not n && w && (not o && a))
field_conditions u o n w a = ground arith

mutual
  unfolding strict unique apart

  strict-IsOk : (v : Value) → is_ok (strict v) ≡ unique v
  strict-IsOk (arr vs) = is_ok-map (strict_items vs) arr ∙ strict_items-IsOk vs
  strict-IsOk (obj fs) =
      is_ok-map (strict_fields fs end) obj
      ∙ strict_fields-IsOk fs end
      ∙ ap (λ b. unique_fields fs && b) (apart-end fs)
      ∙ and_true (unique_fields fs)
  strict-IsOk v = refl

  strict_items-IsOk : (vs : Items) → is_ok (strict_items vs) ≡ unique_items vs
  strict_items-IsOk nil = refl
  strict_items-IsOk (cons v vs) =
      is_ok-bind_all (strict v) _ _ _ (strict-IsOk v)
        (λ v' _. is_ok-map (strict_items vs) (cons v') ∙ strict_items-IsOk vs)

  strict_fields-IsOk :
      (fs m : Fields) → is_ok (strict_fields fs m) ≡ (unique_fields fs && apart fs m)
  strict_fields-IsOk end m = refl
  strict_fields-IsOk (field k v fs) m =
      is_ok-bind_all (strict v) _ _ _ (strict-IsOk v) (λ x _.
        is_ok-bind_all (insert_new k x m) _ _ _ (insert_new-IsOk k x m _ refl) (λ m' e.
          subst
            (λ n.
              is_ok (strict_fields fs n)
              ≡ (unique_fields fs && (not (is_some (get_field k fs)) && apart fs m)))
            (sym (insert_new_ok k x m _ refl e))
            (strict_fields-IsOk fs (insert_field k x m)
              ∙ ap (λ b. unique_fields fs && b) (apart-insert fs m k x))))
      ∙ field_conditions (unique v) (is_some (get_field k m)) (is_some (get_field k fs))
          (unique_fields fs) (apart fs m)

-- The tree that the parser reports for a text is accepted exactly if no object in it, at any depth,
-- has a key twice.
pub strict-unique : (v : Value) → is_ok (strict v) ≡ unique v
strict-unique v = strict-IsOk v
