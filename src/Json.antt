-- ===== src/Json.antt =====
-- serde_json's `Value` with the accessors that the program uses (src/common.rs and its callers).
pub mod Access
pub mod Edit
use tekes_memory.Prelude.{
  nat_eq, not, ◌&&◌, ap, subst, if◌then◌else◌, pos, negsuc, ℕ, ℤ, ℤ_discrete, ℕ_discrete, Bool,
  true, false, String, List, [], ◌∷◌, ◌≡◌, refl, inl, inr, Bool-cases, eq_iff, ◌==◌, ◌↔◌, arith,
}

-- A number is an integer (serde_json's `PosInt` and `NegInt`) or a float; a float stands by the bits
-- of its `f64`, where -0.0 is read as 0.0, which neither `==` nor the canonical form tells apart.
mutual
  pub data Fields : Type 0 where
    end : Fields
    field : String → Value → Fields → Fields

  pub data Value : Type 0 where
    null : Value
    bool : Bool → Value
    int : ℤ → Value
    float : ℕ → Value
    str : String → Value
    arr : Items → Value
    obj : Fields → Value

  pub data Items : Type 0 where
    nil : Items
    cons : Value → Items → Items

abbrev int_eq : ℤ → ℤ → Bool
int_eq (pos m) (pos n) = nat_eq m n
int_eq (negsuc m) (negsuc n) = nat_eq m n
int_eq _ _ = false

-- `==` of two values
unfoldable mutual
  pub json_eq : Value → Value → Bool
  json_eq null null = true
  json_eq (bool a) (bool b) = if a then b else not b
  json_eq (int a) (int b) = int_eq a b
  json_eq (float a) (float b) = nat_eq a b
  json_eq (str a) (str b) = a == b
  json_eq (arr vs) (arr ws) = items_eq vs ws
  json_eq (obj fs) (obj gs) = fields_eq fs gs
  json_eq _ _ = false

  pub items_eq : Items → Items → Bool
  items_eq nil nil = true
  items_eq (cons v vs) (cons w ws) = json_eq v w && items_eq vs ws
  items_eq _ _ = false

  pub fields_eq : Fields → Fields → Bool
  fields_eq end end = true
  fields_eq (field k v fs) (field j w gs) = k == j && json_eq v w && fields_eq fs gs
  fields_eq _ _ = false

both : (b c : Bool) → (b && c) ≡ true → (b ≡ true) × (c ≡ true)
both true c h = (refl, h)
both false c h = absurd (cc)

mutual
  unfolding json_eq

  json_eq-eq : (v w : Value) → json_eq v w ≡ true → v ≡ w
  json_eq-eq null null h = refl
  json_eq-eq (bool a) (bool b) h = ground arith
  json_eq-eq (int (pos a)) (int (pos b)) h = ground arith
  json_eq-eq (int (negsuc a)) (int (negsuc b)) h = ground arith
  json_eq-eq (float a) (float b) h = ground arith
  json_eq-eq (str a) (str b) h = ap str ((eq_iff a b).0 h)
  json_eq-eq (arr vs) (arr ws) h = ap arr (items_eq-eq vs ws h)
  json_eq-eq (obj fs) (obj gs) h = ap obj (fields_eq-eq fs gs h)
  json_eq-eq _ _ h = absurd (cc)

  items_eq-eq : (vs ws : Items) → items_eq vs ws ≡ true → vs ≡ ws
  items_eq-eq nil nil h = refl
  items_eq-eq (cons v vs) (cons w ws) h =
      let (hv, hvs) = both (json_eq v w) (items_eq vs ws) h in
      let e = json_eq-eq v w hv in let es = items_eq-eq vs ws hvs in λ i. cons (e i) (es i)
  items_eq-eq _ _ h = absurd (cc)

  fields_eq-eq : (fs gs : Fields) → fields_eq fs gs ≡ true → fs ≡ gs
  fields_eq-eq end end h = refl
  fields_eq-eq (field k v fs) (field j w gs) h =
      let (head, hfs) = both (k == j && json_eq v w) (fields_eq fs gs) h in
      let (hk, hv) = both (k == j) (json_eq v w) head in
      let ek = (eq_iff k j).0 hk in
      let e = json_eq-eq v w hv in let es = fields_eq-eq fs gs hfs in λ i. field (ek i) (e i) (es i)
  fields_eq-eq _ _ h = absurd (cc)

mutual
  unfolding json_eq

  pub json_eq_refl : (v : Value) → json_eq v v ≡ true
  json_eq_refl null = refl
  json_eq_refl (bool true) = refl
  json_eq_refl (bool false) = refl
  json_eq_refl (int (pos n)) = ground arith
  json_eq_refl (int (negsuc n)) = ground arith
  json_eq_refl (float n) = ground arith
  json_eq_refl (str s) = (eq_iff s s).1 refl
  json_eq_refl (arr vs) = items_eq_refl vs
  json_eq_refl (obj fs) = fields_eq_refl fs

  items_eq_refl : (vs : Items) → items_eq vs vs ≡ true
  items_eq_refl nil = refl
  items_eq_refl (cons v vs) = rw (json_eq_refl v, items_eq_refl vs) refl

  fields_eq_refl : (fs : Fields) → fields_eq fs fs ≡ true
  fields_eq_refl end = refl
  fields_eq_refl (field k v fs) = rw ((eq_iff k k).1 refl, json_eq_refl v, fields_eq_refl fs) refl

pub json_eq_iff : (v w : Value) → (json_eq v w ≡ true) ↔ (v ≡ w)
json_eq_iff v w = (json_eq-eq v w, λ e. subst (λ x. json_eq v x ≡ true) e (json_eq_refl v))

-- the elements of an array
unfoldable pub to_list : Items → List Value
to_list nil = []
to_list (cons v vs) = v ∷ to_list vs

unfoldable pub of_list : List Value → Items
of_list [] = nil
of_list (v ∷ vs) = cons v (of_list vs)

pub to_list-of_list : (vs : List Value) → to_list (of_list vs) ≡ vs
unfolding to_list of_list
to_list-of_list [] = refl
to_list-of_list (v ∷ vs) = cc (to_list-of_list vs)
