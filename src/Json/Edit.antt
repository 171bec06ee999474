-- ===== src/Json/Edit.antt =====
-- Building and changing objects. serde_json keeps an object in a `BTreeMap`, sorted by key.
use Prim.Native.Nat.{Ordering}
use Prim.Native.String.{compare}
use tekes_memory.Prelude.{
  String, List, [], ◌∷◌, none, some, ◌==◌, eq_iff, ◌≡◌, refl, arith, if◌then◌else◌,
}
use tekes_memory.Json.{Value, Fields, null, obj, end, field}
use tekes_memory.Json.Access.{get_field, get}

-- `Map::insert`
unfoldable pub insert_field : String → Value → Fields → Fields
insert_field k v end = field k v end
insert_field k v (field j w fs) = elim (compare k j) [
  | Ordering.lt ↦ field k v (field j w fs)
  | Ordering.eq ↦ field k v fs
  | Ordering.gt ↦ field j w (insert_field k v fs)
]

-- `Map::remove`
unfoldable pub remove_field : String → Fields → Fields
remove_field k end = end
remove_field k (field j w fs) = if j == k then remove_field k fs else field j w (remove_field k fs)

-- `v[k] = x`: null becomes an object; the source panics on any other value that is no object, and
-- does so nowhere, since it only assigns to objects that it built or checked.
unfoldable pub set_key : Value → String → Value → Value
unfolding insert_field
set_key (obj fs) k x = obj (insert_field k x fs)
set_key null k x = obj (field k x end)
set_key v k x = v

-- `v.as_object_mut().unwrap().remove(k)`
unfoldable pub remove_key : Value → String → Value
unfolding remove_field
remove_key (obj fs) k = obj (remove_field k fs)
remove_key v k = v

unfoldable pub fields_of : List (String × Value) → Fields
unfolding insert_field
fields_of [] = end
fields_of ((k, v) ∷ l) = insert_field k v (fields_of l)

-- `json!({…})`
unfoldable pub object : List (String × Value) → Value
unfolding fields_of
object l = obj (fields_of l)

pub get_field-insert_field :
    (k j : String) (v : Value) (fs : Fields)
    → get_field j (insert_field k v fs) ≡ (if k == j then some v else get_field j fs)
unfolding get_field insert_field
get_field-insert_field k j v end = refl
get_field-insert_field k j v (field i w fs) =
    ground (arith, eq_iff k j, eq_iff i k, eq_iff i j, eq_iff k i, get_field-insert_field k j v fs)

pub get_field-remove_field :
    (k j : String) (fs : Fields)
    → get_field j (remove_field k fs) ≡ (if k == j then none else get_field j fs)
unfolding get_field remove_field
get_field-remove_field k j end = ground arith
get_field-remove_field k j (field i w fs) =
    ground (arith, eq_iff k j, eq_iff i k, eq_iff i j, eq_iff k i, get_field-remove_field k j fs)

-- Reading an object after an assignment.
pub get-set_key :
    (v : Fields) (k j : String) (x : Value)
    → get j (set_key (obj v) k x) ≡ (if k == j then some x else get j (obj v))
unfolding get set_key
get-set_key v k j x = get_field-insert_field k j x v

-- Reading `json!({k: v, …})`: the last of equal keys wins, which never occurs in the source.
pub get-object :
    (k j : String) (v : Value) (l : List (String × Value))
    → get j (object ((k, v) ∷ l)) ≡ (if k == j then some v else get j (object l))
unfolding get object
get-object k j v l = get_field-insert_field k j v (fields_of l)

pub get-object_nil : (j : String) → get j (object []) ≡ none
unfolding get object get_field
get-object_nil j = refl
