-- ===== src/Json/Access.antt =====
-- Reading a `Value`: `get`, indexing, and the `as_…` conversions.
use tekes_memory.Prelude.{
  ℕ, ℤ, pos, in_i64, Bool, true, false, String, List, Option, none, some, ◌==◌, leb, ◌-◌, ◌^◌,
  if◌then◌else◌,
}
use tekes_memory.Json.{Value, Fields, null, bool, int, str, arr, obj, end, field, to_list}

unfoldable pub get_field : String → Fields → Option Value
get_field k end = none
get_field k (field j v fs) = if j == k then some v else get_field k fs

-- `v.get(k)`
unfoldable pub get : String → Value → Option Value
unfolding get_field
get k (obj fs) = get_field k fs
get k _ = none

abbrev pub or_null : Option Value → Value
or_null none = null
or_null (some v) = v

-- `v[k]` of a read: null where there is no such key
unfoldable pub index : Value → String → Value
unfolding get
index v k = or_null (get k v)

-- the optional string of `as_str`
unfoldable pub as_str : Value → Option String
as_str (str s) = some s
as_str _ = none

unfoldable pub as_i64 : Value → Option ℤ
as_i64 (int z) = if in_i64 z then some z else none
as_i64 _ = none

unfoldable pub as_u64 : Value → Option ℕ
as_u64 (int (pos n)) = if leb n (2 ^ 64 - 1) then some n else none
as_u64 _ = none

unfoldable pub as_bool : Value → Option Bool
as_bool (bool b) = some b
as_bool _ = none

unfoldable pub as_array : Value → Option (List Value)
unfolding to_list
as_array (arr vs) = some (to_list vs)
as_array _ = none

unfoldable pub as_object : Value → Option Fields
as_object (obj fs) = some fs
as_object _ = none

abbrev pub is_some {ℓ} : {A : Type ℓ} → Option A → Bool
is_some none = false
is_some (some _) = true

abbrev pub unwrap_or {ℓ} : {A : Type ℓ} → Option A → A → A
unwrap_or none d = d
unwrap_or (some a) d = a

-- `v == "s"`, of a value and a text
unfoldable pub is_text : Value → String → Bool
is_text (str t) s = t == s
is_text _ s = false

unfoldable pub is_true : Value → Bool
is_true (bool b) = b
is_true _ = false
