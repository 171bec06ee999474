-- ===== src/Common/Access.antt =====
-- `text` and `array` of src/common.rs.
use tekes_memory.Prelude.{String, List, Option, none, some}
use tekes_memory.Json.{Value}
use tekes_memory.Json.Access.{get, as_str, as_array}
use tekes_memory.Common.{Result, ok_or, invalid_argument}

abbrev pub and_then {ℓ κ} : {A : Type ℓ} {B : Type κ} → Option A → (A → Option B) → Option B
and_then none f = none
and_then (some a) f = f a

-- The text at a key.
unfoldable pub text : Value → String → Result String
unfolding get as_str
text v k = ok_or (and_then (get k v) as_str) invalid_argument

-- The array at a key.
unfoldable pub array : Value → String → Result (List Value)
unfolding get as_array
array v k = ok_or (and_then (get k v) as_array) invalid_argument
