-- ===== src/Common/Strict.antt =====
-- `Strict`, `decode` and `decode_response` of src/common.rs: a duplicate key is an error.
pub mod Unique
use Prim.Native.String.{len}
use tekes_memory.Prelude.{ℕ, String, Option, none, some, leb, if◌then◌else◌}
use tekes_memory.Json.{Value, Items, Fields, arr, obj, nil, cons, end, field}
use tekes_memory.Json.Access.{get_field}
use tekes_memory.Json.Edit.{insert_field}
use tekes_memory.Common.{Result, ok, err, ◌>>=◌, ok_or, invalid_argument, budget_exceeded}
use tekes_memory.Common.Schema.{max_body, max_response}

-- `Map::insert` that returns the old value: here `none` stands for a duplicate key.
abbrev pub insert_new : String → Value → Fields → Result Fields
insert_new k v m = elim (get_field k m) [
  | none ↦ ok (insert_field k v m)
  | some _ ↦ err invalid_argument
]

-- The visitor, on the tree that the parser reports: there an object's fields come in the order
-- of the text, with their duplicates. `m` is the map built so far.
unfoldable mutual
  pub strict : Value → Result Value
  strict (arr vs) = do vs' ← strict_items vs; ok (arr vs')
  strict (obj fs) = do m ← strict_fields fs end; ok (obj m)
  strict v = ok v

  pub strict_items : Items → Result Items
  strict_items nil = ok nil
  strict_items (cons v vs) = do v' ← strict v; vs' ← strict_items vs; ok (cons v' vs')

  pub strict_fields : Fields → Fields → Result Fields
  strict_fields end m = ok m
  strict_fields (field k v fs) m =
      let rest = λ (m' : Fields). strict_fields fs m' in
      do x ← strict v; m' ← insert_new k x m; rest m'

-- `parse` is the parser: the tree of a text, if it is JSON.
unfoldable pub decode_with_limit : (String → Option Value) → String → ℕ → Result Value
unfolding strict
decode_with_limit parse raw limit =
    if leb (len raw) limit
    then (do tree ← ok_or (parse raw) invalid_argument; strict tree)
    else err budget_exceeded

-- The body of a request.
unfoldable pub decode : (String → Option Value) → String → Result Value
unfolding decode_with_limit
decode parse raw = decode_with_limit parse raw max_body

-- A response of the service.
unfoldable pub decode_response : (String → Option Value) → String → Result Value
unfolding decode_with_limit
decode_response parse raw = decode_with_limit parse raw max_response
