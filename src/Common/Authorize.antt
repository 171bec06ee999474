-- ===== src/Common/Authorize.antt =====
-- `authorize` of src/common.rs: whether a principal may act in a scope.
pub mod Keys
pub mod Grants
use Prim.Native.Nat.{Ordering}
use Prim.Native.String.{compare}
use tekes_memory.Prelude.{
  Bool, true, false, not, ◌&&◌, ◌||◌, String, List, [], ◌∷◌, Option, none, some, ◌==◌, any,
  if◌then◌else◌,
}
use tekes_memory.Json.{Value, Fields, end, field, json_eq}
use tekes_memory.Json.Access.{index, as_object, is_text}
use tekes_memory.Common.{Result, ok, err, ◌>>=◌, ◌>>◌, fail_if, scope_denied}
use tekes_memory.Common.Access.{text, array}

-- `BTreeSet::insert`, the set as its sorted elements
unfoldable pub set_insert : String → List String → List String
set_insert k [] = k ∷ []
set_insert k (j ∷ l) = elim (compare k j) [
  | Ordering.lt ↦ k ∷ j ∷ l
  | Ordering.eq ↦ j ∷ l
  | Ordering.gt ↦ j ∷ set_insert k l
]

unfoldable pub same_set : List String → List String → Bool
same_set [] [] = true
same_set (x ∷ xs) (y ∷ ys) = x == y && same_set xs ys
same_set _ _ = false

-- The keys of an object, as a set.
unfoldable pub keys_of : Fields → List String
keys_of end = []
keys_of (field k v fs) = set_insert k (keys_of fs)

-- The keys that a scope of the kind has to have.
unfoldable pub scope_keys : String → List String
unfolding set_insert
scope_keys kind =
    let base = set_insert "kind" ("owner_id" ∷ []) in
    let more = if kind == "user" then base else set_insert "workspace_id" base in
    if kind == "thread" then set_insert "thread_id" more else more

abbrev pub is_kind : String → Bool
is_kind kind = kind == "user" || kind == "workspace" || kind == "thread"

abbrev pub has_keys : Option Fields → List String → Bool
has_keys none ks = false
has_keys (some fs) ks = same_set (keys_of fs) ks

-- The test of a scope `s` by a grant `g`.
unfoldable pub covers : String → Value → Value → Bool
covers kind s g =
    json_eq g s
    || (is_text (index g "kind") "workspace"
        && kind == "thread"
        && json_eq (index g "owner_id") (index s "owner_id")
        && json_eq (index g "workspace_id") (index s "workspace_id"))

-- `p` is the principal and `s` the scope.
unfoldable pub authorize : Value → Value → Result (Unit {0})
authorize p s = do
  kind ← text s "kind"
  fail_if
      (not (is_kind kind)
        || not (has_keys (as_object s) (scope_keys kind))
        || not (json_eq (index s "owner_id") (index p "owner_id")))
      scope_denied
  grants ← array p "scopes"
  if any (covers kind s) grants then ok tt else err scope_denied
