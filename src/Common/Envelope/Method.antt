-- ===== src/Common/Envelope/Method.antt =====
-- `normalize_initialize` of src/common.rs keeps the method of a request.
use tekes_memory.Prelude.{◌≡◌, refl, Bool, true, false, if◌then◌else◌}
use tekes_memory.Json.{Value, Fields, null, bool, int, float, str, arr, obj}
use tekes_memory.Json.Access.{index, is_text}
use tekes_memory.Json.Edit.{get-set_key}
use tekes_memory.Common.Envelope.{normalize_initialize, fill_info}

abbrev is_initialize : Value → Bool
is_initialize v = is_text (index v "method") "initialize"

fill_info-initialize :
    (fs : Fields) (info : Value) → is_initialize (fill_info (obj fs) info) ≡ is_initialize (obj fs)
unfolding index
fill_info-initialize fs (obj info) = rw (get-set_key fs "params" "method" _) refl
fill_info-initialize fs null = refl
fill_info-initialize fs (bool b) = refl
fill_info-initialize fs (int z) = refl
fill_info-initialize fs (float x) = refl
fill_info-initialize fs (str t) = refl
fill_info-initialize fs (arr vs) = refl

if-initialize :
    (b : Bool) (v v' : Value)
    → is_initialize v' ≡ is_initialize v
    → is_initialize (if b then v' else v) ≡ is_initialize v
if-initialize true v v' h = h
if-initialize false v v' h = refl

-- A request is an `initialize` after it is normalized when it is one before.
pub normalize_initialize-method :
    (v : Value) → is_initialize (normalize_initialize v) ≡ is_initialize v
unfolding normalize_initialize index is_text
normalize_initialize-method (obj fs) =
    if-initialize (is_initialize (obj fs)) (obj fs) _
      (fill_info-initialize fs (index (index (obj fs) "params") "clientInfo"))
normalize_initialize-method null = refl
normalize_initialize-method (bool b) = refl
normalize_initialize-method (int z) = refl
normalize_initialize-method (float x) = refl
normalize_initialize-method (str t) = refl
normalize_initialize-method (arr vs) = refl
