-- ===== src/Server/Http.antt =====
-- Requests, responses and headers, `response` and `rpc_error` of src/server.rs.
use tekes_memory.Prelude.{
  ℕ, ℤ, String, List, [], ◌∷◌, Option, none, some, ◌==◌, Bool, true, false, find_first, ◌≡◌, refl,
  ap,
}
use tekes_memory.Json.{Value, str, int}
use tekes_memory.Json.Edit.{object}
use tekes_memory.Common.{Env}

-- The headers by name, in lower case. A value is none where it has other characters than visible
-- ASCII.
abbrev pub Headers : Type 0
Headers = List (String × Option String)

abbrev is_named : String → String × Option String → Bool
is_named k (name, v) = name == k

abbrev pub header_value : Option (String × Option String) → Option (Option String)
header_value none = none
header_value (some (name, v)) = some v

-- `h.get(k)`
unfoldable pub find_header : Headers → String → Option (Option String)
unfolding find_first
find_header h k = header_value (find_first (is_named k) h)

abbrev text_or_empty : Option (Option String) → String
text_or_empty (some (some v)) = v
text_or_empty _ = ""

unfoldable pub header : Headers → String → String
unfolding find_header
header h k = text_or_empty (find_header h k)

-- The body is none where it does not arrive in time or exceeds the bound.
pub record Request : Type 0 where
  pub method : String
  pub headers : Headers
  pub body : Option String

pub record Response : Type 0 where
  pub status : ℕ
  pub headers : Headers
  pub body : String

abbrev body_of : Env → Option Value → String
body_of env none = ""
body_of env (some v) = env.wire_json v

abbrev session_header : Option String → Headers
session_header none = []
session_header (some s) = ("mcp-session-id", some s) ∷ []

unfoldable pub response : Env → ℕ → Option Value → Option String → Response
response env code value session = record {
  status = code;
  headers =
      ("content-type", some "application/json")
      ∷ ("cache-control", some "no-store")
      ∷ session_header session;
  body = body_of env value;
}

unfoldable pub rpc_error : Value → ℤ → String → Value
unfolding object
rpc_error id code message = object (
    ("jsonrpc", str "2.0")
    ∷ ("id", id)
    ∷ ("error", object (("code", int code) ∷ ("message", str message) ∷ []))
    ∷ [])

-- What a check says: the value to go on with, or the response.
pub data Verdict {ℓ} (A : Type ℓ) : Type ℓ where
  pass : A → Verdict A
  reject : Response → Verdict A

infixl 5 ◌>>=◌ ◌>>◌
abbrev pub ◌>>=◌ {ℓ κ} : {A : Type ℓ} {B : Type κ} → Verdict A → (A → Verdict B) → Verdict B
◌>>=◌ (reject r) next = reject r
◌>>=◌ (pass a) next = next a

abbrev pub ◌>>◌ {ℓ} : {B : Type ℓ} → Verdict (Unit {0}) → Verdict B → Verdict B
◌>>◌ (reject r) next = reject r
◌>>◌ (pass _) next = next

-- An early `return` of a response where the test holds.
abbrev pub reject_if : Bool → Response → Verdict (Unit {0})
reject_if false r = pass tt
reject_if true r = reject r

abbrev pub need {ℓ} : {A : Type ℓ} → Option A → Response → Verdict A
need none r = reject r
need (some a) r = pass a

verdict_or {ℓ} : {A : Type ℓ} → A → Verdict A → A
verdict_or d (pass a) = a
verdict_or d (reject r) = d

pub pass-injective {ℓ} : {A : Type ℓ} → (a b : A) → pass a ≡ pass b → a ≡ b
unfolding verdict_or
pass-injective a b h = ap (verdict_or a) h

-- What passes a chain of checks passes each of them.
pub reject_if-pass {ℓ} :
    {A : Type ℓ}
    → (b : Bool) (r : Response) (v : Verdict A) (a : A) → (reject_if b r >> v) ≡ pass a
    → (b ≡ false) × (v ≡ pass a)
reject_if-pass false r v a h = (refl, h)
reject_if-pass true r v a h = absurd (cc)

pub bind-pass {ℓ κ} :
    {A : Type ℓ} {B : Type κ}
    → (v : Verdict A) (f : A → Verdict B) (b : B) → (v >>= f) ≡ pass b
    → (a : A) × (v ≡ pass a) × (f a ≡ pass b)
bind-pass (pass a) f b h = (a, refl, h)
bind-pass (reject r) f b h = absurd (cc)

pub then-pass {ℓ} :
    {B : Type ℓ}
    → (v : Verdict (Unit {0})) (w : Verdict B) (b : B) → (v >> w) ≡ pass b
    → (v ≡ pass tt) × (w ≡ pass b)
then-pass (pass _) w b h = (refl, h)
then-pass (reject r) w b h = absurd (cc)

pub need-pass {ℓ} :
    {A : Type ℓ} → (o : Option A) (r : Response) (a : A) → need o r ≡ pass a → o ≡ some a
need-pass (some b) r a h = ap some (pass-injective b a h)
need-pass none r a h = absurd (cc)
