-- ===== src/Common.antt =====
-- src/common.rs: errors, results, and what the program takes from other crates.
pub mod Access
pub mod Text
pub mod Authorize
pub mod Schema
pub mod Scrub
pub mod Strict
pub mod Envelope
use tekes_memory.Prelude.{ℕ, Bool, String, List, Option, none, some, ◌≡◌, refl, ap}
use tekes_memory.Json.{Value}

-- The codes of `Error(String)`, a constructor for each text that the program raises, and two ends
-- that are no results of the source.
pub data Error : Type 0 where
  invalid_argument scope_denied budget_exceeded not_found revision_conflict : Error
  idempotency_conflict source_unavailable storage_error invalid_config : Error
  unsupported_schema_version unavailable invalid_response io_error : Error
  invalid_endpoint unsupported_protocol unsupported_database_version : Error
  -- an error whose text another process has sent
  coded : String → Error
  -- a Rust panic, and a loop of the model that has run out of its fuel
  panicked exhausted : Error

pub data Result {ℓ} (A : Type ℓ) : Type ℓ where
  err : Error → Result A
  ok : A → Result A

-- `?`, an early return of an error
infixl 5 ◌>>=◌ ◌>>◌
abbrev pub ◌>>=◌ {ℓ κ} : {A : Type ℓ} {B : Type κ} → Result A → (A → Result B) → Result B
◌>>=◌ result next = elim result [ err e ↦ err e | ok a ↦ next a ]

-- The same, of a check.
abbrev pub ◌>>◌ {ℓ} : {B : Type ℓ} → Result (Unit {0}) → Result B → Result B
◌>>◌ check next = check >>= λ _. next

-- `o.ok_or_else(|| err(e))`
abbrev pub ok_or {ℓ} : {A : Type ℓ} → Option A → Error → Result A
ok_or none e = err e
ok_or (some a) e = ok a

-- An early `return Err(e)` where the test holds.
abbrev pub fail_if : Bool → Error → Result (Unit {0})
fail_if Bool.true e = err e
fail_if Bool.false e = ok tt

-- What the program calls in other crates. Nothing is known of these functions but what a
-- theorem names as a hypothesis.
pub record Env : Type 0 where
  -- `serde_json_canonicalizer::to_vec`, `serde_json::from_str`, `serde_json::to_string`
  pub canonical : Value → String
  pub from_str : String → Option Value
  pub wire_json : Value → String
  -- the hexadecimal SHA-256 of a text
  pub hash : String → String
  -- the n-th identifier that `uuid` draws
  pub uid : ℕ → String
  -- `Regex::is_match` of the pattern in `^(?:…)$`; none if the pattern does not compile
  pub pattern_match : String → String → Option Bool
  -- `Regex::is_match` of a pattern and a text, and `Regex::replace_all` of a pattern, a text and what
  -- stands for a match
  pub is_match : String → String → Bool
  pub replace_all : String → String → String → String
  -- `str::to_lowercase`, and the matches of the regular expression of `words_limited`
  pub to_lowercase : String → String
  pub word_matches : String → List String
  -- the tree that serde_json's deserializer reports for a text, with duplicate keys
  pub parse_tree : String → Option Value
  -- the HMAC of a text by a secret in hexadecimal; none if the key is refused
  pub hmac : String → String → Option String
  -- the URL-safe base64 alphabet, both ways, and a number in decimal
  pub url_encode : String → String
  pub url_decode : String → Option String
  pub decimal : ℕ → String
  -- the rows of the full-text index that match one of the terms, by rank and then identifier
  pub fts_match : List (String × String) → List String → List String
  -- the parsed files of `SCHEMAS` by name
  pub schemas : String → Option Value

-- Whether a result is an error.
abbrev pub is_ok {ℓ} : {A : Type ℓ} → Result A → Bool
is_ok (ok _) = Bool.true
is_ok (err _) = Bool.false

-- What ends well passes each of its checks.
pub ok_then {ℓ κ} :
    {A : Type ℓ} {B : Type κ}
    → (r : Result A) (f : A → Result B) (b : B) → (r >>= f) ≡ ok b
    → (a : A) × (r ≡ ok a) × (f a ≡ ok b)
ok_then (ok a) f b h = (a, refl, h)
ok_then (err e) f b h = cc

pub not_failed : (b : Bool) (e : Error) (u : Unit {0}) → fail_if b e ≡ ok u → b ≡ Bool.false
not_failed Bool.false e u h = refl
not_failed Bool.true e u h = cc

value_or {ℓ} : {A : Type ℓ} → A → Result A → A
value_or d (ok a) = a
value_or d (err e) = d

pub ok-injective {ℓ} : {A : Type ℓ} → (a b : A) → ok a ≡ ok b → a ≡ b
unfolding value_or
ok-injective a b h = ap (value_or a) h
