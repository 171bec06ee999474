-- ===== src/Client/Endpoint.antt =====
-- `validate_endpoint`, `AsyncClient::open` and `Client::open` of src/client.rs.
use tekes_memory.Prelude.{ℤ, ◌+ℤ◌, String, Option, none, some, ◌==◌, Bool, true, false, not, ◌||◌}
use tekes_memory.Json.Access.{is_some}
use tekes_memory.Common.{
  Result, ok, err, ◌>>=◌, ◌>>◌, ok_or, fail_if, invalid_endpoint, unavailable, unsupported_protocol,
}
use tekes_memory.Config.Service.{Url, is_host}

-- `parse_url` is `Url::parse`.
unfoldable pub validate_endpoint : (String → Option Url) → String → Result (Unit {0})
validate_endpoint parse_url url = do
  u ← ok_or (parse_url url) invalid_endpoint
  fail_if
      (not (u.scheme == "http")
        || not (is_host "127.0.0.1" "localhost" u.host)
        || not (u.path == "/mcp")
        || not (u.username == "")
        || is_some u.password
        || is_some u.query
        || is_some u.fragment)
      invalid_endpoint

-- What rmcp's handshake gives in time: nothing, or the version of the peer if it has told one.
pub data Handshake : Type 0 where
  refused : Handshake
  connected_to : Option String → Handshake

abbrev version_of : Handshake → Result (Option String)
version_of refused = err unavailable
version_of (connected_to v) = ok v

abbrev is_protocol : Option String → Bool
is_protocol none = false
is_protocol (some v) = v == "2025-11-25"

unfoldable pub open_service : (String → Option Url) → String → Handshake → Result (Unit {0})
unfolding validate_endpoint
open_service parse_url url handshake = do
  validate_endpoint parse_url url
  version ← version_of handshake
  fail_if (not (is_protocol version)) unsupported_protocol

-- `Client`: whether the sender of its queue is there and the reactor reads the queue, and the time
-- when its requests end.
pub record Client : Type 0 where
  pub sending : Bool
  pub running : Bool
  pub deadline : ℤ

-- `handshake` is none where the reactor does not report in time.
unfoldable pub open_client :
    (String → Option Url) → String → ℤ → ℤ → Option Handshake → Result Client
unfolding validate_endpoint open_service
open_client parse_url url now timeout handshake = do
  validate_endpoint parse_url url
  h ← ok_or handshake unavailable
  open_service parse_url url h
  ok (record { sending = true; running = true; deadline = now +ℤ timeout })
