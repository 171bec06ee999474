-- ===== src/Lib.antt =====
-- A model of TekesMemory, and what holds of it.
--
-- TekesMemory keeps memory records for agents in an SQLite database behind an MCP service. The
-- service (src/server.rs) authenticates a request by its configuration (src/config.rs), keeps
-- sessions, and passes a tool call under a mutex to the store (src/store.rs), which checks the
-- principal and the arguments (src/common.rs), reads or writes its tables (src/schema.sql) in a
-- transaction, and answers. Between requests it runs rounds of maintenance. A host that invalidates
-- a source makes the store erase what derives from it. A client (src/client.rs) calls the service;
-- the adapter (src/adapter.rs) uses it to hand over what a host's ledger shows of an event.
--
-- Prelude: shared names, Boolean tests, lists measured by native numbers, integers.
-- Json: serde_json's `Value`, with its accessors (Json/Access) and its objects (Json/Edit).
-- Common: src/common.rs. Common/Access has `text` and `array`, Common/Authorize `authorize`,
--   Common/Schema `validate`, Common/Scrub `scrub`, Common/Strict `Strict` and `decode`,
--   Common/Envelope the size checks of results and `normalize_initialize`.
-- Store: src/store.rs. Store/Tables has the tables as lists of rows; Store/Exec the operations:
--   functions from the state, which is the database and the number of identifiers drawn, to a
--   result or an error and a state, with transactions. Store/Words and Store/Hit have the terms and
--   the excerpts, Store/Rows and Store/Put the reading and writing of rows, Store/Write `save` and
--   `correct`, Store/Facts `reconcile_keys`, Store/Lineage `clear_lineage_dependents`, Store/Erase
--   `erase` and `forget`, Store/Derived and Store/Observe `observe`, Store/Maintain `maintain`,
--   Store/Read `get`, Store/Page, Store/Cursor and Store/Search `search`, Store/Open `Store::open`,
--   Store/Admit and Store/Call `call_with_effect` and `reconcile_effect`.
-- Config: src/config.rs. Config/Tools has `tools_for`, Config/Service `service_config` and
--   `adapter_config`.
-- Server: src/server.rs. Server/Http has requests, responses and the verdicts of checks,
--   Server/Auth `Inner::auth`, Server/Guard the checks of `handle`, Server/Finish the response of
--   rmcp as one JSON document, Server/Tools `call_tool` and `list_tools`, Server/State the
--   shared state, Server/World its steps: one of `next` for each stretch of `handle` that no other
--   request divides.
-- Client: src/client.rs. Client/Endpoint has `validate_endpoint` and the opening, Client/Queue
--   the requests, Client/Stdio the input loop of `stdio`.
-- Adapter: src/adapter.rs. Adapter/Rows has `texts`, `visible` and the rows that `prefix` reads,
--   Adapter/Observation the evidence and the keys, Adapter/Handle the arguments of
--   `memory.observe`, Adapter/Query the checks of a request and the query of `context.prepare`.
-- Proofs: Store/Keeps has the rules for invariants of operations and Store/Inversion those for
--   successful runs; Store/Reads, Store/Stable and Store/Tombstones apply them to every operation;
--   Store/History runs calls and maintenance in any order; Store/Atomic, Store/Replay,
--   Store/Answers, Store/Effects and Store/Keyed speak of calls, Store/Invalidation of cleared sources,
--   Store/Lineage/Termination and Store/Erase/Termination of the fuel of two loops. The modules
--   below those of Config, Server, Client and Adapter hold what is proved of them; Client/Call
--   joins the client, the server and the store. Tests has concrete runs.
--
-- Other crates are parameters, the fields of `Env` (Common.antt): the canonical form, the JSON
-- parser, SHA-256, HMAC, base64, regular expressions, lower case, identifiers, the ranking of the
-- full-text index, and the parsed schema files. The parser of URLs, rmcp, the decoding of UTF-8 and
-- the pipes are arguments of the definitions that use them. A theorem names what it asks of them.
--
-- Choices. The clock is read once for an operation. A statement other than COMMIT, and than the
-- checkpoint at the end of `maintain`, fails only by a constraint of its table, and identifiers that
-- are drawn do not collide with those of a table. A SELECT without ORDER BY reads rows in the order
-- of insertion. A vector that is used as a stack is a list with its end first. The arithmetic of
-- expiry times does not overflow. A float stands by its bits. A panic of the source is the error `panicked`, and a
-- loop of the model that has no fuel left is the error `exhausted`. Fuel is spent by `lineage_loop`
-- on new keys alone and is one more than twice the observations, which hold two keys each at most;
-- by `erase_loop` on new identifiers alone, and is the number of the identifiers asked for and of
-- the dependencies; by `bisect` on halvings, and is one more than the characters of the passage.
--
-- The server: an answer of rmcp and all that `handle` does of it is one step, so that the slot of a
-- request is free when rmcp has answered and not when the body is read. The clock, the
-- configuration and the number of rmcp's sessions are read in the step that uses them. The values
-- of headers are texts, and a header stands once. A panic under the mutex of the store poisons it;
-- what comes after such a panic is not modelled.
--
-- Not modelled: `setup` of src/config.rs, the start and the stop of `serve` and its choice of the
-- sessions to close, the relay and the output of `stdio`, the files of src/adapter.rs and its
-- search, and src/main.rs, which are I/O for the most part; rmcp; the files of schemas/, which are
-- data.
pub mod Prelude
pub mod Json
pub mod Common
pub mod Store
pub mod Config
pub mod Server
pub mod Adapter
pub mod Client
pub mod Tests
