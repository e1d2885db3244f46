-- ===== src/Lib.antt =====
-- Termux MCP Edge: the way of a request to the `/mcp` route through its guards, the request-grant
-- authorities and the replay protection under them, the bounded session store of the MCP transport,
-- its JSON-RPC envelopes, capability grants, the policies on writes and commands, and audit events.
--
-- A request passes the authentication (src/auth.rs), the allow-lists of Host and Origin values
-- (src/transport_security.rs) and the request limits (src/request_limits.rs). Its body is a JSON-RPC
-- message (src/json_rpc.rs) of a session (src/mcp_session.rs), or a stateless one whose headers repeat the name
-- that it routes to (src/mcp_transport.rs). Before an operation that changes files
-- or volumes it presents a grant: a signed token of a family (src/request_grant_capability.rs) that an
-- authority (src/copy_file_grant.rs, src/trash_file_grant.rs, src/write_file_grant.rs,
-- src/create_directory_grant.rs, src/android_volume_grant.rs) issued for one session and one target.
-- The authority parses and verifies the token, compares its binding with the operation, and has the
-- grant consumed in the replay state that a process-global registry (src/grant_replay.rs) gives to
-- equivalent authorities. src/write_policy.rs and src/command_policy.rs decide on writes and command
-- profiles; what they decide becomes an event of src/audit.rs, which folds events into counters.
-- src/capability_token.rs decides on high-impact capability grants, apart from these.
--
-- * Replay models `SharedReplayState` of src/grant_replay.rs: `consume`, whose body is split into
--   `consume_locked`, `check_window` and `claim`, and `require_capacity`. A mutex is held throughout a
--   call, so concurrent callers are a sequence of calls; `poisoned` is a poisoned mutex.
-- * Registry models `ReplayRegistry`, `resolve_locked`, `shared_replay_state` and `replay_namespace`. An
--   `Arc` is an address of a heap, so that handles alias. An `Action` is a lock taken by some authority.
-- * Hex and Payload model `encode_hex`, `decode_hex_array`, `encode_payload`, `decode_payload`, `put` and
--   `take_array` of src/copy_file_grant.rs. Payload.Fields lays out fields of fixed widths.
-- * Signed models what the five grant files share word for word: their errors and constants, `Authority`
--   over the packages' functions, session texts, and a token of prefix, key identifier, payload and
--   signature, over a `Codec` of payloads whose law is `IsCodec`. Signed.Schema gives such a codec for a
--   list of fields. A codec of each family is an instance.
-- * Grant models `CopyFileGrantAuthority` over any family's domains and target bytes:
--   `from_hex_key_with_capacity`, `binds_static_principal`, `issue_at`, `consume_at` (here
--   `consume_grant_at`, its checks before the replay state as `authorize`), `encode_and_sign`,
--   `operation_binding_mac` and `parse_and_verify`.
-- * CopyFile, TrashFile and WriteFile model the targets of the three families whose token carries a MAC of
--   the operation, the digests of their paths, and the fields that `operation_binding_mac` feeds. Their
--   authorities have the same text and are instances of Grant.
-- * CreateDirectory and AndroidVolume model the two families whose token carries the target's own fields:
--   the payload of each, `issue_at`, `consume_at` with its checks as `authorize`, and the volume streams.
-- * Families puts the five families side by side: an operation of any of them, with the `authorize` and
--   the `consume_at` of its authority.
-- * Auth models src/auth.rs: the policy, `extract_bearer_token`, `constant_time_eq`,
--   `connection_matches_boundary` and `require_mcp_auth`.
-- * Transport models src/transport_security.rs: `normalize_authority` and what it calls, `normalize_origin`,
--   the policy's constructors, `validate_request` and `validate_origin`.
-- * Routing models, of src/mcp_transport.rs, `single_header_value`, `bounded_visible_header` and
--   `stateless_name_header` with `decode_canonical_padded_base64`, the loop's body as `decode_chunk`, and
--   UTF-8 as `String::from_utf8` takes it. The rest of the transport is not modelled.
-- * RequestLimits models src/request_limits.rs: the bounds on a configuration, the declared length of a
--   body, and `enforce_mcp_request_limits` as `enter` and `leave` around the request it runs.
-- * WritePolicy and CommandPolicy model src/write_policy.rs and src/command_policy.rs: the table of
--   profiles, the decisions and their audit events. Audit models the events and `AuditCounters`.
-- * Session models `McpSessionStore` of src/mcp_session.rs: `create_at`, `phase_at`, `activate_at`,
--   `terminate_at`, `record_sse_response_at`, `replay_sse_after_at` and `prune_expired`.
-- * JsonRpc models src/json_rpc.rs: `validate_object`, `validate_request_or_notification`,
--   `validate_response` (whose match on result and error is `check_outcome`) and
--   `parse_incoming_message`, with serde_json's parser as an argument and its `Value` as a data type that
--   tells integers from other numbers.
-- * Capability models src/capability_token.rs: `validate_label`, the constructors of requirements and
--   grants, and `evaluate_capability_grant`.
-- * Base holds lists, byte strings and texts, bitwise operators, big-endian words, association lists with
--   distinct keys, options and results over the native numbers. Tests holds concrete runs.
--
-- HMAC-SHA-256, SHA-256 and the UUID text format belong to packages: they are the fields of `Packages`,
-- and the theorems that need it take the size of an HMAC, the length of a UUID or the absence of a
-- collision between two messages as hypotheses. How the standard library reads and prints an IP address is
-- the record `Addresses`. A header's value comes as its text, where `to_str` gives one, and a socket address
-- by its octets, port and, for IPv6, flow information and scope. tokio's semaphore is the number of its free permits. Random identifiers are arguments: a
-- grant's identifier is one, and the loops that draw session and stream identifiers take a list of
-- candidates, `none` standing for a list that was too short; with more distinct candidates than live
-- sessions it is not. Texts are lists of byte codes, and a map keeps its keys distinct. Times are natural
-- numbers, seconds for grants and nanoseconds for sessions and timeouts; `u64` arithmetic keeps its checked
-- and saturating forms, the counters of audit events wrap as in the release profile, and the signed fields of a file's identity are their 64-bit patterns. A panic of the
-- eviction loop is `none` too. Two functions run on fuel: `decimal`, which has five digits for a `u16` port,
-- enough for every port, and `constant_time_eq`, whose rounds are those of the source's loop. Every other
-- loop is recursion on a list.
--
-- Not modelled: reading the clock and Debug formatting; the HTTP transport apart from the guards and headers
-- above, and the bodies of its responses; the filesystem tools, bounded processes, the command backend, Android
-- providers, the configuration, errors and status, and the program's entry, which are mostly system calls.
pub mod Base
pub mod Replay
pub mod Registry
pub mod Hex
pub mod Payload
pub mod Signed
pub mod Grant
pub mod CopyFile
pub mod TrashFile
pub mod WriteFile
pub mod Audit
pub mod WritePolicy
pub mod CommandPolicy
pub mod Auth
pub mod Transport
pub mod Routing
pub mod RequestLimits
pub mod CreateDirectory
pub mod AndroidVolume
pub mod Families
pub mod Session
pub mod JsonRpc
pub mod Capability
pub mod Tests
