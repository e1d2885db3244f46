-- ===== src/Grant.antt =====
-- The authority of a grant family with a keyed operation binding (src/copy_file_grant.rs;
-- src/trash_file_grant.rs and src/write_file_grant.rs hold the same text): issuing, authorizing and
-- consuming.
pub mod Token
pub mod Authorize
pub mod Lifecycle
pub mod Families
use termux_mcp_edge.Base.{
  ℕ, ◌+◌, ◌*◌, Bool, true, false, ◌&&◌, ◌||◌, not, Option, none, some, List, [], ◌∷◌, ◌++◌, length,
  take, all, Bytes, AreBytes, ◌≡◌, beq, codes, ltb, leb, ◌==◌, if◌then◌else◌, Result, ok, err,
  ◌>>=◌, ◌>>◌, ok_or, refuse_if, map_err,
}
use termux_mcp_edge.Hex.{encode_hex, decode_hex_array, is_ascii}
use termux_mcp_edge.Payload.{ParsedGrant, encode_payload, decode_payload, payload_bytes}
use termux_mcp_edge.Replay.{SharedReplayError, Call, u64_max}
use termux_mcp_edge.Replay
use termux_mcp_edge.Registry.{World, consume_at}
use termux_mcp_edge.Registry
use termux_mcp_edge.Signed.{
  Authority, GrantError, HasMacSize, Packages, RequestGrantCapability, Segments, android_volume,
  binding_mismatch, clock_rollback, configuration_invalid, copy_file, create_directory, expired,
  four_segments, future_issued, grant_ttl_seconds, grant_version, key_bytes, lifetime_exceeded,
  mac_bytes, malformed, map_replay_error, max_consumed_grants, max_grant_future_skew_seconds,
  max_grant_header_bytes, max_grant_key_id_bytes, max_grant_lifetime_seconds, missing,
  replay_capacity_exhausted, replayed, session_invalid, signature_invalid, split, state_unavailable,
  target_invalid, trash_file, unknown_key, unknown_version, valid_key_id, wire_code, write_file,
  Codec,
}
use termux_mcp_edge.Signed

-- What tells one grant module from another.
pub record Family : Type 0 where
  pub capability : RequestGrantCapability
  pub principal_domain : Bytes
  pub operation_domain : Bytes

abbrev pub payload_codec : Codec ParsedGrant
payload_codec = record { size = payload_bytes; encode = encode_payload; decode = decode_payload }

module _ (pk : Packages) (family : Family) where
  open pk use {hmac, parse_uuid, format_uuid}

  principal_mac : Bytes → Bytes → Bytes
  principal_mac key principal = hmac key (family.principal_domain ++ principal)

  unfoldable pub from_hex_key_with_capacity :
      World → Bytes → Bytes → Bytes → ℕ → World × Result GrantError Authority
  unfolding principal_mac
  from_hex_key_with_capacity w key_id key_hex secret capacity =
      if not (valid_key_id key_id)
        || not (length key_hex == key_bytes * 2)
        || length secret == 0
        || capacity == 0
      then (w, err configuration_invalid)
      else elim (decode_hex_array key_bytes key_hex) [
        | none ↦ (w, err configuration_invalid)
        | some key ↦
            let digest = principal_mac key secret in
            let code = wire_code family.capability in
            let (w', r) = Registry.shared_replay_state hmac w code key_id key digest capacity in
            (
              w',
              do
                replay ← map_err (λ _. state_unavailable) r
                ok (record {
                  key_id = key_id;
                  key = key;
                  principal_digest = digest;
                  replay = replay;
                }),
            )
      ]

  -- The session must be spelled the way the package prints it.
  unfoldable pub parse_canonical_session : Bytes → Result GrantError Bytes
  parse_canonical_session session_id = do
    parsed ← ok_or (parse_uuid session_id) session_invalid
    refuse_if (not (beq (format_uuid parsed) session_id)) session_invalid
    ok parsed

  module _ (a : Authority) where
    unfoldable pub binds_static_principal : Option Bytes → Bool
    unfolding principal_mac
    binds_static_principal none = false
    binds_static_principal (some principal) = beq (principal_mac a.key principal) a.principal_digest

    -- `target` is the posture and the target's fields, laid out by the family.
    unfoldable pub operation_binding_mac : Bytes → Bytes → Bytes → Bytes
    operation_binding_mac grant_id session target = hmac a.key (
        family.operation_domain
        ++ (grant_id ++ (a.principal_digest ++ (session ++ wire_code family.capability ∷ target))))

    unfoldable pub encode_and_sign : ParsedGrant → Bytes
    encode_and_sign grant = Signed.encode_and_sign pk payload_codec a grant

    unfoldable pub issue_at : Bytes → Bytes → Bytes → ℕ → Result GrantError Bytes
    issue_at grant_id session_id target now = do
      session ← parse_canonical_session session_id
      refuse_if (ltb u64_max (now + grant_ttl_seconds)) lifetime_exceeded
      ok (
          encode_and_sign (record {
            grant_id = grant_id;
            capability = wire_code family.capability;
            operation_binding = operation_binding_mac grant_id session target;
            issued_unix_seconds = now;
            expires_unix_seconds = now + grant_ttl_seconds;
          }))

    unfoldable pub parse_and_verify : Bytes → Result GrantError ParsedGrant
    parse_and_verify token = Signed.parse_and_verify pk payload_codec a token

    -- Everything that `consume_at` checks before it touches the replay state.
    unfoldable pub authorize : Option Bytes → Bytes → Bytes → Result GrantError ParsedGrant
    authorize token session_id target = do
      presented ← ok_or token missing
      session ← parse_canonical_session session_id
      grant ← parse_and_verify presented
      refuse_if (not (grant.capability == wire_code family.capability)) binding_mismatch
      refuse_if
          (not (beq (operation_binding_mac grant.grant_id session target) grant.operation_binding))
          binding_mismatch
      ok grant

    abbrev pub call_of : ParsedGrant → ℕ → Call
    call_of grant now = record {
      grant_id = grant.grant_id;
      issued_unix_seconds = grant.issued_unix_seconds;
      expires_unix_seconds = grant.expires_unix_seconds;
      now_unix_seconds = now;
      maximum_lifetime_seconds = max_grant_lifetime_seconds;
      maximum_future_skew_seconds = max_grant_future_skew_seconds;
    }

    unfoldable pub consume_grant_at :
        World → Option Bytes → Bytes → Bytes → ℕ → World × Result GrantError (Unit {0})
    consume_grant_at w token session_id target now = elim (authorize token session_id target) [
      | err e ↦ (w, err e)
      | ok grant ↦
          let (w', r) = consume_at w a.replay (call_of grant now) in
          (w', map_err map_replay_error r)
    ]
