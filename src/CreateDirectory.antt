-- ===== src/CreateDirectory.antt =====
-- The grants that allow a directory to be made (src/create_directory_grant.rs). Their payload holds
-- the principal, the session and the target themselves, where the other file grants hold one keyed
-- binding; keys, sessions and the token around the payload are the shared ones.
pub mod Payload
pub mod Authorize
pub mod Lifecycle
use termux_mcp_edge.Base.{
  ℕ, ◌+◌, Bool, true, ◌||◌, not, List, [], ◌∷◌, ◌++◌, Bytes, beq, codes, ltb, ◌==◌, Option, some,
  none, to_be_bytes, from_be_bytes, Result, ok, err, ◌>>=◌, ◌>>◌, ok_or, refuse_if, map_err,
}
use termux_mcp_edge.Replay.{Call, u64_max}
use termux_mcp_edge.Registry.{World}
use termux_mcp_edge.Registry
use termux_mcp_edge.Signed.{
  GrantError, missing, binding_mismatch, lifetime_exceeded, Packages, Authority,
  RequestGrantCapability, create_directory, wire_code, map_replay_error, grant_ttl_seconds,
  max_grant_lifetime_seconds, max_grant_future_skew_seconds, max_consumed_grants, Codec,
}
use termux_mcp_edge.Signed
use termux_mcp_edge.Signed.Schema.{Schema, schema_codec, field}
use termux_mcp_edge.Grant.{Family, parse_canonical_session}
use termux_mcp_edge.Grant
use termux_mcp_edge.CopyFile.{path_message_from}

abbrev pub target_digest_domain : Bytes
target_digest_domain = codes "termux-mcp:create-directory-target:v1" ++ 0 ∷ []

-- These grants have no keyed binding, so no domain for one.
abbrev pub create_directory_family : Family
create_directory_family = record {
  capability = create_directory;
  principal_domain = codes "termux-mcp:static-principal:v1" ++ 0 ∷ [];
  operation_domain = [];
}

pub record CreateDirectoryGrantTarget : Type 0 where
  pub root_device : ℕ
  pub root_inode : ℕ
  pub target_digest : Bytes

unfoldable pub from_normalized_components :
    Packages → ℕ → ℕ → List Bytes → Result GrantError CreateDirectoryGrantTarget
from_normalized_components pk root_device root_inode components = do
  message ← path_message_from target_digest_domain 0 components
  ok (record {
    root_device = root_device;
    root_inode = root_inode;
    target_digest = pk.sha256 message;
  })

pub record ParsedGrant : Type 0 where
  pub grant_id : Bytes
  pub principal_digest : Bytes
  pub session_id : Bytes
  pub capability : ℕ
  pub root_device : ℕ
  pub root_inode : ℕ
  pub target_digest : Bytes
  pub posture : ℕ
  pub issued_unix_seconds : ℕ
  pub expires_unix_seconds : ℕ

-- The calls of `put`, in their order.
abbrev pub encode_payload : ParsedGrant → List Bytes
encode_payload g =
    g.grant_id
    ∷ g.principal_digest
    ∷ g.session_id
    ∷ (g.capability ∷ [])
    ∷ to_be_bytes 8 g.root_device
    ∷ to_be_bytes 8 g.root_inode
    ∷ g.target_digest
    ∷ (g.posture ∷ [])
    ∷ to_be_bytes 8 g.issued_unix_seconds
    ∷ to_be_bytes 8 g.expires_unix_seconds
    ∷ []

-- What is read of the fields, in the same order.
abbrev pub decode_payload : List Bytes → ParsedGrant
decode_payload fields = record {
  grant_id = field 0 fields;
  principal_digest = field 1 fields;
  session_id = field 2 fields;
  capability = from_be_bytes (field 3 fields);
  root_device = from_be_bytes (field 4 fields);
  root_inode = from_be_bytes (field 5 fields);
  target_digest = field 6 fields;
  posture = from_be_bytes (field 7 fields);
  issued_unix_seconds = from_be_bytes (field 8 fields);
  expires_unix_seconds = from_be_bytes (field 9 fields);
}

-- 130 bytes in all.
abbrev pub payload_schema : Schema ParsedGrant
payload_schema = record {
  widths = 16 ∷ 32 ∷ 16 ∷ 1 ∷ 8 ∷ 8 ∷ 32 ∷ 1 ∷ 8 ∷ 8 ∷ [];
  fields_of = encode_payload;
  grant_of = decode_payload;
  accepts = λ fields. true;
}

abbrev pub payload_codec : Codec ParsedGrant
payload_codec = schema_codec payload_schema

abbrev pub mutating_posture : ℕ
mutating_posture = 1

-- The methods of `CreateDirectoryGrantAuthority`.
module _ (pk : Packages) where
  unfoldable pub from_hex_key : World → Bytes → Bytes → Bytes → World × Result GrantError Authority
  from_hex_key w key_id key_hex secret =
      Grant.from_hex_key_with_capacity pk create_directory_family w key_id key_hex secret
        max_consumed_grants

  module _ (a : Authority) where
    abbrev pub binds_static_principal : Option Bytes → Bool
    binds_static_principal principal =
        Grant.binds_static_principal pk create_directory_family a principal

    unfoldable pub encode_and_sign : ParsedGrant → Bytes
    encode_and_sign grant = Signed.encode_and_sign pk payload_codec a grant

    unfoldable pub parse_and_verify : Bytes → Result GrantError ParsedGrant
    parse_and_verify token = Signed.parse_and_verify pk payload_codec a token

    -- The grant that is issued for a parsed session.
    abbrev pub issued : Bytes → Bytes → CreateDirectoryGrantTarget → ℕ → ParsedGrant
    issued grant_id session target now = record {
      grant_id = grant_id;
      principal_digest = a.principal_digest;
      session_id = session;
      capability = wire_code create_directory;
      root_device = target.root_device;
      root_inode = target.root_inode;
      target_digest = target.target_digest;
      posture = mutating_posture;
      issued_unix_seconds = now;
      expires_unix_seconds = now + grant_ttl_seconds;
    }

    unfoldable pub issue_at :
        Bytes → Bytes → CreateDirectoryGrantTarget → ℕ → Result GrantError Bytes
    issue_at grant_id session_id target now = do
      session ← parse_canonical_session pk create_directory_family session_id
      refuse_if (ltb u64_max (now + grant_ttl_seconds)) lifetime_exceeded
      ok (encode_and_sign (issued grant_id session target now))

    abbrev pub is_mismatch : ParsedGrant → Bytes → CreateDirectoryGrantTarget → Bool
    is_mismatch grant session target =
        not (beq grant.principal_digest a.principal_digest)
        || not (beq grant.session_id session)
        || not (grant.capability == wire_code create_directory)
        || not (grant.root_device == target.root_device)
        || not (grant.root_inode == target.root_inode)
        || not (beq grant.target_digest target.target_digest)
        || not (grant.posture == mutating_posture)

    -- Everything that `consume_at` checks before it touches the replay state.
    unfoldable pub authorize :
        Option Bytes → Bytes → CreateDirectoryGrantTarget → Result GrantError ParsedGrant
    authorize token session_id target = do
      presented ← ok_or token missing
      session ← parse_canonical_session pk create_directory_family session_id
      grant ← parse_and_verify presented
      refuse_if (is_mismatch grant session target) binding_mismatch
      ok grant

    abbrev pub call_of : ParsedGrant → ℕ → Call
    call_of grant now = record {
      grant_id = grant.grant_id;
      issued_unix_seconds = grant.issued_unix_seconds;
      expires_unix_seconds = grant.expires_unix_seconds;
      now_unix_seconds = now;
      maximum_lifetime_seconds = max_grant_lifetime_seconds;
      maximum_future_skew_seconds = max_grant_future_skew_seconds;
    }

    unfoldable pub consume_at :
        World
        → Option Bytes
        → Bytes
        → CreateDirectoryGrantTarget
        → ℕ
        → World × Result GrantError (Unit {0})
    consume_at w token session_id target now = elim (authorize token session_id target) [
      | err e ↦ (w, err e)
      | ok grant ↦
          let (w', r) = Registry.consume_at w a.replay (call_of grant now) in
          (w', map_err map_replay_error r)
    ]
