-- ===== src/AndroidVolume.antt =====
-- The grants that allow an Android volume to be set (src/android_volume_grant.rs), and the streams
-- that they name (src/android_volume_control.rs). Like the grants of directories they hold the
-- principal, the session and the target themselves. A signed level is kept as its 64-bit pattern.
pub mod Payload
pub mod Authorize
pub mod Lifecycle
pub mod Streams
use termux_mcp_edge.Base.{
  ℕ, ◌+◌, ◌^◌, ◌<◌, Bool, true, ◌||◌, not, List, [], ◌∷◌, ◌++◌, Bytes, beq, codes, ltb, ◌==◌,
  Option, some, none, is_some, if◌then◌else◌, to_be_bytes, from_be_bytes, Result, ok, err, ◌>>=◌,
  ◌>>◌, ok_or, refuse_if, map_err,
}
use termux_mcp_edge.Replay.{Call, u64_max}
use termux_mcp_edge.Registry.{World}
use termux_mcp_edge.Registry
use termux_mcp_edge.Signed.{
  GrantError, missing, target_invalid, binding_mismatch, lifetime_exceeded, Packages, Authority,
  RequestGrantCapability, android_volume, wire_code, map_replay_error, grant_ttl_seconds,
  max_grant_lifetime_seconds, max_grant_future_skew_seconds, max_consumed_grants, Codec,
}
use termux_mcp_edge.Signed
use termux_mcp_edge.Signed.Schema.{Schema, schema_codec, field}
use termux_mcp_edge.Grant.{Family, parse_canonical_session}
use termux_mcp_edge.Grant

pub data AndroidVolumeStreamName : Type 0 where
  alarm call music notification ring system : AndroidVolumeStreamName

abbrev pub stream_text : AndroidVolumeStreamName → Bytes
stream_text alarm = codes "alarm"
stream_text call = codes "call"
stream_text music = codes "music"
stream_text notification = codes "notification"
stream_text ring = codes "ring"
stream_text system = codes "system"

abbrev pub all_streams : List AndroidVolumeStreamName
all_streams = alarm ∷ call ∷ music ∷ notification ∷ ring ∷ system ∷ []

abbrev pub grant_code : AndroidVolumeStreamName → ℕ
grant_code alarm = 1
grant_code call = 2
grant_code music = 3
grant_code notification = 4
grant_code ring = 5
grant_code system = 6

unfoldable pub from_grant_code : ℕ → Option AndroidVolumeStreamName
from_grant_code code =
    if code == 1
    then some alarm
    else if code == 2
    then some call
    else if code == 3
    then some music
    else if code == 4
    then some notification
    else if code == 5
    then some ring
    else if code == 6
    then some system
    else none

-- `ALL.into_iter().find(|stream| stream.as_str() == value)`.
unfoldable pub find_stream : Bytes → List AndroidVolumeStreamName → Option AndroidVolumeStreamName
find_stream value [] = none
find_stream value (stream ∷ streams) =
    let rest = find_stream value streams in
    if beq (stream_text stream) value then some stream else rest

abbrev pub parse_stream : Bytes → Option AndroidVolumeStreamName
parse_stream value = find_stream value all_streams

abbrev pub android_volume_family : Family
android_volume_family = record {
  capability = android_volume;
  principal_domain = codes "termux-mcp:android-volume-principal:v1" ++ 0 ∷ [];
  operation_domain = [];
}

pub record AndroidVolumeGrantTarget : Type 0 where
  pub stream : AndroidVolumeStreamName
  pub level : ℕ

-- `AndroidVolumeGrantTarget::new`: a negative level is refused.
unfoldable new_target : AndroidVolumeStreamName → ℕ → Result GrantError AndroidVolumeGrantTarget
new_target stream level =
    if ltb level (2 ^ 63)
    then ok (record { stream = stream; level = level })
    else err target_invalid

pub record ParsedGrant : Type 0 where
  pub grant_id : Bytes
  pub principal_digest : Bytes
  pub session_id : Bytes
  pub capability : ℕ
  pub stream : ℕ
  pub level : ℕ
  pub posture : ℕ
  pub issued_unix_seconds : ℕ
  pub expires_unix_seconds : ℕ

-- The calls of `put`, in their order.
abbrev pub encode_payload : ParsedGrant → List Bytes
encode_payload g =
    g.grant_id
    ∷ g.principal_digest
    ∷ g.session_id
    ∷ (g.capability ∷ [])
    ∷ (g.stream ∷ [])
    ∷ to_be_bytes 8 g.level
    ∷ (g.posture ∷ [])
    ∷ to_be_bytes 8 g.issued_unix_seconds
    ∷ to_be_bytes 8 g.expires_unix_seconds
    ∷ []

-- What is read of the fields, in the same order.
abbrev pub decode_payload : List Bytes → ParsedGrant
decode_payload fields = record {
  grant_id = field 0 fields;
  principal_digest = field 1 fields;
  session_id = field 2 fields;
  capability = from_be_bytes (field 3 fields);
  stream = from_be_bytes (field 4 fields);
  level = from_be_bytes (field 5 fields);
  posture = from_be_bytes (field 6 fields);
  issued_unix_seconds = from_be_bytes (field 7 fields);
  expires_unix_seconds = from_be_bytes (field 8 fields);
}

-- 91 bytes in all, of which the stream's must be a code.
abbrev pub payload_schema : Schema ParsedGrant
payload_schema = record {
  widths = 16 ∷ 32 ∷ 16 ∷ 1 ∷ 1 ∷ 8 ∷ 1 ∷ 8 ∷ 8 ∷ [];
  fields_of = encode_payload;
  grant_of = decode_payload;
  accepts = λ fields. is_some (from_grant_code (from_be_bytes (field 4 fields)));
}

abbrev pub payload_codec : Codec ParsedGrant
payload_codec = schema_codec payload_schema

abbrev pub mutating_posture : ℕ
mutating_posture = 1

-- The methods of `AndroidVolumeGrantAuthority`.
module _ (pk : Packages) where
  unfoldable pub from_hex_key : World → Bytes → Bytes → Bytes → World × Result GrantError Authority
  from_hex_key w key_id key_hex secret =
      Grant.from_hex_key_with_capacity pk android_volume_family w key_id key_hex secret
        max_consumed_grants

  module _ (a : Authority) where
    abbrev pub binds_static_principal : Option Bytes → Bool
    binds_static_principal principal =
        Grant.binds_static_principal pk android_volume_family a principal

    unfoldable pub encode_and_sign : ParsedGrant → Bytes
    encode_and_sign grant = Signed.encode_and_sign pk payload_codec a grant

    unfoldable pub parse_and_verify : Bytes → Result GrantError ParsedGrant
    parse_and_verify token = Signed.parse_and_verify pk payload_codec a token

    -- The grant that is issued for a parsed session.
    abbrev pub issued : Bytes → Bytes → AndroidVolumeGrantTarget → ℕ → ParsedGrant
    issued grant_id session target now = record {
      grant_id = grant_id;
      principal_digest = a.principal_digest;
      session_id = session;
      capability = wire_code android_volume;
      stream = grant_code target.stream;
      level = target.level;
      posture = mutating_posture;
      issued_unix_seconds = now;
      expires_unix_seconds = now + grant_ttl_seconds;
    }

    -- Here the lifetime is computed before the session is parsed.
    unfoldable pub issue_at : Bytes → Bytes → AndroidVolumeGrantTarget → ℕ → Result GrantError Bytes
    issue_at grant_id session_id target now = do
      refuse_if (ltb u64_max (now + grant_ttl_seconds)) lifetime_exceeded
      session ← parse_canonical_session pk android_volume_family session_id
      ok (encode_and_sign (issued grant_id session target now))

    abbrev pub is_mismatch : ParsedGrant → Bytes → AndroidVolumeGrantTarget → Bool
    is_mismatch grant session target =
        not (beq grant.principal_digest a.principal_digest)
        || not (beq grant.session_id session)
        || not (grant.capability == wire_code android_volume)
        || not (grant.stream == grant_code target.stream)
        || not (grant.level == target.level)
        || not (grant.posture == mutating_posture)

    -- Everything that `consume_at` checks before it touches the replay state.
    unfoldable pub authorize :
        Option Bytes → Bytes → AndroidVolumeGrantTarget → Result GrantError ParsedGrant
    authorize token session_id target = do
      presented ← ok_or token missing
      session ← parse_canonical_session pk android_volume_family session_id
      grant ← parse_and_verify presented
      refuse_if (is_mismatch grant session target) binding_mismatch
      ok grant

    abbrev pub call_of : ParsedGrant → ℕ → Call
    call_of grant now = record {
      grant_id = grant.grant_id;
      issued_unix_seconds = grant.issued_unix_seconds;
      expires_unix_seconds = grant.expires_unix_seconds;
      now_unix_seconds = now;
      maximum_lifetime_seconds = max_grant_lifetime_seconds;
      maximum_future_skew_seconds = max_grant_future_skew_seconds;
    }

    unfoldable pub consume_at :
        World
        → Option Bytes
        → Bytes
        → AndroidVolumeGrantTarget
        → ℕ
        → World × Result GrantError (Unit {0})
    consume_at w token session_id target now = elim (authorize token session_id target) [
      | err e ↦ (w, err e)
      | ok grant ↦
          let (w', r) = Registry.consume_at w a.replay (call_of grant now) in
          (w', map_err map_replay_error r)
    ]
