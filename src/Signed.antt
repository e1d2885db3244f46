-- ===== src/Signed.antt =====
-- What the grant modules share (src/copy_file_grant.rs and its four siblings hold the same text):
-- errors, limits, key identifiers, and the signed token around a payload. HMAC-SHA-256, the UUID
-- text format and the random identifier of a new grant are the packages'; they come as arguments.
pub mod Split
pub mod Token
pub mod Families
pub mod Schema
use termux_mcp_edge.Base.{
  ℕ, ◌+◌, ◌*◌, ◌^◌, ◌≤◌, ◌<◌, Bool, true, false, ◌&&◌, ◌||◌, not, Option, none, some, List, [], ◌∷◌,
  ◌++◌, length, take, all, Bytes, AreBytes, ◌≡◌, beq, codes, ltb, leb, ◌==◌, if◌then◌else◌, Result,
  ok, err, ◌>>=◌, ◌>>◌, ok_or, refuse_if,
}
use termux_mcp_edge.Hex.{encode_hex, decode_hex_array, is_ascii}
use termux_mcp_edge.Replay.{SharedReplayError}

-- The wire codes of the capability families.
pub data RequestGrantCapability : Type 0 where
  create_directory write_file android_volume copy_file trash_file : RequestGrantCapability

abbrev pub wire_code : RequestGrantCapability → ℕ
wire_code create_directory = 1
wire_code write_file = 2
wire_code android_volume = 3
wire_code copy_file = 4
wire_code trash_file = 5

pub data GrantError : Type 0 where
  configuration_invalid target_invalid session_invalid missing malformed unknown_version :
      GrantError
  unknown_key signature_invalid expired future_issued lifetime_exceeded : GrantError
  binding_mismatch replayed clock_rollback replay_capacity_exhausted state_unavailable : GrantError

abbrev pub reason_code : GrantError → Bytes
reason_code configuration_invalid = codes "capability_configuration_invalid"
reason_code target_invalid = codes "capability_target_invalid"
reason_code session_invalid = codes "capability_session_invalid"
reason_code missing = codes "capability_grant_missing"
reason_code malformed = codes "capability_grant_malformed"
reason_code unknown_version = codes "capability_grant_version_unknown"
reason_code unknown_key = codes "capability_grant_key_unknown"
reason_code signature_invalid = codes "capability_grant_signature_invalid"
reason_code expired = codes "capability_grant_expired"
reason_code future_issued = codes "capability_grant_future_issued"
reason_code lifetime_exceeded = codes "capability_grant_lifetime_exceeded"
reason_code binding_mismatch = codes "capability_grant_binding_mismatch"
reason_code replayed = codes "capability_grant_replayed"
reason_code clock_rollback = codes "capability_clock_rollback"
reason_code replay_capacity_exhausted = codes "capability_replay_capacity_exhausted"
reason_code state_unavailable = codes "capability_state_unavailable"

abbrev pub map_replay_error : SharedReplayError → GrantError
map_replay_error SharedReplayError.expired = expired
map_replay_error SharedReplayError.future_issued = future_issued
map_replay_error SharedReplayError.lifetime_exceeded = lifetime_exceeded
map_replay_error SharedReplayError.replayed = replayed
map_replay_error SharedReplayError.clock_rollback = clock_rollback
map_replay_error SharedReplayError.capacity_exhausted = replay_capacity_exhausted
map_replay_error SharedReplayError.state_unavailable = state_unavailable

abbrev pub grant_version : Bytes
grant_version = codes "v1"

abbrev pub grant_ttl_seconds : ℕ
grant_ttl_seconds = 60

abbrev pub max_grant_lifetime_seconds : ℕ
max_grant_lifetime_seconds = 120

abbrev pub max_grant_future_skew_seconds : ℕ
max_grant_future_skew_seconds = 5

abbrev pub max_grant_header_bytes : ℕ
max_grant_header_bytes = 384

abbrev pub max_grant_key_id_bytes : ℕ
max_grant_key_id_bytes = 32

abbrev pub key_bytes : ℕ
key_bytes = 32

abbrev pub mac_bytes : ℕ
mac_bytes = 32

abbrev pub max_consumed_grants : ℕ
max_consumed_grants = 4096

abbrev is_key_id_byte : ℕ → Bool
is_key_id_byte b =
    (leb b'a' b && leb b b'z') || (leb b'0' b && leb b b'9') || b == b'-' || b == b'_'

unfoldable pub valid_key_id : Bytes → Bool
valid_key_id key_id =
    not (length key_id == 0)
    && leb (length key_id) max_grant_key_id_bytes
    && all is_key_id_byte key_id

abbrev grow : ℕ → List Bytes → List Bytes
grow b [] = (b ∷ []) ∷ []
grow b (piece ∷ pieces) = (b ∷ piece) ∷ pieces

-- `str::split`: the pieces of a text between the separators.
unfoldable pub split : ℕ → Bytes → List Bytes
split separator [] = [] ∷ []
split separator (c ∷ s) =
    let rest = split separator s in if c == separator then [] ∷ rest else grow c rest

pub record Segments : Type 0 where
  pub version : Bytes
  pub key_id : Bytes
  pub payload_hex : Bytes
  pub signature_hex : Bytes

-- Four calls of `segments.next()`, and a fifth that must find nothing.
abbrev pub four_segments : List Bytes → Option Segments
four_segments (v ∷ k ∷ p ∷ s ∷ []) =
    some (record { version = v; key_id = k; payload_hex = p; signature_hex = s })
four_segments _ = none

-- The operations of the packages. `parse_uuid` and `format_uuid` are `Uuid::parse_str` followed by
-- `as_bytes`, and `Uuid::to_string`.
pub record Packages : Type 0 where
  pub hmac : Bytes → Bytes → Bytes
  pub sha256 : Bytes → Bytes
  pub parse_uuid : Bytes → Option Bytes
  pub format_uuid : Bytes → Bytes

-- An HMAC-SHA-256 is a string of 32 bytes.
abbrev pub HasMacSize : Packages → Type 0
HasMacSize pk =
    (key message : Bytes)
    → (length (pk.hmac key message) ≡ mac_bytes) × AreBytes (pk.hmac key message)

pub record Authority : Type 0 where
  pub key_id : Bytes
  pub key : Bytes
  pub principal_digest : Bytes
  pub replay : ℕ

-- How a family lays out the payload of its grants, in a number of bytes.
pub record Codec (G : Type 0) : Type 0 where
  pub size : ℕ
  pub encode : G → Bytes
  pub decode : Bytes → Option G

unfoldable pub signed_text : Authority → Bytes → Bytes
signed_text a payload_hex = grant_version ++ (b'.' ∷ a.key_id ++ (b'.' ∷ payload_hex))

module _ (pk : Packages) {G : Type 0} (codec : Codec G) (a : Authority) where
  open pk use {hmac}

  unfoldable pub encode_and_sign : G → Bytes
  encode_and_sign grant =
      let signed = signed_text a (encode_hex (codec.encode grant)) in
      signed ++ (b'.' ∷ encode_hex (hmac a.key signed))

  -- The signature covers the token up to its last dot.
  unfoldable pub verify_signature : Bytes → Segments → Bytes → Result GrantError (Unit {0})
  verify_signature token s signature =
      let signed_length = length s.version + 1 + length s.key_id + 1 + length s.payload_hex in
      do
        refuse_if (ltb (length token) signed_length) malformed
        refuse_if (not (beq (hmac a.key (take signed_length token)) signature)) signature_invalid

  unfoldable pub parse_and_verify : Bytes → Result GrantError G
  parse_and_verify token = do
    refuse_if
        (length token == 0 || ltb max_grant_header_bytes (length token) || not (is_ascii token))
        malformed
    s ← ok_or (four_segments (split b'.' token)) malformed
    refuse_if (not (beq s.version grant_version)) unknown_version
    refuse_if (not (beq s.key_id a.key_id)) unknown_key
    refuse_if
        (not (length s.payload_hex == codec.size * 2)
          || not (length s.signature_hex == mac_bytes * 2))
        malformed
    payload ← ok_or (decode_hex_array codec.size s.payload_hex) malformed
    signature ← ok_or (decode_hex_array mac_bytes s.signature_hex) malformed
    verify_signature token s signature
    ok_or (codec.decode payload) malformed
