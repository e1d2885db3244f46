-- ===== src/Payload.antt =====
-- The 65-byte payload of a grant token (src/copy_file_grant.rs): a random identifier, the
-- capability family, the keyed operation binding, and two times.
pub mod Laws
pub mod Fields
use termux_mcp_edge.Base.{
  ℕ, ◌+◌, Option, none, some, List, [], ◌∷◌, ◌++◌, length, get_elem?, take, drop, replicate, Bytes,
  leb, ◌==◌, if◌then◌else◌, to_be_bytes, from_be_bytes,
}
use termux_mcp_edge.Base.Options.{◌>>=◌}

pub record ParsedGrant : Type 0 where
  pub grant_id : Bytes
  pub capability : ℕ
  pub operation_binding : Bytes
  pub issued_unix_seconds : ℕ
  pub expires_unix_seconds : ℕ

abbrev pub grant_id_bytes : ℕ
grant_id_bytes = 16

abbrev pub binding_bytes : ℕ
binding_bytes = 32

abbrev pub payload_bytes : ℕ
payload_bytes = 65

-- `output[offset..end].copy_from_slice(value)`, with the new offset.
unfoldable pub put : Bytes × ℕ → Bytes → Bytes × ℕ
put (output, offset) value =
    (take offset output ++ (value ++ drop (offset + length value) output), offset + length value)

-- `input.get(offset..end)`, with the new offset.
unfoldable pub take_array : ℕ → Bytes → ℕ → Option (Bytes × ℕ)
take_array n input offset =
    if leb (offset + n) (length input) then some (take n (drop offset input), offset + n) else none

unfoldable pub encode_payload : ParsedGrant → Bytes
encode_payload grant =
    let start : Bytes × ℕ = (replicate payload_bytes 0, 0) in
    let a = put start grant.grant_id in
    let b = put a (grant.capability ∷ []) in
    let c = put b grant.operation_binding in
    let d = put c (to_be_bytes 8 grant.issued_unix_seconds) in
    (put d (to_be_bytes 8 grant.expires_unix_seconds)).0

-- `(offset == PAYLOAD_BYTES).then_some(grant)`.
abbrev sized : ℕ → ParsedGrant → Option ParsedGrant
sized offset grant = if offset == payload_bytes then some grant else none

unfoldable pub decode_payload : Bytes → Option ParsedGrant
decode_payload payload = do
  (grant_id, a) ← take_array grant_id_bytes payload 0
  capability ← get_elem? payload a
  (binding, b) ← take_array binding_bytes payload (a + 1)
  (issued, c) ← take_array 8 payload b
  (expires, d) ← take_array 8 payload c
  sized d (record {
    grant_id = grant_id;
    capability = capability;
    operation_binding = binding;
    issued_unix_seconds = from_be_bytes issued;
    expires_unix_seconds = from_be_bytes expires;
  })
