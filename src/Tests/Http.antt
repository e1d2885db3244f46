-- ===== src/Tests/Http.antt =====
-- Requests that authentication, the allow-lists and the limits let through.
use termux_mcp_edge.Base.{
  if◌then◌else◌, ltb, ◌&&◌, ◌≡◌, ◌↔◌, ◌⊎◌, ◌≤◌, ◌<◌, ◌^◌, refl, true, false, some, none, List, [],
  ◌∷◌, Bytes, Option, arith, ok, codes, beq,
}
use termux_mcp_edge.Base.Text.{split_once, strip_prefix, decimal_value, without_suffix, decimal}
use termux_mcp_edge.Auth.{
  McpAuthBoundary, static_bearer_of, socket_v4, constant_time_eq, require_mcp_auth, forwarded,
}
use termux_mcp_edge.Auth.Comparison.{constant_time_eq_iff}
use termux_mcp_edge.Auth.Bearer.{IsToken}
use termux_mcp_edge.Auth.Decisions.{IsAdmitted, require_mcp_auth_iff}
use termux_mcp_edge.Transport.{
  Addresses, TransportSecurityPolicy, new, normalize_all, normalize_authority, normalize_plain,
  normalize_name, normalize_bracketed, split_port, valid_dns_name, normalize_origin, parse_port,
  port_text, validate_request,
}
use termux_mcp_edge.Transport.Requests.{ConfiguredHost, ConfiguredOrigin, new-validate_request_iff}
use termux_mcp_edge.Transport.Ports.{parse_port-port_text}
use termux_mcp_edge.RequestLimits.{McpRequestLimits, content_length_exceeds_limit, enter, started}
use termux_mcp_edge.RequestLimits
use termux_mcp_edge.RequestLimits.Configured.{IsInRange, asked, new_iff}
use termux_mcp_edge.RequestLimits.Concurrency.{start, enter_iff}
use termux_mcp_edge.Signed.{split}
use termux_mcp_edge.Routing.{
  stateless_name_header, single_header_value, name_of, encoded_part, decoded_name, strip_suffix,
  decode_canonical_padded_base64, decode_chunks, decode_chunk, decode_padded, padding_of,
  decode_base64_sextet, is_utf8,
}
use termux_mcp_edge.Routing.Names.{IsEncodedName, IsPlainName, stateless_name_header_iff}

abbrev secret : Bytes
secret = codes "s3cret"

abbrev boundary : McpAuthBoundary
boundary = record {
  policy = static_bearer_of secret;
  expected_listener_address = socket_v4 (127 ∷ 0 ∷ 0 ∷ 1 ∷ []) 8080;
}

secret-IsToken : IsToken secret
secret-IsToken = record { present = omega arith; bounded = omega arith; graphic = refl }

constant_time_eq_iff_example :
    (constant_time_eq secret (codes "s3cre7") ≡ true) ↔ (secret ≡ codes "s3cre7")
constant_time_eq_iff_example =
    constant_time_eq_iff secret (codes "s3cre7") (omega arith) (omega arith)

abbrev headers : List (Option Bytes)
headers = some (codes "bearer s3cret") ∷ []

require_mcp_auth_iff_example :
    (require_mcp_auth boundary headers none ≡ forwarded)
    ↔ IsAdmitted (static_bearer_of secret) boundary.expected_listener_address headers none
require_mcp_auth_iff_example = require_mcp_auth_iff boundary headers none secret-IsToken

-- No text is an address here, so that hosts are names.
abbrev addresses : Addresses
addresses = record { parse_ip = λ s. none; parse_ipv6 = λ s. none }

abbrev hosts : List Bytes
hosts = codes "LocalHost.:08080" ∷ []

abbrev origins : List Bytes
origins = codes "HTTP://localhost:8080" ∷ []

abbrev policy : TransportSecurityPolicy
policy = record {
  allowed_hosts = codes "localhost:8080" ∷ [];
  allowed_origins = codes "http://localhost:8080" ∷ [];
  allow_missing_origin = false;
}

policy_made : new addresses hosts origins false ≡ ok policy
unfolding new normalize_all normalize_authority normalize_plain normalize_name normalize_bracketed
    split_port valid_dns_name normalize_origin parse_port split_once strip_prefix decimal_value
    without_suffix decimal split
policy_made = refl

new-validate_request_iff_example :
    (validate_request addresses policy (some (codes "localhost:8080")) none ≡ ok tt) ↔ (
      ConfiguredHost addresses hosts (some (codes "localhost:8080"))
      × ConfiguredOrigin addresses origins false none)
new-validate_request_iff_example =
    new-validate_request_iff addresses hosts origins false policy (some (codes "localhost:8080"))
      none policy_made

parse_port-port_text_example :
    parse_port (decimal 5 65_616)
    ≡ (if ltb 0 65_616 && ltb 65_616 (2 ^ 16) then some 65_616 else none)
parse_port-port_text_example = parse_port-port_text 5 65_616 (omega arith) (omega arith)

port_text_read : (parse_port (port_text 8080) ≡ some 8080) × (parse_port (port_text 80) ≡ some 80)
unfolding parse_port decimal decimal_value
port_text_read = (refl, refl)

abbrev limits : McpRequestLimits
limits = asked 4 30_000_000_000 2_097_152

new_iff_example :
    (RequestLimits.new 4 30_000_000_000 2_097_152 ≡ ok limits)
    ↔ (IsInRange limits × (limits ≡ limits))
new_iff_example = new_iff 4 30_000_000_000 2_097_152 limits

enter_iff_example :
    (0 ≤ 4)
    × (((enter limits (some (codes "2048")) (started limits)).1 ≡ none)
        ↔ ((content_length_exceeds_limit (some (codes "2048")) 2_097_152 ≡ false) × (0 < 4)))
enter_iff_example = enter_iff limits (some (codes "2048")) (started limits) start

abbrev marked_name : Bytes
marked_name = codes "=?base64?aMOp?="

stateless_name_header_iff_example :
    (stateless_name_header (some marked_name ∷ []) ≡ some (104 ∷ 195 ∷ 169 ∷ [])) ↔ (
      (raw : Bytes) × (some marked_name ∷ [] ≡ some raw ∷ [])
      × (IsEncodedName raw (104 ∷ 195 ∷ 169 ∷ []) ⊎ IsPlainName raw (104 ∷ 195 ∷ 169 ∷ [])))
stateless_name_header_iff_example =
    stateless_name_header_iff (some marked_name ∷ []) (104 ∷ 195 ∷ 169 ∷ [])

-- The header names the bytes of an accented word.
marked_name_read : stateless_name_header (some marked_name ∷ []) ≡ some (104 ∷ 195 ∷ 169 ∷ [])
unfolding stateless_name_header single_header_value name_of encoded_part decoded_name strip_prefix
    strip_suffix decode_canonical_padded_base64 decode_chunks decode_chunk decode_padded padding_of
    decode_base64_sextet is_utf8 beq
marked_name_read = refl

-- Padding stands at the end only, and no bit is set under it.
padding_refused :
    (decode_canonical_padded_base64 (codes "aA==aMOp") ≡ none)
    × (decode_canonical_padded_base64 (codes "aB==") ≡ none)
unfolding decode_canonical_padded_base64 decode_chunks decode_chunk decode_padded padding_of
    decode_base64_sextet
padding_refused = (refl, refl)
