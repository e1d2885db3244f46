-- ===== src/Transport.antt =====
-- The allow-lists of Host and Origin values (src/transport_security.rs). The texts of IP addresses
-- are the standard library's: how they are read and printed comes as an argument.
pub mod Requests
pub mod Ports
use termux_mcp_edge.Base.{
  ℕ, ◌+◌, ◌≤◌, Bool, true, false, ◌&&◌, ◌||◌, not, Option, none, some, List, [], ◌∷◌, ◌++◌, length,
  all, Bytes, beq, codes, ltb, leb, ◌==◌, if◌then◌else◌, Result, ok, err, ◌>>=◌, ◌>>◌, refuse_if,
  ok_or,
}
use termux_mcp_edge.Base.Options as Options
use termux_mcp_edge.Base.Text.{
  any, contains, to_ascii_lowercase, strip_prefix, split_once, count_of, ends_with, starts_with,
  without_suffix, is_digit, decimal_value, decimal,
}
use termux_mcp_edge.Signed.{split}

pub data TransportSecurityError : Type 0 where
  missing_host invalid_host_header : TransportSecurityError
  host_not_allowed : Bytes → TransportSecurityError
  invalid_origin_header : TransportSecurityError
  origin_not_allowed : Bytes → TransportSecurityError
  origin_required : TransportSecurityError
  invalid_origin : Bytes → TransportSecurityError

abbrev pub reason_code : TransportSecurityError → Bytes
reason_code missing_host = codes "missing_host"
reason_code invalid_host_header = codes "invalid_host_header"
reason_code (host_not_allowed received) = codes "host_not_allowed"
reason_code invalid_origin_header = codes "invalid_origin_header"
reason_code (origin_not_allowed received) = codes "origin_not_allowed"
reason_code origin_required = codes "origin_required"
reason_code (invalid_origin received) = codes "invalid_origin"

pub data TransportSecurityPolicyError : Type 0 where
  invalid_port invalid_allowed_host invalid_allowed_origin : TransportSecurityPolicyError

abbrev policy_reason_code : TransportSecurityPolicyError → Bytes
policy_reason_code invalid_port = codes "invalid_listener_port"
policy_reason_code invalid_allowed_host = codes "invalid_allowed_host"
policy_reason_code invalid_allowed_origin = codes "invalid_allowed_origin"

-- An address as `IpAddr::parse` reads it, with the text that it prints.
pub data IpText : Type 0 where
  ipv4_text ipv6_text : Bytes → IpText

-- `parse_ip` is `str::parse::<IpAddr>`, and `parse_ipv6` is `str::parse::<Ipv6Addr>`, each with
-- `to_string` of the address.
pub record Addresses : Type 0 where
  pub parse_ip : Bytes → Option IpText
  pub parse_ipv6 : Bytes → Option Bytes

abbrev is_whitespace_or_control : ℕ → Bool
is_whitespace_or_control b = leb b 32 || b == 127

abbrev contains_ascii_whitespace_or_control : Bytes → Bool
contains_ascii_whitespace_or_control value = any is_whitespace_or_control value

abbrev is_rejected_byte : ℕ → Bool
is_rejected_byte b = b == b'*' || b == b'/' || b == b'?' || b == b'#' || b == b'@' || b == 92

-- The port's number, as a `u16` that is not zero.
unfoldable pub parse_port : Bytes → Option ℕ
parse_port port =
    let n = decimal_value port in
    if length port == 0 || not (all is_digit port)
    then none
    else if ltb 65_535 n
    then none
    else if n == 0
    then none
    else some n

-- `port.to_string()` of a `u16`.
abbrev pub port_text : ℕ → Bytes
port_text n = decimal 5 n

abbrev with_colon : ℕ → Bytes
with_colon n = b':' ∷ port_text n

unfoldable pub parse_port_suffix : Bytes → Option Bytes
parse_port_suffix [] = some []
parse_port_suffix (c ∷ port) =
    let read = Options.◌>>=◌ (parse_port port) (λ n. some (with_colon n)) in
    if c == b':' then read else none

abbrev is_label_byte : ℕ → Bool
is_label_byte b =
    (leb b'a' b && leb b b'z')
    || (leb b'A' b && leb b b'Z')
    || (leb b'0' b && leb b b'9')
    || b == b'-'

abbrev valid_label : Bytes → Bool
valid_label label =
    not (length label == 0)
    && leb (length label) 63
    && all is_label_byte label
    && not (starts_with b'-' label)
    && not (ends_with b'-' label)

unfoldable pub valid_dns_name : Bytes → Bool
valid_dns_name host = if ltb 253 (length host) then false else all valid_label (split b'.' host)

module _ (ip : Addresses) where
  -- The host before the port, its trailing dot removed.
  unfoldable pub normalize_name : Bytes → Option Bytes
  normalize_name raw_host =
      if length raw_host == 0 || ends_with b'.' raw_host
      then none
      else elim (ip.parse_ip raw_host) [
        | some (ipv4_text text) ↦ some text
        | some (ipv6_text text) ↦ none
        | none ↦ if valid_dns_name raw_host then some (to_ascii_lowercase raw_host) else none
      ]

  unfoldable pub normalize_bracketed : Bytes → Option Bytes
  normalize_bracketed bracketed = Options.◌>>=◌ (split_once b']' bracketed) (λ (address, remainder).
      Options.◌>>=◌ (ip.parse_ipv6 address) (λ text.
        Options.◌>>=◌ (parse_port_suffix remainder) (λ port. some (b'[' ∷ text ++ (b']' ∷ port)))))

  -- The host, and the port behind its colon.
  unfoldable pub split_port : Bytes → Option (Bytes × Bytes)
  split_port authority = elim (split_once b':' authority) [
    | none ↦ some (authority, [])
    | some (host, port) ↦ Options.◌>>=◌ (parse_port port) (λ n. some (host, with_colon n))
  ]

  unfoldable pub normalize_plain : Bytes → Option Bytes
  normalize_plain authority =
      let named = Options.◌>>=◌ (split_port authority) (λ (host, port).
        Options.◌>>=◌ (normalize_name (without_suffix b'.' host)) (λ name. some (name ++ port))) in
      if any (λ c. c == b'[' || c == b']') authority || ltb 1 (count_of b':' authority)
      then none
      else named

  unfoldable pub normalize_authority : Bytes → Option Bytes
  normalize_authority [] = none
  normalize_authority (c ∷ rest) =
      let bracketed = normalize_bracketed rest in
      let plain = normalize_plain (c ∷ rest) in
      if contains_ascii_whitespace_or_control (c ∷ rest) || any is_rejected_byte (c ∷ rest)
      then none
      else if c == b'['
      then bracketed
      else plain

  abbrev pub normalize_host : Bytes → Option Bytes
  normalize_host host = normalize_authority host

  abbrev http : Bytes
  http = codes "http://"

  abbrev https : Bytes
  https = codes "https://"

  -- The scheme that the lower-case text starts with, and the rest.
  abbrev split_scheme : Bytes → Option (Bytes × Bytes)
  split_scheme lower = elim (strip_prefix http lower) [
    | some authority ↦ some (http, authority)
    | none ↦ Options.◌>>=◌ (strip_prefix https lower) (λ authority. some (https, authority))
  ]

  unfoldable pub normalize_origin : Bytes → Option Bytes
  normalize_origin origin =
      let read = Options.◌>>=◌ (split_scheme (to_ascii_lowercase origin)) (λ (scheme, authority).
        Options.◌>>=◌ (normalize_authority authority) (λ text. some (scheme ++ text))) in
      if contains_ascii_whitespace_or_control origin then none else read

-- The two sets hold normalized texts.
pub record TransportSecurityPolicy : Type 0 where
  pub allowed_hosts : List Bytes
  pub allowed_origins : List Bytes
  pub allow_missing_origin : Bool

-- `into_iter().map(...).collect::<Result<_, _>>()`: the first failure ends it.
unfoldable pub normalize_all :
    (Bytes → Option Bytes)
    → TransportSecurityPolicyError
    → List Bytes
    → Result TransportSecurityPolicyError (List Bytes)
normalize_all normalize failure [] = ok []
normalize_all normalize failure (text ∷ texts) = do
  first ← ok_or (normalize text) failure
  rest ← normalize_all normalize failure texts
  ok (first ∷ rest)

module _ (ip : Addresses) where
  unfoldable pub new :
      List Bytes → List Bytes → Bool → Result TransportSecurityPolicyError TransportSecurityPolicy
  new hosts origins allow_missing_origin = do
    allowed_hosts ← normalize_all (normalize_host ip) invalid_allowed_host hosts
    allowed_origins ← normalize_all (normalize_origin ip) invalid_allowed_origin origins
    ok (record {
      allowed_hosts = allowed_hosts;
      allowed_origins = allowed_origins;
      allow_missing_origin = allow_missing_origin;
    })

  unfoldable localhost : ℕ → Bool → Result TransportSecurityPolicyError TransportSecurityPolicy
  localhost port allow_missing_origin =
      let at = λ (host : Bytes). host ++ with_colon port in
      do
        refuse_if (port == 0) invalid_port
        new (at (codes "localhost") ∷ at (codes "127.0.0.1") ∷ at (codes "[::1]") ∷ [])
            (at (codes "http://localhost")
              ∷ at (codes "http://127.0.0.1")
              ∷ at (codes "http://[::1]")
              ∷ [])
            allow_missing_origin

  unfoldable pub validate_origin :
      TransportSecurityPolicy → Option Bytes → Result TransportSecurityError (Unit {0})
  validate_origin policy none = if policy.allow_missing_origin then ok tt else err origin_required
  validate_origin policy (some raw_origin) = do
    origin ← ok_or (normalize_origin ip raw_origin) (invalid_origin raw_origin)
    refuse_if (not (contains origin policy.allowed_origins)) (origin_not_allowed origin)

  unfoldable pub validate_request :
      TransportSecurityPolicy
      → Option Bytes
      → Option Bytes
      → Result TransportSecurityError (Unit {0})
  validate_request policy host origin = do
    host ← ok_or (Options.◌>>=◌ host (normalize_host ip)) missing_host
    refuse_if (not (contains host policy.allowed_hosts)) (host_not_allowed host)
    validate_origin policy origin
