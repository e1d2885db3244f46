-- ===== src/Auth.antt =====
-- The authentication of a request to the MCP transport (src/auth.rs): the policy, the bearer token
-- of a request, and the middleware's decision. A header's value comes as its text, where
-- `HeaderValue::to_str` gives one; the socket addresses of a connection are axum's.
pub mod Comparison
pub mod Bearer
pub mod Decisions
use termux_mcp_edge.Base.{
  ℕ, zero, suc, ◌+◌, ◌≤◌, Bool, true, false, ◌&&◌, ◌||◌, not, Option, none, some, List, [], ◌∷◌,
  length, get_elem?, all, Bytes, beq, codes, ltb, leb, ◌==◌, if◌then◌else◌, is_some_and, Result, ok,
  err, ◌>>=◌, ◌>>◌, refuse_if, ok_or,
}
use termux_mcp_edge.Base.Options as Options
use termux_mcp_edge.Base.Bits.{bit_or, bit_xor}
use termux_mcp_edge.Base.Text.{to_ascii_lowercase, split_once}

abbrev pub max_bearer_token_bytes : ℕ
max_bearer_token_bytes = 4096

-- The texts of the `anyhow` errors, told apart.
pub data AuthError : Type 0 where
  token_missing token_empty token_too_long token_not_graphic : AuthError

pub data McpAuthPolicy : Type 0 where
  static_bearer_of : Bytes → McpAuthPolicy
  unauthenticated_localhost_only : McpAuthPolicy

-- `AuthPosture` of src/config.rs.
pub data AuthPosture : Type 0 where
  static_token_configured unauthenticated_localhost : AuthPosture

abbrev pub is_ascii_graphic : ℕ → Bool
is_ascii_graphic b = leb 33 b && leb b 126

unfoldable pub validate_bearer_token : Bytes → Result AuthError (Unit {0})
validate_bearer_token token = do
  refuse_if (length token == 0) token_empty
  refuse_if (ltb max_bearer_token_bytes (length token)) token_too_long
  refuse_if (not (all is_ascii_graphic token)) token_not_graphic

unfoldable pub static_bearer : Bytes → Result AuthError McpAuthPolicy
static_bearer token = do validate_bearer_token token; ok (static_bearer_of token)

unfoldable pub from_config : Option Bytes → AuthPosture → Result AuthError McpAuthPolicy
from_config static_token static_token_configured = do
  token ← ok_or static_token token_missing
  static_bearer token
from_config static_token unauthenticated_localhost = ok unauthenticated_localhost_only

abbrev static_principal : McpAuthPolicy → Option Bytes
static_principal (static_bearer_of token) = some token
static_principal unauthenticated_localhost_only = none

-- `IpAddr` by its octets, and `SocketAddr` with what the standard library keeps of each kind.
pub data IpAddr : Type 0 where
  v4 v6 : Bytes → IpAddr

pub data SocketAddr : Type 0 where
  socket_v4 : (octets : Bytes) (port : ℕ) → SocketAddr
  socket_v6 : (octets : Bytes) (port flowinfo scope_id : ℕ) → SocketAddr

-- `SocketAddr::ip`.
abbrev pub ip_of : SocketAddr → IpAddr
ip_of (socket_v4 octets port) = v4 octets
ip_of (socket_v6 octets port flowinfo scope_id) = v6 octets

-- `IpAddr::is_loopback`: 127.0.0.0/8, and ::1.
abbrev pub is_loopback : IpAddr → Bool
is_loopback (v4 []) = false
is_loopback (v4 (first ∷ octets)) = first == 127
is_loopback (v6 octets) =
    beq octets (0 ∷ 0 ∷ 0 ∷ 0 ∷ 0 ∷ 0 ∷ 0 ∷ 0 ∷ 0 ∷ 0 ∷ 0 ∷ 0 ∷ 0 ∷ 0 ∷ 0 ∷ 1 ∷ [])

-- The derived equality of `SocketAddr`: all of an IPv6 address's fields are compared.
abbrev pub same_address : SocketAddr → SocketAddr → Bool
same_address (socket_v4 a p) (socket_v4 b q) = beq a b && p == q
same_address (socket_v6 a p f s) (socket_v6 b q g t) = beq a b && p == q && f == g && s == t
same_address _ _ = false

pub record McpConnectionInfo : Type 0 where
  pub peer_address : SocketAddr
  pub local_address : Option SocketAddr

pub record McpAuthBoundary : Type 0 where
  pub policy : McpAuthPolicy
  pub expected_listener_address : SocketAddr

abbrev pub bearer_scheme : Bytes
bearer_scheme = codes "bearer"

-- Exactly one value, or nothing.
abbrev pub only : List (Option Bytes) → Option Bytes
only (value ∷ []) = value
only _ = none

abbrev pub accepted : Bytes → Bytes → Option Bytes
accepted scheme token = elim (validate_bearer_token token) [
  | err e ↦ none
  | ok _ ↦ if beq (to_ascii_lowercase scheme) bearer_scheme then some token else none
]

abbrev pub token_of : Bytes → Option Bytes
token_of value = Options.◌>>=◌ (split_once b' ' value) (λ (scheme, token). accepted scheme token)

-- The bearer token of a request, from the values of its `Authorization` headers.
unfoldable pub extract_bearer_token : List (Option Bytes) → Option Bytes
extract_bearer_token values =
    Options.◌>>=◌ (only values)
      (λ value. if ltb (7 + max_bearer_token_bytes) (length value) then none else token_of value)

abbrev pub byte_at : Bytes → ℕ → ℕ
byte_at s index = elim (get_elem? s index) [ none ↦ 0 | some b ↦ b ]

-- The loop's body over the indices from `index` on, so many of them.
unfoldable pub difference_from : ℕ → ℕ → ℕ → Bytes → Bytes → ℕ
difference_from zero index difference left right = difference
difference_from (suc rounds) index difference left right =
    difference_from rounds (index + 1)
      (bit_or difference (bit_xor (byte_at left index) (byte_at right index))) left right

unfoldable pub constant_time_eq : Bytes → Bytes → Bool
constant_time_eq left right =
    difference_from max_bearer_token_bytes 0 (bit_xor (length left) (length right)) left right == 0

-- What becomes of the request: it is passed on, or answered with 401 or 403.
pub data AuthOutcome : Type 0 where
  forwarded unauthorized localhost_peer_required : AuthOutcome

unfoldable pub connection_matches_boundary : SocketAddr → Option McpConnectionInfo → Bool
connection_matches_boundary expected connection =
    is_some_and
      (λ c.
        is_loopback (ip_of c.peer_address)
        && is_some_and (λ l. same_address l expected) c.local_address)
      connection

unfoldable pub is_authorized : Bytes → List (Option Bytes) → Bool
is_authorized token values =
    is_some_and (λ provided. constant_time_eq provided token) (extract_bearer_token values)

unfoldable pub require_mcp_auth :
    McpAuthBoundary → List (Option Bytes) → Option McpConnectionInfo → AuthOutcome
require_mcp_auth boundary values connection = elim boundary.policy [
  | unauthenticated_localhost_only ↦
      if connection_matches_boundary boundary.expected_listener_address connection
      then forwarded
      else localhost_peer_required
  | static_bearer_of token ↦ if is_authorized token values then forwarded else unauthorized
]
