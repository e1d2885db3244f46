-- ===== src/Auth/Decisions.antt =====
-- Which requests are passed on.
use termux_mcp_edge.Base.{
  ◌≡◌, ◌≢◌, ◌↔◌, refl, ap, ◌∙◌, subst, Bool, true, false, inl, inr, arith, Option, Option-cases,
  none, some, List, Bytes, beq_iff, if◌then◌else◌,
}
use termux_mcp_edge.Auth.{
  McpAuthPolicy, static_bearer_of, unauthenticated_localhost_only, SocketAddr, socket_v4, socket_v6,
  ip_of, is_loopback, same_address, McpConnectionInfo, McpAuthBoundary, extract_bearer_token,
  constant_time_eq, require_mcp_auth, connection_matches_boundary, is_authorized, AuthOutcome,
  forwarded, unauthorized, localhost_peer_required,
}
use termux_mcp_edge.Auth.Comparison.{constant_time_eq_iff}
use termux_mcp_edge.Auth.Bearer.{
  IsToken, IsPolicy, IsBearer, extract_bearer_token_sound, extract_bearer_token_complete,
}

-- A connection from a loopback peer to the very listener that was validated.
pub record IsLocal (expected : SocketAddr) (connection : Option McpConnectionInfo) : Type 0 where
  pub info : McpConnectionInfo
  pub connected : connection ≡ some info
  pub loopback : is_loopback (ip_of info.peer_address) ≡ true
  pub accepted_by : info.local_address ≡ some expected

same_address_iff : (a b : SocketAddr) → (same_address a b ≡ true) ↔ (a ≡ b)
same_address_iff (socket_v4 a p) (socket_v4 b q) = (
  λ e.
      let octets = (beq_iff a b).0 (ground (arith, e)) in
      let ports : p ≡ q = ground (arith, e) in rw (octets, ports) refl,
  λ e.
      let octets : a ≡ b = cc e in
      let ports : p ≡ q = cc e in let same = (beq_iff a b).1 octets in ground (arith, same, ports),
)
same_address_iff (socket_v6 a p f s) (socket_v6 b q g t) = (
  λ e.
      let octets = (beq_iff a b).0 (ground (arith, e)) in
      let ports : p ≡ q = ground (arith, e) in
      let flows : f ≡ g = ground (arith, e) in
      let scopes : s ≡ t = ground (arith, e) in rw (octets, ports, flows, scopes) refl,
  λ e.
      let octets : a ≡ b = cc e in
      let ports : p ≡ q = cc e in
      let flows : f ≡ g = cc e in
      let scopes : s ≡ t = cc e in
      let same = (beq_iff a b).1 octets in ground (arith, same, ports, flows, scopes),
)
same_address_iff (socket_v4 a p) (socket_v6 b q g t) = (λ e. absurd (cc), λ e. absurd (cc))
same_address_iff (socket_v6 a p f s) (socket_v4 b q) = (λ e. absurd (cc), λ e. absurd (cc))

connection_matches_boundary_iff :
    (expected : SocketAddr) (connection : Option McpConnectionInfo)
    → (connection_matches_boundary expected connection ≡ true) ↔ IsLocal expected connection
unfolding connection_matches_boundary
connection_matches_boundary_iff expected none =
    (λ e. absurd (ground (arith, e)), λ h. absurd (cc (h.connected)))
connection_matches_boundary_iff expected (some c) = (
  λ e. elim (Option-cases c.local_address) [
    | inl absent ↦ absurd (ground (arith, e, absent))
    | inr (l, present) ↦
        let loopback : is_loopback (ip_of c.peer_address) ≡ true = ground (arith, e) in
        let equal : same_address l expected ≡ true = ground (arith, e, present) in
        record {
          info = c;
          connected = refl;
          loopback = loopback;
          accepted_by = present ∙ ap some ((same_address_iff l expected).0 equal);
        }
  ],
  λ h.
      let at : some c ≡ some h.info = h.connected in
      let same : c ≡ h.info = cc in
      let here : same_address expected expected ≡ true =
        (same_address_iff expected expected).1 refl in
      rw same (rw (h.loopback, h.accepted_by, here) refl),
)

-- Whom a boundary admits.
abbrev pub IsAdmitted :
    McpAuthPolicy → SocketAddr → List (Option Bytes) → Option McpConnectionInfo → Type 0
IsAdmitted (static_bearer_of token) expected values connection = IsBearer values token
IsAdmitted unauthenticated_localhost_only expected values connection = IsLocal expected connection

is_authorized_iff :
    (token : Bytes) (values : List (Option Bytes))
    → IsToken token
    → (is_authorized token values ≡ true) ↔ IsBearer values token
unfolding is_authorized
is_authorized_iff token values valid = (
  λ e. elim (Option-cases (extract_bearer_token values)) [
    | inl absent ↦ absurd (ground (arith, e, absent))
    | inr (t, found) ↦
        let bearer = extract_bearer_token_sound values t found in
        let equal : constant_time_eq t token ≡ true = ground (arith, e, found) in
        let same = (constant_time_eq_iff t token bearer.valid.bounded valid.bounded).0 equal in
        subst (IsBearer values) same bearer
  ],
  λ h.
      rw
        (
          extract_bearer_token_complete values token h,
          (constant_time_eq_iff token token valid.bounded valid.bounded).1 refl,
        )
        refl,
)

-- Under a policy that the configuration yields, a request is passed on exactly when the boundary
-- admits it: with a static token, if its only `Authorization` header reads `Bearer`, in any case, a
-- space and that very token; without one, if the peer is loopback and the connection was accepted
-- by the validated listener: its local address is that listener's in every part.
pub require_mcp_auth_iff :
    (b : McpAuthBoundary) (values : List (Option Bytes)) (connection : Option McpConnectionInfo)
    → IsPolicy b.policy
    → (require_mcp_auth b values connection ≡ forwarded)
      ↔ IsAdmitted b.policy b.expected_listener_address values connection
unfolding require_mcp_auth
require_mcp_auth_iff b values connection valid = by_policy b.policy valid
  where
    passed :
        (t : Bool) (o : AuthOutcome)
        → o ≢ forwarded
        → ((if t then forwarded else o) ≡ forwarded) ↔ (t ≡ true)
    passed true o h = (λ _. refl, λ _. refl)
    passed false o h = (λ e. absurd (h e), λ e. absurd (cc))

    by_policy :
        (policy : McpAuthPolicy)
        → IsPolicy policy
        → ((elim policy [
          | unauthenticated_localhost_only ↦
              if connection_matches_boundary b.expected_listener_address connection
              then forwarded
              else localhost_peer_required
          | static_bearer_of token ↦ if is_authorized token values then forwarded else unauthorized
        ])
            ≡ forwarded)
          ↔ IsAdmitted policy b.expected_listener_address values connection
    by_policy (static_bearer_of token) valid =
        let p = passed (is_authorized token values) unauthorized (λ e. cc) in
        let q = is_authorized_iff token values valid in (λ e. q.0 (p.0 e), λ h. p.1 (q.1 h))
    by_policy unauthenticated_localhost_only valid =
        let p =
          passed (connection_matches_boundary b.expected_listener_address connection)
            localhost_peer_required (λ e. cc) in
        let q = connection_matches_boundary_iff b.expected_listener_address connection in
        (λ e. q.0 (p.0 e), λ h. p.1 (q.1 h))
