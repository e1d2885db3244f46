-- ===== src/Grant/Lifecycle.antt =====
-- A token is good for one operation, once, for a minute.
use termux_mcp_edge.Base.{
  ℕ, ◌≤◌, ◌+◌, ◌≡◌, ◌≢◌, refl, ap, true, List, arith, Bytes, Option, some, get_elem?, Result, ok,
  err, Result-cases, inl, inr, map_err,
}
use termux_mcp_edge.Payload.{ParsedGrant}
use termux_mcp_edge.Replay.{SharedReplayError, SharedReplayState, Call, u64_max}
use termux_mcp_edge.Replay.Admission.{IsAdmissible, consume_iff}
use termux_mcp_edge.Base.Map.{IsUnique}
use termux_mcp_edge.Registry.{World, Action, consume_at, run}
use termux_mcp_edge.Registry.Aliasing.{consume_at_once}
use termux_mcp_edge.Grant.{Family, call_of, issue_at, authorize, consume_grant_at}
use termux_mcp_edge.Signed.{
  GrantError, Packages, HasMacSize, Authority, valid_key_id, grant_ttl_seconds,
  max_grant_lifetime_seconds, max_grant_future_skew_seconds, map_replay_error,
}
use termux_mcp_edge.Grant.Authorize.{IsUuid, issued, authorize-issue_at, authorize-parsed}

-- The call by which an issued grant is consumed.
abbrev pub issued_call : Bytes → ℕ → ℕ → Call
issued_call grant_id now later = record {
  grant_id = grant_id;
  issued_unix_seconds = now;
  expires_unix_seconds = now + grant_ttl_seconds;
  now_unix_seconds = later;
  maximum_lifetime_seconds = max_grant_lifetime_seconds;
  maximum_future_skew_seconds = max_grant_future_skew_seconds;
}

map_err-ok : (r : Result _ (Unit {0})) → map_err map_replay_error r ≡ ok tt → r ≡ ok tt
map_err-ok (ok u) h = refl
map_err-ok (err e) h = absurd (cc)

-- What was accepted with the errors renamed was accepted before.
pub consumed-ok :
    (w' : World) (o : World × Result SharedReplayError (Unit {0}))
    → ◌≡◌ {A = World × Result GrantError (Unit {0})} (o.0, map_err map_replay_error o.1) (w', ok tt)
    → o ≡ (w', ok tt)
consumed-ok w' (w1, ok u) e = λ i. ((e i).0, ok tt)
consumed-ok w' (w1, err x) e = absurd (cc (ap (λ p. p.1) e))

module _ (pk : Packages) (family : Family) (a : Authority) where
  accepted :
      (w w' : World) (token : Option Bytes) (session_id target : Bytes) (now : ℕ) (g : ParsedGrant)
      → authorize pk family a token session_id target ≡ ok g
      → consume_grant_at pk family a w token session_id target now ≡ (w', ok tt)
      → consume_at w a.replay (call_of pk family a g now) ≡ (w', ok tt)
  unfolding consume_grant_at
  accepted w w' token session_id target now g passed h =
      consumed-ok w' (consume_at w a.replay (call_of pk family a g now)) (ground (arith, passed))

  -- A token issued at a `u64` time, with MACs of 32 bytes, a valid key identifier and 16 bytes of
  -- grant identifier, is accepted for its session and target at every time at which its replay
  -- state, with distinct identifiers, admits its grant.
  pub consume-issue_at :
      (w : World) (s : SharedReplayState) (grant_id session_id target token : Bytes) (now later : ℕ)
      → HasMacSize pk
      → valid_key_id a.key_id ≡ true
      → IsUuid grant_id
      → issue_at pk family a grant_id session_id target now ≡ ok token
      → get_elem? w.heap a.replay ≡ some s
      → IsUnique s.consumed
      → IsAdmissible s (issued_call grant_id now later)
      → now ≤ u64_max
      → (consume_grant_at pk family a w (some token) session_id target later).1 ≡ ok tt
  unfolding consume_grant_at consume_at
  consume-issue_at w s grant_id session_id target token now later sized key uuid h there unique room
        clock =
      let (session, authorized) =
        authorize-issue_at pk family a grant_id session_id target token now sized key uuid h in
      let g = issued pk family a grant_id session target now in
      let admitted = (consume_iff s (issued_call grant_id now later) unique clock).1 room in
      ground (arith, authorized, there, admitted)

  -- Once an authority has accepted a token, it refuses that token for ever after: at any time, for
  -- any session and any target, whatever the authorities of the process do in between.
  pub consume_token_once :
      (w w' : World) (token session_id session_id' target target' : Bytes) (now later : ℕ)
      (more : List Action)
      → consume_grant_at pk family a w (some token) session_id target now ≡ (w', ok tt)
      → (consume_grant_at pk family a (run w' more) (some token) session_id' target' later).1
        ≢ ok tt
  unfolding consume_grant_at
  consume_token_once w w' token session_id session_id' target target' now later more h h' =
      elim (Result-cases (authorize pk family a (some token) session_id target)) [
        | inl (e, refused) ↦ absurd (ground arith)
        | inr (g, passed) ↦
            elim (Result-cases (authorize pk family a (some token) session_id' target')) [
              | inl (e', refused') ↦ absurd (ground arith)
              | inr (g', passed') ↦
                  let same : g' ≡ g = cc (
                    authorize-parsed pk family a token session_id target g passed,
                    authorize-parsed pk family a token session_id' target' g' passed',
                  ) in
                  let first : consume_at w a.replay (call_of pk family a g now) ≡ (w', ok tt) =
                    accepted w w' (some token) session_id target now g passed h in
                  consume_at_once w w' a.replay (call_of pk family a g now)
                    (call_of pk family a g later) more first refl refl
                    (map_err-ok _ (ground (arith, passed', same, h')))
            ]
      ]
