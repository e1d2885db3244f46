-- ===== src/CreateDirectory/Lifecycle.antt =====
-- A `create_directory` token is good for one directory, once, and for nothing else.
use termux_mcp_edge.Base.{
  ℕ, ◌+◌, ◌≡◌, ◌≢◌, refl, ap, sym, true, List, arith, Bytes, some, ltb, ok, refuse_if, >>=-eq-ok,
  Result-cases, inl, inr,
}
use termux_mcp_edge.Replay.{u64_max}
use termux_mcp_edge.Registry.{World, Action, run}
use termux_mcp_edge.Registry
use termux_mcp_edge.Registry.Aliasing.{consume_at_once}
use termux_mcp_edge.Signed.{
  lifetime_exceeded, Packages, HasMacSize, Authority, valid_key_id, grant_ttl_seconds,
}
use termux_mcp_edge.Payload
use termux_mcp_edge.Grant.{parse_canonical_session}
use termux_mcp_edge.Grant
use termux_mcp_edge.Grant.Authorize as GrantAuthorize
use termux_mcp_edge.Grant.Authorize.{IsUuid}
use termux_mcp_edge.Grant.Lifecycle.{consumed-ok}
use termux_mcp_edge.CreateDirectory.{
  CreateDirectoryGrantTarget, ParsedGrant, create_directory_family, encode_and_sign, issued,
  issue_at, authorize, call_of, consume_at,
}
use termux_mcp_edge.CreateDirectory.Payload.{IsSized}
use termux_mcp_edge.CreateDirectory.Authorize.{authorize-links, directory_authorize_iff}

module _ (pk : Packages) (a : Authority) where
  consume_at-authorized :
      (w w' : World) (token session_id : Bytes) (t : CreateDirectoryGrantTarget) (now : ℕ)
      → consume_at pk a w (some token) session_id t now ≡ (w', ok tt)
      → (g : ParsedGrant) × (authorize pk a (some token) session_id t ≡ ok g)
        × (Registry.consume_at w a.replay (call_of pk a g now) ≡ (w', ok tt))
  unfolding consume_at
  consume_at-authorized w w' token session_id t now h =
      elim (Result-cases (authorize pk a (some token) session_id t)) [
        | inl (e, refused) ↦ absurd (ground (arith, h, refused))
        | inr (g, passed) ↦ (
          g,
          passed,
          consumed-ok w' (Registry.consume_at w a.replay (call_of pk a g now))
              (ground (arith, h, passed)),
        )
      ]

  -- Once a `create_directory` token has been accepted, its authority refuses it for ever after: at
  -- any time, for any session and any target, whatever the process does with its replay states in
  -- between.
  pub directory_token_once :
      (w w' : World) (token session_id session_id' : Bytes) (t u : CreateDirectoryGrantTarget)
      (now later : ℕ) (more : List Action)
      → consume_at pk a w (some token) session_id t now ≡ (w', ok tt)
      → (consume_at pk a (run w' more) (some token) session_id' u later).1 ≢ ok tt
  directory_token_once w w' token session_id session_id' t u now later more h again =
      let (g, passed, first) = consume_at-authorized w w' token session_id t now h in
      let w'' = (consume_at pk a (run w' more) (some token) session_id' u later).0 in
      let (g', passed', second) =
        consume_at-authorized (run w' more) w'' token session_id' u later (λ i. (w'', again i)) in
      let (_, _, ek, _) = authorize-links pk a token session_id t g passed in
      let (_, _, ek', _) = authorize-links pk a token session_id' u g' passed' in
      let same : g ≡ g' = cc in
      consume_at_once w w' a.replay (call_of pk a g now) (call_of pk a g' later) more first
        (ap (λ x. x.grant_id) same) (ap (λ x. x.expires_unix_seconds) same) (ap (λ p. p.1) second)

  -- A token that is issued at a `u64` time for a session and a target authorizes that directory, if
  -- MACs have 32 bytes, the key identifier is valid, and the identifiers and the principal's digest
  -- have their sizes.
  directory_authorize-issue_at :
      (grant_id session_id token : Bytes) (t : CreateDirectoryGrantTarget) (now : ℕ)
      → HasMacSize pk
      → valid_key_id a.key_id ≡ true
      → ((session : Bytes)
          → pk.parse_uuid session_id ≡ some session
          → IsSized (issued pk a grant_id session t now))
      → issue_at pk a grant_id session_id t now ≡ ok token
      → (session : Bytes) × (authorize pk a (some token) session_id t
          ≡ ok (issued pk a grant_id session t now))
  unfolding issue_at
  directory_authorize-issue_at grant_id session_id token t now macs key sizes h =
      let (b, eb, h1) =
        >>=-eq-ok (parse_canonical_session pk create_directory_family session_id) _ h in
      let (_, _, h2) =
        >>=-eq-ok (refuse_if (ltb u64_max (now + grant_ttl_seconds)) lifetime_exceeded) _ h1 in
      let (uuid, text) =
        (GrantAuthorize.parse_canonical_session_iff pk create_directory_family session_id b).0 eb in
      let g = issued pk a grant_id b t now in
      let signed : encode_and_sign pk a g ≡ token = cc in
      (
        b,
        (directory_authorize_iff pk a token session_id t g macs key).1 (record {
          session = b;
          parsed = uuid;
          canonical = text;
          sized = sizes b uuid;
          signed = sym signed;
          bound = record {
            principal = refl;
            same_session = refl;
            capability = refl;
            device = refl;
            inode = refl;
            digest = refl;
            posture = refl;
          };
        }),
      )
