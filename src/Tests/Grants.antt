-- ===== src/Tests/Grants.antt =====
-- A grant issued, presented and consumed.
use termux_mcp_edge.Base.{
  ◌≡◌, ◌≢◌, ◌↔◌, refl, ap, true, false, some, List, [], ◌∷◌, Bytes, beq, arith, ok, length, codes,
}
use termux_mcp_edge.Base.Map.{get}
use termux_mcp_edge.Payload.{ParsedGrant}
use termux_mcp_edge.Payload.Laws.{IsWellSized}
use termux_mcp_edge.Replay.{new}
use termux_mcp_edge.Replay.Admission.{IsAdmissible, live_count}
use termux_mcp_edge.Registry.{World, Action, resolves, consumes, new_registry}
use termux_mcp_edge.Registry
use termux_mcp_edge.Grant.{
  issue_at, authorize, parse_and_verify, encode_and_sign, consume_grant_at, parse_canonical_session,
}
use termux_mcp_edge.Signed.{valid_key_id, max_consumed_grants}
use termux_mcp_edge.Grant.Token.{parse_and_verify-encode_and_sign, parse_and_verify-canonical}
use termux_mcp_edge.Grant.Authorize.{
  IsUuid, issued-IsWellSized, binding_message, authorize-parsed, IsAuthorized, issued,
  authorize_iff,
}
use termux_mcp_edge.Grant.Lifecycle.{issued_call, consume-issue_at, consume_token_once}
use termux_mcp_edge.CopyFile.{target_bytes, copy_file_family}
use termux_mcp_edge.CopyFile.Binding.{copy_authorize-injective}
use termux_mcp_edge.Tests.{
  packages, packages-HasMacSize, uuid, replicate-AreBytes, authority, second_call,
}
use termux_mcp_edge.Tests.Codecs.{target, target-IsTarget}

-- The session's identifier and the copy that it asks for.
abbrev pub session : Bytes
session = uuid 9

abbrev pub asked : Bytes
asked = target_bytes target

abbrev pub grant : ParsedGrant
grant = issued packages copy_file_family authority (uuid 1) session asked 1000

abbrev pub token : Bytes
token = encode_and_sign packages copy_file_family authority grant

grant_issued : issue_at packages copy_file_family authority (uuid 1) session asked 1000 ≡ ok token
unfolding issue_at parse_canonical_session beq
grant_issued = refl

pub uuid-IsUuid : IsUuid (uuid 1)
uuid-IsUuid = (refl, replicate-AreBytes 16 1 (omega arith))

pub key_valid : valid_key_id authority.key_id ≡ true
unfolding valid_key_id
key_valid = refl

authorize_iff_example :
    (authorize packages copy_file_family authority (some token) session asked ≡ ok grant)
    ↔ IsAuthorized packages copy_file_family authority token session asked grant
authorize_iff_example =
    authorize_iff packages copy_file_family authority token session asked grant packages-HasMacSize
      key_valid

abbrev pub world : World
world = record {
  registry = new_registry 4;
  registry_poisoned = false;
  heap = new max_consumed_grants ∷ [];
}

pub grant-IsAdmissible : IsAdmissible (new max_consumed_grants) (issued_call (uuid 1) 1000 1030)
unfolding new get live_count
grant-IsAdmissible = record {
  available = refl;
  monotone = tt;
  positive = omega arith;
  short = omega arith;
  started = omega arith;
  current = omega arith;
  unclaimed = tt;
  room = omega arith;
}

consume-issue_at_example :
    (consume_grant_at packages copy_file_family authority world (some token) session asked 1030).1
    ≡ ok tt
unfolding new
consume-issue_at_example =
    consume-issue_at packages copy_file_family authority world (new max_consumed_grants) (uuid 1)
      session asked token 1000 1030 packages-HasMacSize key_valid uuid-IsUuid grant_issued refl tt
      grant-IsAdmissible (omega arith)

abbrev after : World
after =
    (consume_grant_at packages copy_file_family authority world (some token) session asked 1030).0

token_accepted :
    consume_grant_at packages copy_file_family authority world (some token) session asked 1030
    ≡ (after, ok tt)
unfolding new
token_accepted =
    let accepted =
      consume-issue_at packages copy_file_family authority world (new max_consumed_grants) (uuid 1)
        session asked token 1000 1030 packages-HasMacSize key_valid uuid-IsUuid grant_issued refl tt
        grant-IsAdmissible (omega arith) in
    λ i. (after, accepted i)

abbrev between : List Action
between = resolves (codes "files") 4 ∷ consumes 0 second_call ∷ []

consume_token_once_example :
    (consume_grant_at packages copy_file_family authority
      (Registry.run after between)
      (some token)
      session
      asked
      1031).1
    ≢ ok tt
consume_token_once_example =
    consume_token_once packages copy_file_family authority world after token session session asked
      asked 1030 1031 between token_accepted

grant-IsWellSized : IsWellSized grant
grant-IsWellSized =
    issued-IsWellSized packages copy_file_family authority (uuid 1) session asked 1000
      packages-HasMacSize uuid-IsUuid (omega arith)

pub grant_authorized :
    authorize packages copy_file_family authority (some token) session asked ≡ ok grant
unfolding parse_canonical_session beq
grant_authorized =
    (authorize_iff packages copy_file_family authority token session asked grant packages-HasMacSize
        key_valid).1
      (record {
        session = session;
        parsed = refl;
        canonical = refl;
        sized = grant-IsWellSized;
        signed = refl;
        capability = refl;
        bound = refl;
      })

pub parsed_length : (s b : Bytes) → packages.parse_uuid s ≡ some b → length b ≡ 16
parsed_length s b e = ground arith

same_message :
    (b b' : Bytes)
    → packages.parse_uuid session ≡ some b
    → packages.parse_uuid session ≡ some b'
    → binding_message packages copy_file_family authority grant.grant_id b asked
      ≡ binding_message packages copy_file_family authority grant.grant_id b' asked
same_message b b' e e' =
    let k : b ≡ b' = cc in
    ap (λ x. binding_message packages copy_file_family authority grant.grant_id x asked) k

copy_authorize-injective_example : (session ≡ session) × (target ≡ target)
copy_authorize-injective_example =
    copy_authorize-injective packages authority token session session target target grant grant
      target-IsTarget target-IsTarget parsed_length (λ b b' e e' _. same_message b b' e e')
      grant_authorized grant_authorized

parse_and_verify-encode_and_sign_example :
    parse_and_verify packages copy_file_family authority
      (encode_and_sign packages copy_file_family authority grant)
    ≡ ok grant
parse_and_verify-encode_and_sign_example =
    parse_and_verify-encode_and_sign packages copy_file_family authority grant packages-HasMacSize
      key_valid grant-IsWellSized

parse_and_verify-canonical_example :
    IsWellSized grant × (token ≡ encode_and_sign packages copy_file_family authority grant)
parse_and_verify-canonical_example =
    parse_and_verify-canonical packages copy_file_family authority token grant (
      authorize-parsed packages copy_file_family authority token session asked grant
        grant_authorized)
