-- ===== src/Grant/Families.antt =====
-- A token of the families whose grants are keyed MACs is of one of them only.
use termux_mcp_edge.Base.{◌≡◌, ap, sym, ◌∙◌, arith, Bytes, some, ok}
use termux_mcp_edge.Payload.{ParsedGrant}
use termux_mcp_edge.Grant.{payload_codec, Family, authorize, parse_and_verify}
use termux_mcp_edge.Signed.{RequestGrantCapability, wire_code, Packages, Authority}
use termux_mcp_edge.Signed.Families.{payload_grant-parsed}
use termux_mcp_edge.Grant.Authorize.{authorize-parsed, authorize_sound}

wire_code-injective : (c d : RequestGrantCapability) → wire_code c ≡ wire_code d → c ≡ d
wire_code-injective c d e = ground arith

-- Two authorities, of any families and with any keys, that accept one token are of one family.
pub authorize-capability_eq :
    (pk : Packages) (family family' : Family) (a a' : Authority)
    (token session_id session_id' target target' : Bytes) (g g' : ParsedGrant)
    → authorize pk family a (some token) session_id target ≡ ok g
    → authorize pk family' a' (some token) session_id' target' ≡ ok g'
    → family.capability ≡ family'.capability
unfolding parse_and_verify
authorize-capability_eq pk family family' a a' token session_id session_id' target target' g g' h
      h' =
    let p =
      payload_grant-parsed pk payload_codec a token g
        (authorize-parsed pk family a token session_id target g h) in
    let p' =
      payload_grant-parsed pk payload_codec a' token g'
        (authorize-parsed pk family' a' token session_id' target' g' h') in
    let same : g ≡ g' = cc in
    wire_code-injective family.capability family'.capability (
      sym (authorize_sound pk family a token session_id target g h).capability
      ∙ ap (λ x. x.capability) same
      ∙ (authorize_sound pk family' a' token session_id' target' g' h').capability)
