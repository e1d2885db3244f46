-- ===== src/Grant/Token.antt =====
-- Tokens and grants of a family with a keyed binding determine one another.
use termux_mcp_edge.Base.{◌≡◌, true, ok, Bytes, arith}
use termux_mcp_edge.Payload.{ParsedGrant}
use termux_mcp_edge.Payload.Laws.{
  IsWellSized, decode_payload-encode_payload, encode_payload-decode_payload, length-encode_payload,
  encode_payload-AreBytes,
}
use termux_mcp_edge.Signed.{Packages, HasMacSize, Authority, valid_key_id}
use termux_mcp_edge.Signed.Token
use termux_mcp_edge.Signed.Token.{IsCodec}
use termux_mcp_edge.Grant.{Family, payload_codec, encode_and_sign, parse_and_verify}

payload_codec-IsCodec : IsCodec payload_codec IsWellSized
payload_codec-IsCodec = record {
  small = omega arith;
  encoded_length = length-encode_payload;
  encoded_bytes = encode_payload-AreBytes;
  decoded = decode_payload-encode_payload;
  canonical = encode_payload-decode_payload;
}

module _ (pk : Packages) (family : Family) (a : Authority) where
  -- With MACs of 32 bytes and a valid key identifier, a signed well-sized grant parses back to
  -- itself.
  pub parse_and_verify-encode_and_sign :
      (g : ParsedGrant)
      → HasMacSize pk
      → valid_key_id a.key_id ≡ true
      → IsWellSized g
      → parse_and_verify pk family a (encode_and_sign pk family a g) ≡ ok g
  unfolding encode_and_sign parse_and_verify
  parse_and_verify-encode_and_sign g sized key w =
      Token.parse_and_verify-encode_and_sign pk payload_codec IsWellSized a g payload_codec-IsCodec
        sized key w

  -- The authority accepts no token but the one that it would have signed: whatever parses is well
  -- sized, and signing it again gives the same text.
  pub parse_and_verify-canonical :
      (token : Bytes) (g : ParsedGrant)
      → parse_and_verify pk family a token ≡ ok g
      → IsWellSized g × (token ≡ encode_and_sign pk family a g)
  unfolding encode_and_sign parse_and_verify
  parse_and_verify-canonical token g h =
      Token.parse_and_verify-canonical pk payload_codec IsWellSized a token g payload_codec-IsCodec
        h
