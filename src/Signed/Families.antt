-- ===== src/Signed/Families.antt =====
-- What a token says, whoever reads it.
use termux_mcp_edge.Base.{
  ◌*◌, ◌≡◌, ◌≢◌, ap, sym, ◌∙◌, not, ◌||◌, arith, Bytes, some, beq, ◌==◌, ltb, length, Result, ok,
  err, ◌>>=◌, ok_or, refuse_if, >>=-eq-ok, Result-cases, inl, inr,
}
use termux_mcp_edge.Hex.{decode_hex_array, is_ascii}
use termux_mcp_edge.Signed.{
  GrantError, malformed, unknown_version, unknown_key, max_grant_header_bytes, mac_bytes,
  grant_version, split, Segments, four_segments, Packages, Authority, Codec, parse_and_verify,
  verify_signature,
}

-- What a token says, whoever signed it.
pub payload_grant : {G : Type 0} → Codec G → Bytes → Result GrantError G
payload_grant codec token = do
  s ← ok_or (four_segments (split b'.' token)) malformed
  payload ← ok_or (decode_hex_array codec.size s.payload_hex) malformed
  ok_or (codec.decode payload) malformed

module _ (pk : Packages) {G : Type 0} (codec : Codec G) (a : Authority) where
  pub payload_grant-parsed :
      (token : Bytes) (g : G)
      → parse_and_verify pk codec a token ≡ ok g
      → payload_grant codec token ≡ ok g
  unfolding parse_and_verify payload_grant
  payload_grant-parsed token g h =
      let (_, _, h1) =
        >>=-eq-ok
          (refuse_if
            (length token == 0 || ltb max_grant_header_bytes (length token) || not (is_ascii token))
            malformed)
          _ h in
      let (s, es, h2) = >>=-eq-ok (ok_or (four_segments (split b'.' token)) malformed) _ h1 in
      let (_, _, h3) =
        >>=-eq-ok (refuse_if (not (beq s.version grant_version)) unknown_version) _ h2 in
      let (_, _, h4) = >>=-eq-ok (refuse_if (not (beq s.key_id a.key_id)) unknown_key) _ h3 in
      let (_, _, h5) =
        >>=-eq-ok
          (refuse_if
            (not (length s.payload_hex == codec.size * 2)
              || not (length s.signature_hex == mac_bytes * 2))
            malformed)
          _ h4 in
      let (payload, ep, h6) =
        >>=-eq-ok (ok_or (decode_hex_array codec.size s.payload_hex) malformed) _ h5 in
      let (signature, _, h7) =
        >>=-eq-ok (ok_or (decode_hex_array mac_bytes s.signature_hex) malformed) _ h6 in
      let (_, _, h8) = >>=-eq-ok (verify_signature pk codec a token s signature) _ h7 in
      rw (es, ep) h8

  -- The length of an accepted token's payload.
  parse_and_verify-size :
      (token : Bytes) (g : G)
      → parse_and_verify pk codec a token ≡ ok g
      → (s : Segments) × (four_segments (split b'.' token) ≡ some s)
        × (length s.payload_hex ≡ codec.size * 2)
  unfolding parse_and_verify
  parse_and_verify-size token g h =
      let (_, _, h1) =
        >>=-eq-ok
          (refuse_if
            (length token == 0 || ltb max_grant_header_bytes (length token) || not (is_ascii token))
            malformed)
          _ h in
      let (s, es, h2) = >>=-eq-ok (ok_or (four_segments (split b'.' token)) malformed) _ h1 in
      let (_, _, h3) =
        >>=-eq-ok (refuse_if (not (beq s.version grant_version)) unknown_version) _ h2 in
      let (_, _, h4) = >>=-eq-ok (refuse_if (not (beq s.key_id a.key_id)) unknown_key) _ h3 in
      let (_, e, _) =
        >>=-eq-ok
          (refuse_if
            (not (length s.payload_hex == codec.size * 2)
              || not (length s.signature_hex == mac_bytes * 2))
            malformed)
          _ h4 in
      (s, ground (arith, es), ground (arith, e))

-- A token whose payload has another size is refused, whoever signed it.
pub parse_and_verify_other_size :
    (pk : Packages) {G H : Type 0} (codec : Codec G) (other : Codec H) (a b : Authority)
    (token : Bytes) (g : G)
    → codec.size ≢ other.size
    → parse_and_verify pk codec a token ≡ ok g
    → (e : GrantError) × (parse_and_verify pk other b token ≡ err e)
parse_and_verify_other_size pk codec other a b token g differ h =
    elim (Result-cases (parse_and_verify pk other b token)) [
      | inl refused ↦ refused
      | inr (k, passed) ↦
          let (s, cut, size) = parse_and_verify-size pk codec a token g h in
          let (t, cut', size') = parse_and_verify-size pk other b token k passed in
          let same : s ≡ t = cc in
          let widths : codec.size * 2 ≡ other.size * 2 =
            sym size ∙ ap (λ x. length x.payload_hex) same ∙ size' in
          absurd (differ (omega (arith, widths)))
    ]
