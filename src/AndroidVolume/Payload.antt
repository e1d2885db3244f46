-- ===== src/AndroidVolume/Payload.antt =====
-- The 91-byte payload is a bijection between the grants of the right sizes and its strings.
use termux_mcp_edge.Base.{
  ℕ, ◌<◌, ◌^◌, ◌≡◌, refl, sym, ◌∙◌, subst, true, arith, List, [], ◌∷◌, length, Bytes, AreBytes, All,
  is_some, length-to_be_bytes, to_be_bytes-AreBytes, from_be_bytes-to_be_bytes,
}
use termux_mcp_edge.Payload.Fields.{HaveWidths}
use termux_mcp_edge.Signed.Token.{IsCodec}
use termux_mcp_edge.Signed.Schema.{
  IsSchema, schema_codec-IsCodec, listed, listed-HaveWidths, byte_text, field-lt, field_text,
  one_byte, field,
}
use termux_mcp_edge.AndroidVolume.{
  ParsedGrant, from_grant_code, encode_payload, decode_payload, payload_schema, payload_codec,
}

-- The widths that the source's types give, and a stream that there is.
pub record IsSized (g : ParsedGrant) : Type 0 where
  pub grant_id : (length g.grant_id ≡ 16) × AreBytes g.grant_id
  pub principal_digest : (length g.principal_digest ≡ 32) × AreBytes g.principal_digest
  pub session_id : (length g.session_id ≡ 16) × AreBytes g.session_id
  pub capability : g.capability < 256
  pub stream : g.stream < 256
  pub coded : is_some (from_grant_code g.stream) ≡ true
  pub level : g.level < 256 ^ 8
  pub posture : g.posture < 256
  pub issued : g.issued_unix_seconds < 256 ^ 8
  pub expires : g.expires_unix_seconds < 256 ^ 8

widths_of : (g : ParsedGrant) → IsSized g → HaveWidths payload_schema.widths (encode_payload g)
widths_of g w =
    let at = λ (x : ℕ). length-to_be_bytes 8 x in
    (
      w.grant_id.0,
      (w.principal_digest.0, (w.session_id.0, (refl, (refl, (at _, (refl, (at _, (at _, tt)))))))),
    )

bytes_of : (g : ParsedGrant) → IsSized g → All AreBytes (encode_payload g)
bytes_of g w =
    let at = λ (x : ℕ). to_be_bytes-AreBytes 8 x in
    (
      w.grant_id.1,
      (
        w.principal_digest.1,
        (
          w.session_id.1,
          ((w.capability, tt), ((w.stream, tt), (at _, ((w.posture, tt), (at _, (at _, tt)))))),
        ),
      ),
    )

accepted : (g : ParsedGrant) → IsSized g → payload_schema.accepts (encode_payload g) ≡ true
accepted g w = rw (one_byte g.stream) w.coded

read_back : (g : ParsedGrant) → IsSized g → decode_payload (encode_payload g) ≡ g
read_back g w =
    let a = one_byte g.capability in
    let b = one_byte g.stream in
    let c = from_be_bytes-to_be_bytes 8 g.level w.level in
    let d = one_byte g.posture in
    let e = from_be_bytes-to_be_bytes 8 g.issued_unix_seconds w.issued in
    let f = from_be_bytes-to_be_bytes 8 g.expires_unix_seconds w.expires in
    λ i. record {
      grant_id = g.grant_id;
      principal_digest = g.principal_digest;
      session_id = g.session_id;
      capability = a i;
      stream = b i;
      level = c i;
      posture = d i;
      issued_unix_seconds = e i;
      expires_unix_seconds = f i;
    }

sized :
    (fs : List Bytes)
    → HaveWidths payload_schema.widths fs
    → All AreBytes fs
    → payload_schema.accepts fs ≡ true
    → IsSized (decode_payload fs) × (encode_payload (decode_payload fs) ≡ fs)
sized fs h b passed =
    let whole = listed-HaveWidths payload_schema.widths fs h in
    let h' : HaveWidths payload_schema.widths (listed 9 fs) =
      subst (HaveWidths payload_schema.widths) (sym whole) h in
    let b' : All AreBytes (listed 9 fs) = subst (All AreBytes) (sym whole) b in
    let (l0, (l1, (l2, (l3, (l4, (l5, (l6, (l7, (l8, _))))))))) = h' in
    let (b0, (b1, (b2, (b3, (b4, (b5, (b6, (b7, (b8, _))))))))) = b' in
    (
      record {
        grant_id = (l0, b0);
        principal_digest = (l1, b1);
        session_id = (l2, b2);
        capability = field-lt 1 (field 3 fs) l3 b3;
        stream = field-lt 1 (field 4 fs) l4 b4;
        coded = passed;
        level = field-lt 8 (field 5 fs) l5 b5;
        posture = field-lt 1 (field 6 fs) l6 b6;
        issued = field-lt 8 (field 7 fs) l7 b7;
        expires = field-lt 8 (field 8 fs) l8 b8;
      },
      (λ i.
            field 0 fs
            ∷ field 1 fs
            ∷ field 2 fs
            ∷ byte_text (field 3 fs) l3 i
            ∷ byte_text (field 4 fs) l4 i
            ∷ field_text 8 (field 5 fs) l5 b5 i
            ∷ byte_text (field 6 fs) l6 i
            ∷ field_text 8 (field 7 fs) l7 b7 i
            ∷ field_text 8 (field 8 fs) l8 b8 i
            ∷ [])
          ∙ whole,
    )

payload_schema-IsSchema : IsSchema payload_schema IsSized
payload_schema-IsSchema = record {
  small = omega arith;
  widths_of = widths_of;
  bytes_of = bytes_of;
  accepted = accepted;
  read_back = read_back;
  sized = sized;
}

pub payload_codec-IsCodec : IsCodec payload_codec IsSized
payload_codec-IsCodec = schema_codec-IsCodec payload_schema IsSized payload_schema-IsSchema
