-- ===== src/CreateDirectory/Payload.antt =====
-- The 130-byte payload is a bijection between the grants of the right sizes and its strings.
use termux_mcp_edge.Base.{
  ℕ, ◌<◌, ◌^◌, ◌≡◌, refl, sym, ◌∙◌, subst, arith, List, [], ◌∷◌, length, Bytes, AreBytes, All,
  length-to_be_bytes, to_be_bytes-AreBytes, from_be_bytes-to_be_bytes,
}
use termux_mcp_edge.Payload.Fields.{HaveWidths}
use termux_mcp_edge.Signed.Token.{IsCodec}
use termux_mcp_edge.Signed.Schema.{
  IsSchema, schema_codec-IsCodec, listed, listed-HaveWidths, byte_text, field-lt, field_text,
  one_byte, field,
}
use termux_mcp_edge.CreateDirectory.{
  ParsedGrant, encode_payload, decode_payload, payload_schema, payload_codec,
}

pub record IsSized (g : ParsedGrant) : Type 0 where
  pub grant_id : (length g.grant_id ≡ 16) × AreBytes g.grant_id
  pub principal_digest : (length g.principal_digest ≡ 32) × AreBytes g.principal_digest
  pub session_id : (length g.session_id ≡ 16) × AreBytes g.session_id
  pub capability : g.capability < 256
  pub root_device : g.root_device < 256 ^ 8
  pub root_inode : g.root_inode < 256 ^ 8
  pub target_digest : (length g.target_digest ≡ 32) × AreBytes g.target_digest
  pub posture : g.posture < 256
  pub issued : g.issued_unix_seconds < 256 ^ 8
  pub expires : g.expires_unix_seconds < 256 ^ 8

widths_of : (g : ParsedGrant) → IsSized g → HaveWidths payload_schema.widths (encode_payload g)
widths_of g w =
    let at = λ (x : ℕ). length-to_be_bytes 8 x in
    (
      w.grant_id.0,
      (
        w.principal_digest.0,
        (w.session_id.0, (refl, (at _, (at _, (w.target_digest.0, (refl, (at _, (at _, tt)))))))),
      ),
    )

bytes_of : (g : ParsedGrant) → IsSized g → All AreBytes (encode_payload g)
bytes_of g w =
    let at = λ (x : ℕ). to_be_bytes-AreBytes 8 x in
    (
      w.grant_id.1,
      (
        w.principal_digest.1,
        (
          w.session_id.1,
          (
            (w.capability, tt),
            (at _, (at _, (w.target_digest.1, ((w.posture, tt), (at _, (at _, tt)))))),
          ),
        ),
      ),
    )

read_back : (g : ParsedGrant) → IsSized g → decode_payload (encode_payload g) ≡ g
read_back g w =
    let a = one_byte g.capability in
    let b = from_be_bytes-to_be_bytes 8 g.root_device w.root_device in
    let c = from_be_bytes-to_be_bytes 8 g.root_inode w.root_inode in
    let d = one_byte g.posture in
    let e = from_be_bytes-to_be_bytes 8 g.issued_unix_seconds w.issued in
    let f = from_be_bytes-to_be_bytes 8 g.expires_unix_seconds w.expires in
    λ i. record {
      grant_id = g.grant_id;
      principal_digest = g.principal_digest;
      session_id = g.session_id;
      capability = a i;
      root_device = b i;
      root_inode = c i;
      target_digest = g.target_digest;
      posture = d i;
      issued_unix_seconds = e i;
      expires_unix_seconds = f i;
    }

sized :
    (fs : List Bytes)
    → HaveWidths payload_schema.widths fs
    → All AreBytes fs
    → IsSized (decode_payload fs) × (encode_payload (decode_payload fs) ≡ fs)
sized fs h b =
    let whole = listed-HaveWidths payload_schema.widths fs h in
    let h' : HaveWidths payload_schema.widths (listed 10 fs) =
      subst (HaveWidths payload_schema.widths) (sym whole) h in
    let b' : All AreBytes (listed 10 fs) = subst (All AreBytes) (sym whole) b in
    let (l0, (l1, (l2, (l3, (l4, (l5, (l6, (l7, (l8, (l9, _)))))))))) = h' in
    let (b0, (b1, (b2, (b3, (b4, (b5, (b6, (b7, (b8, (b9, _)))))))))) = b' in
    (
      record {
        grant_id = (l0, b0);
        principal_digest = (l1, b1);
        session_id = (l2, b2);
        capability = field-lt 1 (field 3 fs) l3 b3;
        root_device = field-lt 8 (field 4 fs) l4 b4;
        root_inode = field-lt 8 (field 5 fs) l5 b5;
        target_digest = (l6, b6);
        posture = field-lt 1 (field 7 fs) l7 b7;
        issued = field-lt 8 (field 8 fs) l8 b8;
        expires = field-lt 8 (field 9 fs) l9 b9;
      },
      (λ i.
            field 0 fs
            ∷ field 1 fs
            ∷ field 2 fs
            ∷ byte_text (field 3 fs) l3 i
            ∷ field_text 8 (field 4 fs) l4 b4 i
            ∷ field_text 8 (field 5 fs) l5 b5 i
            ∷ field 6 fs
            ∷ byte_text (field 7 fs) l7 i
            ∷ field_text 8 (field 8 fs) l8 b8 i
            ∷ field_text 8 (field 9 fs) l9 b9 i
            ∷ [])
          ∙ whole,
    )

payload_schema-IsSchema : IsSchema payload_schema IsSized
payload_schema-IsSchema = record {
  small = omega arith;
  widths_of = widths_of;
  bytes_of = bytes_of;
  accepted = λ g w. refl;
  read_back = read_back;
  sized = λ fs h b e. sized fs h b;
}

pub payload_codec-IsCodec : IsCodec payload_codec IsSized
payload_codec-IsCodec = schema_codec-IsCodec payload_schema IsSized payload_schema-IsSchema
