-- ===== src/Signed/Token.antt =====
-- Tokens and grants determine one another, whatever codec lays the payload out.
use termux_mcp_edge.Base.{
  ◌≤◌, ◌<◌, ◌+◌, ◌*◌, ◌≡◌, ◌≢◌, refl, sym, ◌∙◌, subst, true, false, ◌||◌, not, [], ◌∷◌, ◌++◌,
  append_assoc, arith, Bytes, AreBytes, All, ◌==◌, ltb, some, all, length, take, length-append,
  take-append, beq, beq_refl, eq_of_beq, ==_iff, ok, ok_or, refuse_if, >>=-eq-ok, refuse_if-eq-ok,
}
use mathlib.Core.Path.{subst₂}
use termux_mcp_edge.Hex.{encode_hex, decode_hex_array, is_ascii}
use termux_mcp_edge.Hex.Laws.{
  IsDigit, length-encode_hex, encode_hex-digits, decode_hex_array-encode_hex,
  decode_hex_array-canonical,
}
use termux_mcp_edge.Signed.{
  malformed, unknown_version, unknown_key, signature_invalid, Packages, HasMacSize, Codec,
  Authority, Segments, four_segments, split, valid_key_id, is_key_id_byte, grant_version,
  max_grant_header_bytes, mac_bytes, signed_text, encode_and_sign, verify_signature,
  parse_and_verify,
}
use termux_mcp_edge.Signed.Split.{NoDot, split_last, split_dot, four_segments-join}

-- ASCII, and no dot.
abbrev IsPlain : Bytes → Type 0
IsPlain = All (λ c. (c < 128) × (c ≢ b'.'))

IsPlain-NoDot : (s : Bytes) → IsPlain s → NoDot s
IsPlain-NoDot [] h = tt
IsPlain-NoDot (c ∷ s) ((a, d), h) = (d, IsPlain-NoDot s h)

IsPlain-ascii : (s : Bytes) → IsPlain s → is_ascii s ≡ true
IsPlain-ascii [] h = refl
IsPlain-ascii (c ∷ s) ((a, d), h) = ground (arith, IsPlain-ascii s h)

digits-IsPlain : (s : Bytes) → All IsDigit s → IsPlain s
digits-IsPlain [] h = tt
digits-IsPlain (c ∷ s) ((a, d), h) = ((a, omega arith), digits-IsPlain s h)

key_id_bytes-IsPlain : (s : Bytes) → all is_key_id_byte s ≡ true → IsPlain s
key_id_bytes-IsPlain [] h = tt
key_id_bytes-IsPlain (c ∷ s) h =
    ((ground arith, ground arith), key_id_bytes-IsPlain s (ground arith))

valid_key_id-IsPlain : (s : Bytes) → valid_key_id s ≡ true → IsPlain s × (length s ≤ 32)
unfolding valid_key_id
valid_key_id-IsPlain s h = (key_id_bytes-IsPlain s (ground arith), ground arith)

ascii-append : (s t : Bytes) → is_ascii s ≡ true → is_ascii t ≡ true → is_ascii (s ++ t) ≡ true
ascii-append [] t h k = k
ascii-append (c ∷ s) t h k = ground (arith, ascii-append s t)

-- What makes a codec a bijection between the grants of the right sizes and the strings of its size,
-- of which the longest fits the header.
pub record IsCodec {G : Type 0} (codec : Codec G) (IsSized : G → Type 0) : Type 0 where
  pub small : codec.size ≤ 130
  pub encoded_length : (g : G) → IsSized g → length (codec.encode g) ≡ codec.size
  pub encoded_bytes : (g : G) → IsSized g → AreBytes (codec.encode g)
  pub decoded : (g : G) → IsSized g → codec.decode (codec.encode g) ≡ some g
  pub canonical :
      (p : Bytes) (g : G)
      → length p ≡ codec.size
      → AreBytes p
      → codec.decode p ≡ some g
      → IsSized g × (codec.encode g ≡ p)

module _ (pk : Packages) {G : Type 0} (codec : Codec G) (IsSized : G → Type 0) (a : Authority) where
  abbrev Text : Bytes → Bytes → Bytes
  Text p q = grant_version ++ b'.' ∷ (a.key_id ++ b'.' ∷ (p ++ b'.' ∷ q))

  abbrev segments_of : Bytes → Bytes → Segments
  segments_of p q = record {
    version = grant_version;
    key_id = a.key_id;
    payload_hex = p;
    signature_hex = q;
  }

  Text-segments :
      (p q : Bytes)
      → NoDot a.key_id
      → NoDot p
      → NoDot q
      → four_segments (split b'.' (Text p q)) ≡ some (segments_of p q)
  Text-segments p q hk hp hq = rw (
    split_dot grant_version (a.key_id ++ b'.' ∷ (p ++ b'.' ∷ q)) (λ e. cc, (λ e. cc, tt)),
    split_dot a.key_id (p ++ b'.' ∷ q) hk,
    split_dot p q hp,
    split_last q hq,
  )

  length-signed_text : (p : Bytes) → length (signed_text a p) ≡ 4 + length a.key_id + length p
  unfolding signed_text
  length-signed_text p = omega (arith, length-append a.key_id (b'.' ∷ p))

  signed_text-Text : (p q : Bytes) → signed_text a p ++ (b'.' ∷ q) ≡ Text p q
  unfolding signed_text
  signed_text-Text p q = simp append_assoc

  length-Text : (p q : Bytes) → length (Text p q) ≡ 5 + length a.key_id + length p + length q
  length-Text p q =
      omega (arith, length-append a.key_id (b'.' ∷ (p ++ b'.' ∷ q)), length-append p (b'.' ∷ q))

  verify_signature-Text :
      (p q signature : Bytes)
      → verify_signature pk codec a (Text p q) (segments_of p q) signature
        ≡ refuse_if (not (beq (pk.hmac a.key (signed_text a p)) signature)) signature_invalid
  unfolding verify_signature
  verify_signature-Text p q signature =
      let n = 2 + 1 + length a.key_id + 1 + length p in
      let prefix : take n (Text p q) ≡ signed_text a p =
        subst (λ t. take n t ≡ signed_text a p) (signed_text-Text p q)
          (take-append n (signed_text a p) (b'.' ∷ q) (omega (arith, length-signed_text p))) in
      ground (arith, prefix, length-Text p q)

  Text-ascii : (p q : Bytes) → IsPlain a.key_id → IsPlain p → IsPlain q → is_ascii (Text p q) ≡ true
  Text-ascii p q hk hp hq =
      ascii-append a.key_id (b'.' ∷ (p ++ b'.' ∷ q)) (IsPlain-ascii a.key_id hk)
        (ascii-append p (b'.' ∷ q) (IsPlain-ascii p hp) (IsPlain-ascii q hq))

  fits :
      (t : Bytes)
      → 0 < length t
      → length t ≤ max_grant_header_bytes
      → is_ascii t ≡ true
      → (length t == 0 || ltb max_grant_header_bytes (length t) || not (is_ascii t)) ≡ false
  fits t h k e = rw e (ground arith)

  parse_and_verify-Text :
      (p q payload : Bytes) (g : G)
      → codec.size ≤ 130
      → valid_key_id a.key_id ≡ true
      → IsPlain p
      → IsPlain q
      → length p ≡ codec.size * 2
      → length q ≡ 64
      → decode_hex_array codec.size p ≡ some payload
      → decode_hex_array 32 q ≡ some (pk.hmac a.key (signed_text a p))
      → codec.decode payload ≡ some g
      → parse_and_verify pk codec a (Text p q) ≡ ok g
  unfolding parse_and_verify beq
  parse_and_verify-Text p q payload g small hk plain_p plain_q lp lq dp dq dg =
      let mac = pk.hmac a.key (signed_text a p) in
      let (plain_key, short_key) = valid_key_id-IsPlain a.key_id hk in
      let size = length-Text p q in
      let segments =
        Text-segments p q (IsPlain-NoDot _ plain_key) (IsPlain-NoDot p plain_p)
          (IsPlain-NoDot q plain_q) in
      rw (
        fits (Text p q) (omega arith) (omega arith) (Text-ascii p q plain_key plain_p plain_q),
        segments,
        beq_refl a.key_id,
        lp,
        lq,
        (==_iff (codec.size * 2) (codec.size * 2)).1 refl,
        dp,
        dq,
        verify_signature-Text p q mac,
        beq_refl mac,
        dg,
      )

  -- With MACs of 32 bytes and a valid key identifier, a signed well-sized grant parses back to
  -- itself.
  pub parse_and_verify-encode_and_sign :
      (g : G)
      → IsCodec codec IsSized
      → HasMacSize pk
      → valid_key_id a.key_id ≡ true
      → IsSized g
      → parse_and_verify pk codec a (encode_and_sign pk codec a g) ≡ ok g
  unfolding encode_and_sign
  parse_and_verify-encode_and_sign g c sized hk w =
      let payload = codec.encode g in
      let p = encode_hex payload in
      let mac = pk.hmac a.key (signed_text a p) in
      let (mac_length, mac_are_bytes) = sized a.key (signed_text a p) in
      let q = encode_hex mac in
      let payload_are_bytes = c.encoded_bytes g w in
      let count = c.encoded_length g w in
      let decoded : decode_hex_array codec.size p ≡ some payload =
        subst (λ n. decode_hex_array n p ≡ some payload) count
          (decode_hex_array-encode_hex payload payload_are_bytes) in
      let decoded_mac : decode_hex_array 32 q ≡ some mac =
        subst (λ n. decode_hex_array n q ≡ some mac) mac_length
          (decode_hex_array-encode_hex mac mac_are_bytes) in
      rw (signed_text-Text p q) (
        parse_and_verify-Text p q payload g c.small hk
          (digits-IsPlain p (encode_hex-digits payload payload_are_bytes))
          (digits-IsPlain q (encode_hex-digits mac mac_are_bytes))
          (omega (arith, length-encode_hex payload, count))
          (omega (arith, length-encode_hex mac, mac_length)) decoded decoded_mac (c.decoded g w))

  verified :
      (token : Bytes) (s : Segments) (signature : Bytes) {u : Unit {0}}
      → s.version ≡ grant_version
      → s.key_id ≡ a.key_id
      → token ≡ Text s.payload_hex s.signature_hex
      → verify_signature pk codec a token s signature ≡ ok u
      → pk.hmac a.key (signed_text a s.payload_hex) ≡ signature
  verified token s signature {u} version key shape h =
      let p = s.payload_hex in
      let q = s.signature_hex in
      let same : s ≡ segments_of p q =
        λ i. record { version = version i; key_id = key i; payload_hex = p; signature_hex = q } in
      let moved = subst₂ (λ t k. verify_signature pk codec a t k signature ≡ ok u) shape same h in
      let passed =
        refuse_if-eq-ok _ signature_invalid (sym (verify_signature-Text p q signature) ∙ moved) in
      eq_of_beq _ _ (ground (arith, passed))

  -- The authority accepts no token but the one that it would have signed: whatever parses is well
  -- sized, and signing it again gives the same text.
  pub parse_and_verify-canonical :
      (token : Bytes) (g : G)
      → IsCodec codec IsSized
      → parse_and_verify pk codec a token ≡ ok g
      → IsSized g × (token ≡ encode_and_sign pk codec a g)
  unfolding encode_and_sign parse_and_verify
  parse_and_verify-canonical token g c h =
      let (_, _, h1) =
        >>=-eq-ok
          (refuse_if
            (length token == 0 || ltb max_grant_header_bytes (length token) || not (is_ascii token))
            malformed)
          _ h in
      let (s, es, h2) = >>=-eq-ok (ok_or (four_segments (split b'.' token)) malformed) _ h1 in
      let (_, ev, h3) =
        >>=-eq-ok (refuse_if (not (beq s.version grant_version)) unknown_version) _ h2 in
      let (_, ek, h4) = >>=-eq-ok (refuse_if (not (beq s.key_id a.key_id)) unknown_key) _ h3 in
      let (_, _, h5) =
        >>=-eq-ok
          (refuse_if
            (not (length s.payload_hex == codec.size * 2)
              || not (length s.signature_hex == mac_bytes * 2))
            malformed)
          _ h4 in
      let (payload, ep, h6) =
        >>=-eq-ok (ok_or (decode_hex_array codec.size s.payload_hex) malformed) _ h5 in
      let (signature, eq, h7) =
        >>=-eq-ok (ok_or (decode_hex_array mac_bytes s.signature_hex) malformed) _ h6 in
      let (_, er, h8) = >>=-eq-ok (verify_signature pk codec a token s signature) _ h7 in
      let version : s.version ≡ grant_version = eq_of_beq _ _ (ground (arith, ev)) in
      let key : s.key_id ≡ a.key_id = eq_of_beq _ _ (ground (arith, ek)) in
      let joined = four_segments-join token s (ground (arith, es)) in
      let (p_text, p_length, p_bytes) =
        decode_hex_array-canonical codec.size s.payload_hex payload (ground (arith, ep)) in
      let (q_text, q_length, q_bytes) =
        decode_hex_array-canonical mac_bytes s.signature_hex signature (ground (arith, eq)) in
      let (w, payload_text) = c.canonical payload g p_length p_bytes (ground (arith, h8)) in
      let shape : token ≡ Text s.payload_hex s.signature_hex = joined ∙ rw (version, key) in
      let signed : pk.hmac a.key (signed_text a s.payload_hex) ≡ signature =
        verified token s signature version key shape er in
      (
        w,
        shape
            ∙ rw (
              payload_text,
              p_text,
              signed_text-Text s.payload_hex (encode_hex _),
              signed,
              q_text,
            ),
      )
