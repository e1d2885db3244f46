-- ===== src/Signed/Schema.antt =====
-- Codecs of payloads that are laid out field by field (src/create_directory_grant.rs and
-- src/android_volume_grant.rs).
use termux_mcp_edge.Base.{
  ℕ, zero, suc, ◌+◌, ◌*◌, ◌≤◌, ◌<◌, ◌^◌, ◌≡◌, refl, sym, ◌∙◌, ap, subst, arith, Bool, true, ◌&&◌,
  Option, some, none, List, [], ◌∷◌, length, concat, Bytes, AreBytes, All, ◌==◌, ==_iff,
  if◌then◌else◌, from_be_bytes, to_be_bytes, Bool-cases, inl, inr, from_be_bytes-lt,
  to_be_bytes-from_be_bytes,
}
use termux_mcp_edge.Base.Options.{◌>>=◌, >>=-eq-some}
use termux_mcp_edge.Payload.Fields.{
  lay_out, take_fields, sum, HaveWidths, lay_out-concat, length-concat, take_fields-lay_out,
  take_fields-concat, fields-AreBytes, concat-AreBytes,
}
use termux_mcp_edge.Signed.{Codec}
use termux_mcp_edge.Signed.Token.{IsCodec}

-- The fields of a grant in their order, and the grant that fields make up. `accepts` is what
-- decoding tests besides.
pub record Schema (G : Type 0) : Type 0 where
  pub widths : List ℕ
  pub fields_of : G → List Bytes
  pub grant_of : List Bytes → G
  pub accepts : List Bytes → Bool

module _ {G : Type 0} (s : Schema G) where
  unfoldable pub encode_fields : G → Bytes
  encode_fields grant = lay_out (sum s.widths) (s.fields_of grant)

  -- `(offset == PAYLOAD_BYTES).then_some(grant)`, once every field is taken.
  unfoldable pub decode_fields : Bytes → Option G
  decode_fields payload = do
    (fields, offset) ← take_fields s.widths payload 0
    if s.accepts fields && offset == sum s.widths then some (s.grant_of fields) else none

  abbrev pub schema_codec : Codec G
  schema_codec = record { size = sum s.widths; encode = encode_fields; decode = decode_fields }

-- Fields of the widths, and grants of the sizes, determine one another.
pub record IsSchema {G : Type 0} (s : Schema G) (IsSized : G → Type 0) : Type 0 where
  pub small : sum s.widths ≤ 130
  pub widths_of : (g : G) → IsSized g → HaveWidths s.widths (s.fields_of g)
  pub bytes_of : (g : G) → IsSized g → All AreBytes (s.fields_of g)
  pub accepted : (g : G) → IsSized g → s.accepts (s.fields_of g) ≡ true
  pub read_back : (g : G) → IsSized g → s.grant_of (s.fields_of g) ≡ g
  pub sized :
      (fs : List Bytes)
      → HaveWidths s.widths fs
      → All AreBytes fs
      → s.accepts fs ≡ true
      → IsSized (s.grant_of fs) × (s.fields_of (s.grant_of fs) ≡ fs)

module _ {G : Type 0} (s : Schema G) (IsSized : G → Type 0) (law : IsSchema s IsSized) where
  decode_fields-encode_fields : (g : G) → IsSized g → decode_fields s (encode_fields s g) ≡ some g
  unfolding decode_fields encode_fields
  decode_fields-encode_fields g w =
      let full = (==_iff (sum s.widths) (sum s.widths)).1 refl in
      rw
        (
          take_fields-lay_out s.widths (s.fields_of g) (law.widths_of g w),
          law.accepted g w,
          full,
          law.read_back g w,
        )
        refl

  decode_fields-fields :
      (p : Bytes) (g : G)
      → length p ≡ sum s.widths
      → decode_fields s p ≡ some g
      → (fs : List Bytes) × HaveWidths s.widths fs
        × (concat fs ≡ p)
        × (s.accepts fs ≡ true)
        × (s.grant_of fs ≡ g)
  unfolding decode_fields
  decode_fields-fields p g e h =
      let ((fs, offset), taken, h1) = >>=-eq-some (take_fields s.widths p 0) _ h in
      elim (Bool-cases (s.accepts fs && offset == sum s.widths)) [
        | inl t ↦
            let all_taken : (offset == sum s.widths) ≡ true = ground (arith, t) in
            let (widths, text) =
              take_fields-concat s.widths p fs offset taken ((==_iff _ _).0 all_taken ∙ sym e) in
            let same : some (s.grant_of fs) ≡ some g = rw t at h1 in
            (fs, widths, text, ground (arith, t), cc)
        | inr f ↦ let nothing : ◌≡◌ {A = Option G} none (some g) = rw f at h1 in absurd (cc)
      ]

  encode_fields-concat : (g : G) → IsSized g → encode_fields s g ≡ concat (s.fields_of g)
  unfolding encode_fields
  encode_fields-concat g w = lay_out-concat s.widths (s.fields_of g) (law.widths_of g w)

  encode_fields-decode_fields :
      (p : Bytes) (g : G)
      → length p ≡ sum s.widths
      → AreBytes p
      → decode_fields s p ≡ some g
      → IsSized g × (encode_fields s g ≡ p)
  encode_fields-decode_fields p g e b h =
      let (fs, widths, text, passed, same) = decode_fields-fields p g e h in
      let (sized, fields) =
        law.sized fs widths (fields-AreBytes fs (subst AreBytes (sym text) b)) passed in
      subst (λ k. IsSized k × (encode_fields s k ≡ p)) same
        (sized, encode_fields-concat (s.grant_of fs) sized ∙ ap concat fields ∙ text)

  pub schema_codec-IsCodec : IsCodec (schema_codec s) IsSized
  schema_codec-IsCodec = record {
    small = law.small;
    encoded_length = λ g w.
        ap length (encode_fields-concat g w)
        ∙ length-concat s.widths (s.fields_of g) (law.widths_of g w);
    encoded_bytes = λ g w.
        subst AreBytes (sym (encode_fields-concat g w))
          (concat-AreBytes (s.fields_of g) (law.bytes_of g w));
    decoded = decode_fields-encode_fields;
    canonical = encode_fields-decode_fields;
  }

-- Total access to a field, and a list of known length by its fields.
abbrev head : List Bytes → Bytes
head [] = []
head (f ∷ fs) = f

abbrev tail : List Bytes → List Bytes
tail [] = []
tail (f ∷ fs) = fs

abbrev pub field : ℕ → List Bytes → Bytes
field zero fs = head fs
field (suc n) fs = field n (tail fs)

abbrev pub listed : ℕ → List Bytes → List Bytes
listed zero fs = []
listed (suc n) fs = head fs ∷ listed n (tail fs)

pub listed-HaveWidths :
    (ws : List ℕ) (fs : List Bytes) → HaveWidths ws fs → listed (length ws) fs ≡ fs
listed-HaveWidths [] [] h = refl
listed-HaveWidths [] (f ∷ fs) h = absurd h
listed-HaveWidths (w ∷ ws) [] h = absurd h
listed-HaveWidths (w ∷ ws) (f ∷ fs) (e, h) = ap (◌∷◌ f) (listed-HaveWidths ws fs h)

-- A byte is what its field of one reads.
pub byte_text : (f : Bytes) → length f ≡ 1 → from_be_bytes f ∷ [] ≡ f
unfolding from_be_bytes
byte_text [] e = absurd (omega arith)
byte_text (b ∷ []) e = let same : 0 * 256 + b ≡ b = omega arith in ap (λ x. x ∷ []) same
byte_text (b ∷ c ∷ f) e = absurd (omega arith)

-- A field of `w` bytes reads a number below 256 ^ w.
pub field-lt : (w : ℕ) (f : Bytes) → length f ≡ w → AreBytes f → from_be_bytes f < 256 ^ w
field-lt w f e b = subst (λ n. from_be_bytes f < 256 ^ n) e (from_be_bytes-lt f b)

pub field_text :
    (w : ℕ) (f : Bytes) → length f ≡ w → AreBytes f → to_be_bytes w (from_be_bytes f) ≡ f
field_text w f e b =
    subst (λ n. to_be_bytes n (from_be_bytes f) ≡ f) e (to_be_bytes-from_be_bytes f b)

pub one_byte : (c : ℕ) → from_be_bytes (c ∷ []) ≡ c
unfolding from_be_bytes
one_byte c = omega arith
