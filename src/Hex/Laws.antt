-- ===== src/Hex/Laws.antt =====
-- The codec is a bijection between byte strings and their lower-case hexadecimal texts.
use termux_mcp_edge.Base.{
  ℕ, zero, suc, ◌+◌, ◌*◌, ◌/◌, ◌%◌, ◌<◌, ◌≡◌, refl, Bool, true, ◌&&◌, some, [], ◌∷◌, length, arith,
  Bytes, AreBytes, All, ltb, ◌==◌, if◌then◌else◌, ==_iff, subst,
}
use termux_mcp_edge.Base.Options.{>>=-eq-some}
use termux_mcp_edge.Hex.{
  hex_digit, encode_hex, decode_hex_digit, decode_pairs, decode_hex_array, is_ascii,
}

-- The test holds of every number below a bound.
unfoldable pub holds_below : (ℕ → Bool) → ℕ → Bool
holds_below test zero = true
holds_below test (suc bound) = holds_below test bound && test bound

pub holds_below_lem :
    (test : ℕ → Bool) (bound value : ℕ)
    → value < bound
    → holds_below test bound ≡ true
    → test value ≡ true
unfolding holds_below
holds_below_lem test zero value below h = absurd (omega arith)
holds_below_lem test (suc bound) value below h = ground (arith, holds_below_lem test bound value)

abbrev digit_value : ℕ → ℕ
digit_value n = if ltb n 10 then n + 48 else n + 87

digit_table : holds_below (λ n. hex_digit n == digit_value n) 16 ≡ true
unfolding holds_below hex_digit
digit_table = refl

hex_digit-eq : (n : ℕ) → n < 16 → hex_digit n ≡ digit_value n
hex_digit-eq n h =
    (==_iff _ _).0 (holds_below_lem (λ m. hex_digit m == digit_value m) 16 n h digit_table)

decode_hex_digit-hex_digit : (n : ℕ) → n < 16 → decode_hex_digit (hex_digit n) ≡ some n
unfolding decode_hex_digit
decode_hex_digit-hex_digit n h = ground (arith, hex_digit-eq n h)

hex_digit-decode_hex_digit : (b n : ℕ) → decode_hex_digit b ≡ some n → (hex_digit n ≡ b) × (n < 16)
unfolding decode_hex_digit
hex_digit-decode_hex_digit b n h =
    let small : n < 16 = ground arith in (ground (arith, hex_digit-eq n small), small)

pub length-encode_hex : (bs : Bytes) → length (encode_hex bs) ≡ length bs * 2
unfolding encode_hex
length-encode_hex [] = refl
length-encode_hex (b ∷ bs) = omega (arith, length-encode_hex bs)

decode_pairs-encode_hex : (bs : Bytes) → AreBytes bs → decode_pairs (encode_hex bs) ≡ some bs
unfolding encode_hex decode_pairs
decode_pairs-encode_hex [] h = refl
decode_pairs-encode_hex (b ∷ bs) (p, h) =
    let whole : b / 16 * 16 + b % 16 ≡ b = omega arith in
    rw (
      decode_hex_digit-hex_digit (b / 16) (omega arith),
      decode_hex_digit-hex_digit (b % 16) (omega arith),
      decode_pairs-encode_hex bs h,
      whole,
    )

-- Every digit is an ASCII byte other than the dot.
abbrev pub IsDigit : ℕ → Type 0
IsDigit c = (c < 128) × (46 < c)

pub encode_hex-digits : (bs : Bytes) → AreBytes bs → All IsDigit (encode_hex bs)
unfolding encode_hex
encode_hex-digits [] h = tt
encode_hex-digits (b ∷ bs) (p, h) =
    let high = hex_digit-eq (b / 16) (omega arith) in
    let low = hex_digit-eq (b % 16) (omega arith) in
    (
      (ground (arith, high), ground (arith, high)),
      ((ground (arith, low), ground (arith, low)), encode_hex-digits bs h),
    )

is_ascii-digits : (s : Bytes) → All IsDigit s → is_ascii s ≡ true
is_ascii-digits [] h = refl
is_ascii-digits (c ∷ s) (p, h) = ground (arith, is_ascii-digits s h)

-- Decoding the hexadecimal text of an array of bytes gives the array back.
pub decode_hex_array-encode_hex :
    (bs : Bytes) → AreBytes bs → decode_hex_array (length bs) (encode_hex bs) ≡ some bs
unfolding decode_hex_array
decode_hex_array-encode_hex bs h = ground (
  arith,
  length-encode_hex bs,
  is_ascii-digits (encode_hex bs) (encode_hex-digits bs h),
  decode_pairs-encode_hex bs h,
)

-- `s` is the text of the `n` bytes `bs`.
abbrev IsText : ℕ → Bytes → Bytes → Type 0
IsText n s bs = (encode_hex bs ≡ s) × (length bs ≡ n) × AreBytes bs

encode_hex-decode_pairs :
    (n : ℕ) (s bs : Bytes) → length s ≡ n * 2 → decode_pairs s ≡ some bs → IsText n s bs
unfolding decode_pairs encode_hex
encode_hex-decode_pairs n [] bs e h =
    let same : [] ≡ bs = cc in subst (IsText n []) same (refl, omega arith, tt)
encode_hex-decode_pairs n (c ∷ []) bs e h = absurd (omega arith)
encode_hex-decode_pairs zero (c ∷ d ∷ s) bs e h = absurd (omega arith)
encode_hex-decode_pairs (suc n) (c ∷ d ∷ s) bs e h =
    let (high, eh, h1) = >>=-eq-some (decode_hex_digit c) _ h in
    let (low, el, h2) = >>=-eq-some (decode_hex_digit d) _ h1 in
    let (rest, er, h3) = >>=-eq-some (decode_pairs s) _ h2 in
    let (text, count, small) = encode_hex-decode_pairs n s rest (omega arith) er in
    let (first, high_small) = hex_digit-decode_hex_digit c high eh in
    let (second, low_small) = hex_digit-decode_hex_digit d low el in
    let top : (high * 16 + low) / 16 ≡ high = omega arith in
    let bottom : (high * 16 + low) % 16 ≡ low = omega arith in
    let same : (high * 16 + low) ∷ rest ≡ bs = cc in
    subst (IsText (suc n) (c ∷ d ∷ s)) same
      (rw (top, bottom, first, second, text), omega arith, (omega arith, small))

-- A text decodes to at most one array, and that array has no other text: the codec accepts no
-- second spelling.
pub decode_hex_array-canonical :
    (n : ℕ) (s bs : Bytes) → decode_hex_array n s ≡ some bs → IsText n s bs
unfolding decode_hex_array
decode_hex_array-canonical n s bs h = encode_hex-decode_pairs n s bs (ground arith) (ground arith)
