-- ===== src/Routing.antt =====
-- The routing headers of a stateless request (src/mcp_transport.rs): single header values, and the
-- name header with its canonical base64 form. A header is the list of its values, each by its text
-- where `to_str` gives one. A `Result<_, ()>` is an `Option`.
pub mod Sextets
pub mod Chunks
pub mod Base64
pub mod Names
use termux_mcp_edge.Base.{
  ℕ, zero, suc, ◌+◌, ◌-◌, ◌*◌, ◌/◌, ◌%◌, Bool, true, false, ◌&&◌, ◌||◌, not, Option, none, some,
  List, [], ◌∷◌, ◌++◌, length, all, Bytes, beq, codes, ltb, leb, ◌==◌, if◌then◌else◌,
}
use termux_mcp_edge.Base.Options.{◌>>=◌}
use termux_mcp_edge.Base.Bits.{bit_or}
use termux_mcp_edge.Base.Text.{strip_prefix, ends_with, starts_with}

abbrev pub max_mcp_routing_name_bytes : ℕ
max_mcp_routing_name_bytes = 128

abbrev pub max_mcp_routing_header_bytes : ℕ
max_mcp_routing_header_bytes = 512

unfoldable pub single_header_value : List (Option Bytes) → Option (Option Bytes)
single_header_value [] = some none
single_header_value (some text ∷ []) = some (some text)
single_header_value (none ∷ []) = none
single_header_value (first ∷ second ∷ values) = none

-- The header's value, where it has one that passes the test.
abbrev pub value_where : (Bytes → Bool) → Option (Option Bytes) → Option Bytes
value_where test (some (some value)) = if test value then some value else none
value_where test _ = none

abbrev is_visible : ℕ → Bool
is_visible b = leb 33 b && leb b 126

unfoldable bounded_visible_header : List (Option Bytes) → ℕ → Option Bytes
bounded_visible_header values max_bytes =
    value_where
      (λ value. not (length value == 0) && leb (length value) max_bytes && all is_visible value)
      (single_header_value values)

unfoldable pub decode_base64_sextet : ℕ → Option ℕ
decode_base64_sextet byte =
    if leb b'A' byte && leb byte b'Z'
    then some (byte - b'A')
    else if leb b'a' byte && leb byte b'z'
    then some (byte - b'a' + 26)
    else if leb b'0' byte && leb byte b'9'
    then some (byte - b'0' + 52)
    else if byte == b'+'
    then some 62
    else if byte == b'/'
    then some 63
    else none

-- The `match` on the last two bytes of a chunk.
unfoldable pub padding_of : ℕ → ℕ → Option ℕ
padding_of third fourth =
    if fourth == b'='
    then if third == b'=' then some 2 else some 1
    else if third == b'='
    then none
    else some 0

-- The bytes that a chunk pushes. A `u8` loses the bits that a shift moves out.
abbrev chunk_bytes : ℕ → ℕ → ℕ → ℕ → ℕ → Bytes
chunk_bytes padding first second third fourth =
    bit_or (first * 4 % 256) (second / 16)
      ∷ (if ltb padding 2 then bit_or (second * 16 % 256) (third / 4) ∷ [] else [])
    ++ (if padding == 0 then bit_or (third * 64 % 256) fourth ∷ [] else [])

-- The loop's body behind the padding.
unfoldable pub decode_padded : ℕ → ℕ → ℕ → ℕ → ℕ → Option Bytes
decode_padded padding a b c d = do
  first ← decode_base64_sextet a
  second ← decode_base64_sextet b
  third ← if padding == 2 then some 0 else decode_base64_sextet c
  fourth ← if padding == 0 then decode_base64_sextet d else some 0
  if (padding == 2 && not (second % 16 == 0)) || (padding == 1 && not (third % 4 == 0))
      then none
      else some (chunk_bytes padding first second third fourth)

unfoldable pub decode_chunk : Bool → ℕ → ℕ → ℕ → ℕ → Option Bytes
decode_chunk last a b c d =
    padding_of c d
    >>= (λ padding. if not (padding == 0) && not last then none else decode_padded padding a b c d)

-- The loop over `chunks_exact(4)`, so many bytes decoded before it.
unfoldable pub decode_chunks : ℕ → Bytes → Option Bytes
decode_chunks decoded (a ∷ b ∷ c ∷ d ∷ rest) = do
  bytes ← decode_chunk (length rest == 0) a b c d
  more ← decode_chunks (decoded + length bytes) rest
  if ltb max_mcp_routing_name_bytes (decoded + length bytes) then none else some (bytes ++ more)
decode_chunks decoded _ = some []

unfoldable pub decode_canonical_padded_base64 : Bytes → Option Bytes
decode_canonical_padded_base64 encoded =
    if length encoded == 0 || not (length encoded % 4 == 0) then none else decode_chunks 0 encoded

-- `str::strip_suffix`.
unfoldable pub strip_suffix : Bytes → Bytes → Option Bytes
strip_suffix suffix [] = if length suffix == 0 then some [] else none
strip_suffix suffix (c ∷ s) =
    let rest = strip_suffix suffix s in
    if beq (c ∷ s) suffix then some [] else rest >>= (λ front. some (c ∷ front))

abbrev is_blank : ℕ → Bool
is_blank b = b == b' ' || b == 9

abbrev is_routing_byte : ℕ → Bool
is_routing_byte b = b == 9 || (leb 32 b && leb b 126)

unfoldable pub is_plain_ascii_routing_value : Bytes → Bool
is_plain_ascii_routing_value value =
    if length value == 0
      || (starts_with b' ' value || starts_with 9 value)
      || (ends_with b' ' value || ends_with 9 value)
    then false
    else all is_routing_byte value

-- The bytes that follow a character's first byte: how many, and the range of the next of them.
abbrev lead : ℕ → Option (ℕ × ℕ × ℕ)
lead b =
    if ltb b 128
    then some (0, 128, 191)
    else if leb 194 b && leb b 223
    then some (1, 128, 191)
    else if b == 224
    then some (2, 160, 191)
    else if b == 237
    then some (2, 128, 159)
    else if leb 225 b && leb b 239
    then some (2, 128, 191)
    else if b == 240
    then some (3, 144, 191)
    else if leb 241 b && leb b 243
    then some (3, 128, 191)
    else if b == 244
    then some (3, 128, 143)
    else none

abbrev utf8_from : ℕ → ℕ → ℕ → Bytes → Bool
utf8_from zero low high [] = true
utf8_from (suc n) low high [] = false
utf8_from zero low high (b ∷ s) = elim (lead b) [
  | none ↦ false
  | some (n, low', high') ↦ utf8_from n low' high' s
]
utf8_from (suc n) low high (b ∷ s) = leb low b && leb b high && utf8_from n 128 191 s

-- Whether `String::from_utf8` takes the bytes.
unfoldable pub is_utf8 : Bytes → Bool
is_utf8 s = utf8_from 0 128 191 s

abbrev pub base64_prefix : Bytes
base64_prefix = codes "=?base64?"

abbrev pub base64_suffix : Bytes
base64_suffix = codes "?="

-- The text between the marks of an encoded name.
unfoldable pub encoded_part : Bytes → Option Bytes
encoded_part raw = strip_prefix base64_prefix raw >>= (λ value. strip_suffix base64_suffix value)

unfoldable pub decoded_name : Bytes → Option Bytes
decoded_name encoded = decode_canonical_padded_base64 encoded >>= (λ decoded.
    if length decoded == 0 || ltb max_mcp_routing_name_bytes (length decoded)
    then none
    else if is_utf8 decoded
    then some decoded
    else none)

unfoldable pub name_of : Bytes → Option Bytes
name_of raw = elim (encoded_part raw) [
  | some encoded ↦ decoded_name encoded
  | none ↦
      if ltb max_mcp_routing_name_bytes (length raw) || not (is_plain_ascii_routing_value raw)
      then none
      else some raw
]

unfoldable pub stateless_name_header : List (Option Bytes) → Option Bytes
stateless_name_header values =
    value_where
      (λ value. not (length value == 0) && leb (length value) max_mcp_routing_header_bytes)
      (single_header_value values)
    >>= name_of
