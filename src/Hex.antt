-- ===== src/Hex.antt =====
-- The hexadecimal codec of the grant tokens (src/copy_file_grant.rs; the other grant families hold
-- the same text).
pub mod Laws
use termux_mcp_edge.Base.{
  ℕ, ◌+◌, ◌-◌, ◌*◌, ◌/◌, ◌%◌, Bool, true, false, ◌&&◌, Option, none, some, List, [], ◌∷◌, length,
  all, get_elem?, Bytes, codes, ltb, leb, ◌==◌, if◌then◌else◌,
}
use termux_mcp_edge.Base.Options.{◌>>=◌}

abbrev hex_table : Bytes
hex_table = codes "0123456789abcdef"

abbrev or_zero : Option ℕ → ℕ
or_zero none = 0
or_zero (some c) = c

-- A nibble indexes the table of sixteen digits.
unfoldable pub hex_digit : ℕ → ℕ
hex_digit nibble = or_zero (get_elem? hex_table nibble)

unfoldable pub encode_hex : Bytes → Bytes
encode_hex [] = []
encode_hex (byte ∷ bytes) = hex_digit (byte / 16) ∷ hex_digit (byte % 16) ∷ encode_hex bytes

unfoldable pub decode_hex_digit : ℕ → Option ℕ
decode_hex_digit byte =
    if leb b'0' byte && leb byte b'9'
    then some (byte - b'0')
    else if leb b'a' byte && leb byte b'f'
    then some (byte - b'a' + 10)
    else none

-- `chunks_exact(2)`: an odd last byte is left out.
unfoldable pub decode_pairs : Bytes → Option Bytes
decode_pairs [] = some []
decode_pairs (last ∷ []) = some []
decode_pairs (high ∷ low ∷ rest) = do
  h ← decode_hex_digit high
  l ← decode_hex_digit low
  bytes ← decode_pairs rest
  some ((h * 16 + l) ∷ bytes)

abbrev pub is_ascii : Bytes → Bool
is_ascii = all (λ b. ltb b 128)

unfoldable pub decode_hex_array : ℕ → Bytes → Option Bytes
decode_hex_array n input =
    if length input == n * 2 && is_ascii input then decode_pairs input else none
