-- ===== src/Routing/Sextets.antt =====
-- The digits of base64, and how the decoder joins their bits into bytes.
use termux_mcp_edge.Base.{
  ℕ, ◌+◌, ◌-◌, ◌*◌, ◌/◌, ◌%◌, ◌<◌, ◌≡◌, refl, Bool, true, false, ◌&&◌, ◌↔◌, some, arith, ltb, ◌==◌,
  if◌then◌else◌,
}
use termux_mcp_edge.Base.Bits.{bit_or}
use termux_mcp_edge.Hex.Laws.{holds_below, holds_below_lem}
use termux_mcp_edge.Routing.{decode_base64_sextet}

-- The digit of a number below 64.
abbrev pub sextet : ℕ → ℕ
sextet n =
    if ltb n 26
    then n + b'A'
    else if ltb n 52
    then n + 71
    else if ltb n 62
    then n - 4
    else if n == 62
    then b'+'
    else b'/'

pub sextet_iff : (c n : ℕ) → (decode_base64_sextet c ≡ some n) ↔ ((n < 64) × (sextet n ≡ c))
unfolding decode_base64_sextet
sextet_iff c n = (λ h. (ground arith, ground arith), λ (p, e). ground arith)

pub read_sextet : (n : ℕ) → n < 64 → decode_base64_sextet (sextet n) ≡ some n
read_sextet n p = (sextet_iff (sextet n) n).1 (p, refl)

pub sextet-ne-pad : (n : ℕ) → n < 64 → (sextet n == b'=') ≡ false
sextet-ne-pad n p = ground arith

abbrev or_splits : ℕ → ℕ → Bool
or_splits m n = bit_or (n - n % m) (n % m) == n

or_table : holds_below (λ n. or_splits 4 n && or_splits 16 n && or_splits 64 n) 256 ≡ true
unfolding holds_below
or_table = refl

or_split : (n : ℕ) → n < 256 → (or_splits 4 n && or_splits 16 n && or_splits 64 n) ≡ true
or_split n p =
    holds_below_lem (λ n. or_splits 4 n && or_splits 16 n && or_splits 64 n) 256 n p or_table

pub or_first : (x y : ℕ) → x < 64 → y < 64 → bit_or (x * 4 % 256) (y / 16) ≡ x * 4 + y / 16
or_first x y p q =
    let split = or_split (x * 4 + y / 16) (omega arith) in
    let e : bit_or (x * 4 + y / 16 - (x * 4 + y / 16) % 4) ((x * 4 + y / 16) % 4) ≡ x * 4 + y / 16 =
      ground (arith, split) in
    let high : x * 4 + y / 16 - (x * 4 + y / 16) % 4 ≡ x * 4 % 256 = omega arith in
    let low : (x * 4 + y / 16) % 4 ≡ y / 16 = omega arith in rw (high, low) at e

pub or_second : (y z : ℕ) → y < 64 → z < 64 → bit_or (y * 16 % 256) (z / 4) ≡ y % 16 * 16 + z / 4
or_second y z p q =
    let n = y % 16 * 16 + z / 4 in
    let split = or_split n (omega arith) in
    let e : bit_or (n - n % 16) (n % 16) ≡ n = ground (arith, split) in
    let high : n - n % 16 ≡ y * 16 % 256 = omega arith in
    let low : n % 16 ≡ z / 4 = omega arith in rw (high, low) at e

pub or_third : (z w : ℕ) → z < 64 → w < 64 → bit_or (z * 64 % 256) w ≡ z % 4 * 64 + w
or_third z w p q =
    let n = z % 4 * 64 + w in
    let split = or_split n (omega arith) in
    let e : bit_or (n - n % 64) (n % 64) ≡ n = ground (arith, split) in
    let high : n - n % 64 ≡ z * 64 % 256 = omega arith in
    let low : n % 64 ≡ w = omega arith in rw (high, low) at e
