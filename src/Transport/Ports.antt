-- ===== src/Transport/Ports.antt =====
-- The ports of hosts and origins.
use termux_mcp_edge.Base.{
  ℕ, zero, suc, ◌+◌, ◌-◌, ◌*◌, ◌/◌, ◌%◌, ◌^◌, ◌<◌, ◌≡◌, refl, ◌∙◌, Bool, true, false, Bool-cases,
  inl, inr, arith, some, none, ◌&&◌, if◌then◌else◌, [], ◌∷◌, ◌++◌, length, length-append, all,
  Bytes, ltb,
}
use native.Mathlib.Nat.{pow-suc}
use termux_mcp_edge.Base.Text.{is_digit, value_from, decimal_value, decimal}
use termux_mcp_edge.Transport.{parse_port}

value_from-snoc :
    (acc : ℕ) (s : Bytes) (c : ℕ)
    → value_from acc (s ++ c ∷ []) ≡ value_from acc s * 10 + (c - b'0')
value_from-snoc acc [] c = refl
value_from-snoc acc (d ∷ s) c = value_from-snoc (acc * 10 + (d - b'0')) s c

all-snoc :
    (p : ℕ → Bool) (s : Bytes) (c : ℕ) → all p s ≡ true → p c ≡ true → all p (s ++ c ∷ []) ≡ true
all-snoc p [] c h k = ground (arith, h, k)
all-snoc p (d ∷ s) c h k = ground (arith, all-snoc p s c)

-- What `decimal` writes of a number with enough digits.
abbrev IsDecimal : ℕ → Bytes → Type 0
IsDecimal n s = (0 < length s) × (all is_digit s ≡ true) × (decimal_value s ≡ n)

two_digits : (fuel n : ℕ) → n < 10 ^ suc fuel → ltb n 10 ≡ false → 0 < fuel
two_digits zero n h large = absurd (ground (arith, h, large))
two_digits (suc fuel) n h large = omega arith

decimal-IsDecimal : (fuel n : ℕ) → n < 10 ^ fuel → 0 < fuel → IsDecimal n (decimal fuel n)
unfolding decimal decimal_value
decimal-IsDecimal zero n h k = absurd (omega arith)
decimal-IsDecimal (suc fuel) n h k = elim (Bool-cases (ltb n 10)) [
  | inl small ↦ rw small (omega arith, ground (arith, small), omega arith)
  | inr large ↦
      let many : 0 < fuel = two_digits fuel n h large in
      let (size, digits, value) =
        decimal-IsDecimal fuel (n / 10) (omega (arith, pow-suc 10 fuel)) many in
      let last : is_digit (b'0' + n % 10) ≡ true = ground arith in
      rw large (
        omega (arith, length-append (decimal fuel (n / 10)) ((b'0' + n % 10) ∷ [])),
        all-snoc is_digit (decimal fuel (n / 10)) (b'0' + n % 10) digits last,
        value_from-snoc 0 (decimal fuel (n / 10)) (b'0' + n % 10) ∙ omega (arith, value),
      )
]

-- A number in decimal, of however many digits, is read as that port where it is above 0 and fits a
-- `u16`, and as none otherwise.
pub parse_port-port_text :
    (digits n : ℕ)
    → 0 < digits
    → n < 10 ^ digits
    → parse_port (decimal digits n) ≡ (if ltb 0 n && ltb n (2 ^ 16) then some n else none)
unfolding parse_port
parse_port-port_text digits n k h =
    let (size, all_digits, value) = decimal-IsDecimal digits n h k in
    ground (arith, size, all_digits, value)
