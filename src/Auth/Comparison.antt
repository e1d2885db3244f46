-- ===== src/Auth/Comparison.antt =====
-- The comparison of fixed work is equality.
use termux_mcp_edge.Base.{
  ℕ, zero, suc, ◌+◌, ◌≤◌, ◌<◌, ◌≡◌, ◌↔◌, refl, ap, true, Bool-cases, inl, inr, arith, [], ◌∷◌,
  length, Bytes, ◌==◌, ==_iff,
}
use termux_mcp_edge.Base.Bits.{bit_or, bit_xor, bit_or_iff, bit_xor_iff}
use termux_mcp_edge.Auth.{max_bearer_token_bytes, byte_at, difference_from, constant_time_eq}

-- The loop ends with no difference exactly when it starts with none and meets none.
difference_from_iff :
    (rounds index difference : ℕ) (left right : Bytes)
    → (difference_from rounds index difference left right ≡ 0) ↔ (
        (difference ≡ 0)
        × ((i : ℕ) → index ≤ i → i < index + rounds → byte_at left i ≡ byte_at right i))
unfolding difference_from
difference_from_iff zero index difference left right =
    (λ e. (e, λ i h k. absurd (omega arith)), λ (e, _). e)
difference_from_iff (suc rounds) index difference left right =
    let x = bit_xor (byte_at left index) (byte_at right index) in
    let later = difference_from_iff rounds (index + 1) (bit_or difference x) left right in
    let both = bit_or_iff difference x in
    let here = bit_xor_iff (byte_at left index) (byte_at right index) in
    (
      λ e.
          let (none_yet, rest) = later.0 e in
          let (start, same) = both.0 none_yet in
          (
            start,
            λ i h k. elim (Bool-cases (i == index)) [
              | inl t ↦ let at : i ≡ index = ground (arith, t) in rw at (here.0 same)
              | inr f ↦ rest i (ground (arith, f)) (omega arith)
            ],
          ),
      λ (start, equal). later.1 (
        both.1 (start, here.1 (equal index (omega arith) (omega arith))),
        λ i h k. equal i (omega arith) (omega arith),
      ),
    )

bytes_ext :
    (left right : Bytes)
    → length left ≡ length right
    → ((i : ℕ) → i < length left → byte_at left i ≡ byte_at right i)
    → left ≡ right
bytes_ext [] [] e h = refl
bytes_ext [] (y ∷ ys) e h = absurd (omega arith)
bytes_ext (x ∷ xs) [] e h = absurd (omega arith)
bytes_ext (x ∷ xs) (y ∷ ys) e h =
    let first : x ≡ y = h 0 (omega arith) in
    let rest = bytes_ext xs ys (omega arith) (λ i k. h (suc i) (omega arith)) in
    λ i. first i ∷ rest i

-- For two texts of at most 4,096 bytes, the fixed-work comparison is equality.
pub constant_time_eq_iff :
    (left right : Bytes)
    → length left ≤ max_bearer_token_bytes
    → length right ≤ max_bearer_token_bytes
    → (constant_time_eq left right ≡ true) ↔ (left ≡ right)
unfolding constant_time_eq
constant_time_eq_iff left right h k =
    let law =
      difference_from_iff max_bearer_token_bytes 0 (bit_xor (length left) (length right)) left
        right in
    let lengths = bit_xor_iff (length left) (length right) in
    let zero_test =
      ==_iff
        (difference_from max_bearer_token_bytes 0 (bit_xor (length left) (length right)) left right)
        0 in
    (
      λ e.
          let (sizes, bytes) = law.0 (zero_test.0 e) in
          bytes_ext left right (lengths.0 sizes) (λ i p. bytes i (omega arith) (omega arith)),
      λ e. zero_test.1 (law.1 (lengths.1 (ap length e), λ i _ _. ap (λ s. byte_at s i) e)),
    )
