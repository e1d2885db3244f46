-- ===== src/Base/ByteStrings.antt =====
-- Byte strings and texts as lists of numbers, their equality, and big-endian integers.
use Prim.Native.Char.{code}
use Prim.Native.String.{String}
use Prim.Native.Nat.{ℕ, zero, suc, ◌+◌, ◌*◌, ◌/◌, ◌%◌, ◌^◌, ◌<◌, ◌≤◌}
use mathlib.Core.Path.{◌≡◌, refl, ap, ◌∙◌, sym}
use mathlib.Core.Logic.{◌↔◌, ◌≢◌}
use mathlib.Core.Bool.{Bool, true, false, ◌&&◌}
use mathlib.Core.List.{List, [], ◌∷◌, ◌++◌, append_assoc, append-nil}
use native.Mathlib.Omega.{arith}
use native.Mathlib.Nat.{pow-suc, mul-le-mul_right}
use termux_mcp_edge.Base.Tests.{◌==◌}
use termux_mcp_edge.Base.Lists.{length, length-append, All, All-append}

abbrev pub Bytes : Type 0
Bytes = List ℕ

-- Every member is a `u8`.
abbrev pub AreBytes : Bytes → Type 0
AreBytes = All (λ b. b < 256)

abbrev pub concat : List Bytes → Bytes
concat [] = []
concat (x ∷ xs) = x ++ concat xs

-- The code points of a text: its bytes, if it is ASCII.
abbrev pub codes : String → Bytes
codes String.[] = []
codes (String.◌∷◌ c s) = code c ∷ codes s

unfoldable pub beq : Bytes → Bytes → Bool
beq [] [] = true
beq [] (_ ∷ _) = false
beq (_ ∷ _) [] = false
beq (x ∷ xs) (y ∷ ys) = x == y && beq xs ys

pub eq_of_beq : (xs ys : Bytes) → beq xs ys ≡ true → xs ≡ ys
unfolding beq
eq_of_beq [] [] h = refl
eq_of_beq [] (y ∷ ys) h = cc
eq_of_beq (x ∷ xs) [] h = cc
eq_of_beq (x ∷ xs) (y ∷ ys) h = ground (arith, eq_of_beq xs ys)

pub beq_refl : (xs : Bytes) → beq xs xs ≡ true
unfolding beq
beq_refl [] = refl
beq_refl (x ∷ xs) = ground (arith, beq_refl xs)

pub beq_iff : (xs ys : Bytes) → (beq xs ys ≡ true) ↔ (xs ≡ ys)
beq_iff xs ys = (eq_of_beq xs ys, λ e. rw e (beq_refl ys))

pub ne_of_beq : (xs ys : Bytes) → beq xs ys ≡ false → xs ≢ ys
ne_of_beq xs ys h e = let t = (beq_iff xs ys).1 e in ground (arith, h, t)

-- `x.to_be_bytes()` of an integer of `w` bytes.
unfoldable pub to_be_bytes : ℕ → ℕ → Bytes
to_be_bytes zero x = []
to_be_bytes (suc w) x = to_be_bytes w (x / 256) ++ (x % 256) ∷ []

be_value : ℕ → Bytes → ℕ
be_value acc [] = acc
be_value acc (b ∷ bs) = be_value (acc * 256 + b) bs

-- `from_be_bytes`.
unfoldable pub from_be_bytes : Bytes → ℕ
unfolding be_value
from_be_bytes bs = be_value 0 bs

pub length-to_be_bytes : (w x : ℕ) → length (to_be_bytes w x) ≡ w
unfolding to_be_bytes
length-to_be_bytes zero x = refl
length-to_be_bytes (suc w) x = omega (
  arith,
  length-append (to_be_bytes w (x / 256)) ((x % 256) ∷ []),
  length-to_be_bytes w (x / 256),
)

pub to_be_bytes-AreBytes : (w x : ℕ) → AreBytes (to_be_bytes w x)
unfolding to_be_bytes
to_be_bytes-AreBytes zero x = tt
to_be_bytes-AreBytes (suc w) x =
    All-append _ (to_be_bytes w (x / 256)) ((x % 256) ∷ []) (to_be_bytes-AreBytes w (x / 256))
      (omega arith, tt)

be_value-snoc :
    (acc : ℕ) (xs : Bytes) (b : ℕ) → be_value acc (xs ++ b ∷ []) ≡ be_value acc xs * 256 + b
unfolding be_value
be_value-snoc acc [] b = refl
be_value-snoc acc (x ∷ xs) b = be_value-snoc (acc * 256 + x) xs b

pub from_be_bytes-to_be_bytes : (w x : ℕ) → x < 256 ^ w → from_be_bytes (to_be_bytes w x) ≡ x
unfolding from_be_bytes to_be_bytes
from_be_bytes-to_be_bytes zero x h = omega arith
from_be_bytes-to_be_bytes (suc w) x h =
    be_value-snoc 0 (to_be_bytes w (x / 256)) (x % 256)
    ∙ omega (arith, from_be_bytes-to_be_bytes w (x / 256) (omega (arith, pow-suc 256 w)))

to_be_bytes-be_value :
    (bs : Bytes) (w acc n : ℕ)
    → AreBytes bs
    → n ≡ length bs + w
    → to_be_bytes n (be_value acc bs) ≡ to_be_bytes w acc ++ bs
unfolding be_value to_be_bytes
to_be_bytes-be_value [] w acc n h e =
    let same : n ≡ w = omega arith in rw same (sym (append-nil (to_be_bytes w acc)))
to_be_bytes-be_value (b ∷ bs) w acc n (p, h) e =
    let high : (acc * 256 + b) / 256 ≡ acc = omega arith in
    let low : (acc * 256 + b) % 256 ≡ b = omega arith in
    to_be_bytes-be_value bs (suc w) (acc * 256 + b) n h (omega arith)
    ∙ rw (high, low) (append_assoc (to_be_bytes w acc) (b ∷ []) bs)

pub to_be_bytes-from_be_bytes :
    (bs : Bytes) → AreBytes bs → to_be_bytes (length bs) (from_be_bytes bs) ≡ bs
unfolding from_be_bytes to_be_bytes
to_be_bytes-from_be_bytes bs h = to_be_bytes-be_value bs 0 0 (length bs) h (omega arith)

-- `w` bytes hold an integer below 256 ^ w.
be_value-lt : (acc : ℕ) (bs : Bytes) → AreBytes bs → be_value acc bs < (acc + 1) * 256 ^ length bs
unfolding be_value
be_value-lt acc [] h = omega arith
be_value-lt acc (b ∷ bs) (p, h) =
    let step : acc * 256 + b + 1 ≤ (acc + 1) * 256 = omega arith in
    let scaled : be_value (acc * 256 + b) bs < (acc + 1) * (256 ^ length bs * 256) =
      omega (arith, be_value-lt (acc * 256 + b) bs h, mul-le-mul_right (256 ^ length bs) step) in
    rw (pow-suc 256 (length bs)) scaled

pub from_be_bytes-lt : (bs : Bytes) → AreBytes bs → from_be_bytes bs < 256 ^ length bs
unfolding from_be_bytes
from_be_bytes-lt bs h = omega (arith, be_value-lt 0 bs h)

-- Equal widths make the encoding of an integer unambiguous.
pub to_be_bytes-injective :
    (w x y : ℕ) → x < 256 ^ w → y < 256 ^ w → to_be_bytes w x ≡ to_be_bytes w y → x ≡ y
to_be_bytes-injective w x y hx hy e =
    sym (from_be_bytes-to_be_bytes w x hx) ∙ ap from_be_bytes e ∙ from_be_bytes-to_be_bytes w y hy
