-- ===== src/Routing/Chunks.antt =====
-- A chunk of four digits, for each number of padding bytes.
use termux_mcp_edge.Base.{
  ℕ, ◌+◌, ◌*◌, ◌/◌, ◌%◌, ◌<◌, ◌≡◌, refl, ap, sym, some, [], ◌∷◌, arith, Bytes, Option, ◌∙◌,
}
use termux_mcp_edge.Base.Bits.{bit_or}
use termux_mcp_edge.Base.Options.{>>=-eq-some}
use termux_mcp_edge.Routing.{decode_base64_sextet, decode_padded}
use termux_mcp_edge.Routing.Sextets.{sextet, sextet_iff, read_sextet, or_first, or_second, or_third}

pub cons_eq : {x y : ℕ} {xs ys : Bytes} → x ≡ y → xs ≡ ys → ◌≡◌ {A = Bytes} (x ∷ xs) (y ∷ ys)
cons_eq e f = rw (e, f) refl

pub padded_two :
    (a b : ℕ) (bytes : Bytes)
    → decode_padded 2 a b b'=' b'=' ≡ some bytes
    → (x : ℕ) × (x < 256) × (bytes ≡ x ∷ []) × (sextet (x / 4) ≡ a) × (sextet (x % 4 * 16) ≡ b)
unfolding decode_padded
padded_two a b bytes h =
    let (first, ea, h1) = >>=-eq-some (decode_base64_sextet a) _ h in
    let (second, eb, h2) = >>=-eq-some (decode_base64_sextet b) _ h1 in
    let (p, da) = (sextet_iff a first).0 ea in
    let (q, db) = (sextet_iff b second).0 eb in
    let low : second % 16 ≡ 0 = ground arith in
    let value = or_first first second p q in
    let made : ◌≡◌ {A = Option Bytes} (some (bit_or (first * 4 % 256) (second / 16) ∷ []))
        (some bytes) =
      ground (arith, h2, low) in
    let same : bit_or (first * 4 % 256) (second / 16) ∷ [] ≡ bytes = cc made in
    let high : (first * 4 + second / 16) / 4 ≡ first = omega arith in
    let rest : (first * 4 + second / 16) % 4 * 16 ≡ second = omega arith in
    (
      first * 4 + second / 16,
      omega arith,
      sym same ∙ ap (λ v. v ∷ []) value,
      rw high da,
      rw rest db,
    )

pub padded_one :
    (a b c : ℕ) (bytes : Bytes)
    → decode_padded 1 a b c b'=' ≡ some bytes
    → (x y : ℕ) × (x < 256)
      × (y < 256)
      × (bytes ≡ x ∷ y ∷ [])
      × (sextet (x / 4) ≡ a)
      × (sextet (x % 4 * 16 + y / 16) ≡ b)
      × (sextet (y % 16 * 4) ≡ c)
unfolding decode_padded
padded_one a b c bytes h =
    let (first, ea, h1) = >>=-eq-some (decode_base64_sextet a) _ h in
    let (second, eb, h2) = >>=-eq-some (decode_base64_sextet b) _ h1 in
    let (third, ec, h3) = >>=-eq-some (decode_base64_sextet c) _ h2 in
    let (p, da) = (sextet_iff a first).0 ea in
    let (q, db) = (sextet_iff b second).0 eb in
    let (r, dc) = (sextet_iff c third).0 ec in
    let low : third % 4 ≡ 0 = ground arith in
    let x = first * 4 + second / 16 in
    let y = second % 16 * 16 + third / 4 in
    let made : ◌≡◌ {A = Option Bytes}
        (some
          (bit_or (first * 4 % 256) (second / 16) ∷ bit_or (second * 16 % 256) (third / 4) ∷ []))
        (some bytes) =
      ground (arith, h3, low) in
    let same : bit_or (first * 4 % 256) (second / 16) ∷ bit_or (second * 16 % 256) (third / 4) ∷ []
        ≡ bytes =
      cc made in
    let high : x / 4 ≡ first = omega arith in
    let middle : x % 4 * 16 + y / 16 ≡ second = omega arith in
    let rest : y % 16 * 4 ≡ third = omega arith in
    (
      x,
      y,
      omega arith,
      omega arith,
      sym same ∙ cons_eq (or_first first second p q) (cons_eq (or_second second third q r) refl),
      rw high da,
      rw middle db,
      rw rest dc,
    )

pub padded_none :
    (a b c d : ℕ) (bytes : Bytes)
    → decode_padded 0 a b c d ≡ some bytes
    → (x y z : ℕ) × (x < 256)
      × (y < 256)
      × (z < 256)
      × (bytes ≡ x ∷ y ∷ z ∷ [])
      × (sextet (x / 4) ≡ a)
      × (sextet (x % 4 * 16 + y / 16) ≡ b)
      × (sextet (y % 16 * 4 + z / 64) ≡ c)
      × (sextet (z % 64) ≡ d)
unfolding decode_padded
padded_none a b c d bytes h =
    let (first, ea, h1) = >>=-eq-some (decode_base64_sextet a) _ h in
    let (second, eb, h2) = >>=-eq-some (decode_base64_sextet b) _ h1 in
    let (third, ec, h3) = >>=-eq-some (decode_base64_sextet c) _ h2 in
    let (fourth, ed, h4) = >>=-eq-some (decode_base64_sextet d) _ h3 in
    let (p, da) = (sextet_iff a first).0 ea in
    let (q, db) = (sextet_iff b second).0 eb in
    let (r, dc) = (sextet_iff c third).0 ec in
    let (s, dd) = (sextet_iff d fourth).0 ed in
    let x = first * 4 + second / 16 in
    let y = second % 16 * 16 + third / 4 in
    let z = third % 4 * 64 + fourth in
    let same : bit_or (first * 4 % 256) (second / 16)
          ∷ bit_or (second * 16 % 256) (third / 4)
          ∷ bit_or (third * 64 % 256) fourth
          ∷ []
        ≡ bytes =
      cc h4 in
    let e1 : x / 4 ≡ first = omega arith in
    let e2 : x % 4 * 16 + y / 16 ≡ second = omega arith in
    let e3 : y % 16 * 4 + z / 64 ≡ third = omega arith in
    let e4 : z % 64 ≡ fourth = omega arith in
    (
      x,
      y,
      z,
      omega arith,
      omega arith,
      omega arith,
      sym same
          ∙ cons_eq (or_first first second p q)
              (cons_eq (or_second second third q r) (cons_eq (or_third third fourth r s) refl)),
      rw e1 da,
      rw e2 db,
      rw e3 dc,
      rw e4 dd,
    )

pub two_padded :
    (x : ℕ)
    → x < 256
    → decode_padded 2 (sextet (x / 4)) (sextet (x % 4 * 16)) b'=' b'=' ≡ some (x ∷ [])
unfolding decode_padded
two_padded x p =
    let value = or_first (x / 4) (x % 4 * 16) (omega arith) (omega arith) in
    let whole : x / 4 * 4 + x % 4 * 16 / 16 ≡ x = omega arith in
    let low : x % 4 * 16 % 16 ≡ 0 = omega arith in
    rw
      (read_sextet (x / 4) (omega arith), read_sextet (x % 4 * 16) (omega arith), low, value, whole)
      refl

pub one_padded :
    (x y : ℕ)
    → x < 256
    → y < 256
    → decode_padded 1 (sextet (x / 4)) (sextet (x % 4 * 16 + y / 16)) (sextet (y % 16 * 4)) b'='
      ≡ some (x ∷ y ∷ [])
unfolding decode_padded
one_padded x y p q =
    let m = x % 4 * 16 + y / 16 in
    let n = y % 16 * 4 in
    let one : x / 4 * 4 + m / 16 ≡ x = omega arith in
    let two : m % 16 * 16 + n / 4 ≡ y = omega arith in
    let low : n % 4 ≡ 0 = omega arith in
    rw
      (
        read_sextet (x / 4) (omega arith),
        read_sextet m (omega arith),
        read_sextet n (omega arith),
        low,
        or_first (x / 4) m (omega arith) (omega arith),
        or_second m n (omega arith) (omega arith),
        one,
        two,
      )
      refl

pub none_padded :
    (x y z : ℕ)
    → x < 256
    → y < 256
    → z < 256
    → decode_padded 0
        (sextet (x / 4))
        (sextet (x % 4 * 16 + y / 16))
        (sextet (y % 16 * 4 + z / 64))
        (sextet (z % 64))
      ≡ some (x ∷ y ∷ z ∷ [])
unfolding decode_padded
none_padded x y z p q r =
    let m = x % 4 * 16 + y / 16 in
    let n = y % 16 * 4 + z / 64 in
    let one : x / 4 * 4 + m / 16 ≡ x = omega arith in
    let two : m % 16 * 16 + n / 4 ≡ y = omega arith in
    let three : n % 4 * 64 + z % 64 ≡ z = omega arith in
    rw
      (
        read_sextet (x / 4) (omega arith),
        read_sextet m (omega arith),
        read_sextet n (omega arith),
        read_sextet (z % 64) (omega arith),
        or_first (x / 4) m (omega arith) (omega arith),
        or_second m n (omega arith) (omega arith),
        or_third n (z % 64) (omega arith) (omega arith),
        one,
        two,
        three,
      )
      refl
