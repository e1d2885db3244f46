-- ===== src/Routing/Base64.antt =====
-- The padded base64 of RFC 4648, and what the decoder of the name header accepts.
use termux_mcp_edge.Base.{
  ℕ, zero, suc, ◌+◌, ◌*◌, ◌/◌, ◌%◌, ◌≤◌, ◌<◌, ◌≡◌, refl, ap, sym, Bool, true, false, ◌↔◌, some, [],
  ◌∷◌, ◌++◌, length, arith, Bytes, AreBytes, ltb, ◌==◌, Option, Bool-cases, inl, inr, length-append,
  All-append,
}
use termux_mcp_edge.Base.Options.{>>=-eq-some}
use termux_mcp_edge.Routing.{
  padding_of, decode_padded, decode_chunk, decode_chunks, decode_canonical_padded_base64,
  max_mcp_routing_name_bytes,
}
use termux_mcp_edge.Routing.Sextets.{sextet, sextet-ne-pad}
use termux_mcp_edge.Routing.Chunks.{
  cons_eq, padded_two, padded_one, padded_none, two_padded, one_padded, none_padded,
}

unfoldable pub encode_base64 : Bytes → Bytes
encode_base64 [] = []
encode_base64 (a ∷ []) = sextet (a / 4) ∷ sextet (a % 4 * 16) ∷ b'=' ∷ b'=' ∷ []
encode_base64 (a ∷ b ∷ []) =
    sextet (a / 4) ∷ sextet (a % 4 * 16 + b / 16) ∷ sextet (b % 16 * 4) ∷ b'=' ∷ []
encode_base64 (a ∷ b ∷ c ∷ rest) =
    sextet (a / 4)
    ∷ sextet (a % 4 * 16 + b / 16)
    ∷ sextet (b % 16 * 4 + c / 64)
    ∷ sextet (c % 64)
    ∷ encode_base64 rest

-- The four bytes begin a text that goes on with the text of `t`, or end it.
abbrev IsChunk : Bool → ℕ → ℕ → ℕ → ℕ → Bytes → Type 0
IsChunk last a b c d bytes =
    AreBytes bytes
    × ((t : Bytes)
        → (last ≡ true → t ≡ [])
        → encode_base64 (bytes ++ t) ≡ a ∷ b ∷ c ∷ d ∷ encode_base64 t)

decode_chunk_sound :
    (last : Bool) (a b c d : ℕ) (bytes : Bytes)
    → decode_chunk last a b c d ≡ some bytes
    → IsChunk last a b c d bytes
unfolding decode_chunk padding_of encode_base64
decode_chunk_sound last a b c d bytes h = elim (Bool-cases (d == b'=')) [
  | inl ed ↦
      let at : d ≡ b'=' = ground (arith, ed) in
      elim (Bool-cases (c == b'=')) [
        | inl ec ↦
            let third : c ≡ b'=' = ground (arith, ec) in
            let final : last ≡ true = ground (arith, h, ed, ec) in
            let padded : decode_padded 2 a b c d ≡ some bytes = ground (arith, h, ed, ec, final) in
            let (x, p, e, da, db) = padded_two a b bytes (rw (third, at) at padded) in
            rw e (
              (p, tt),
              λ t k.
                  rw (k final)
                    (cons_eq da (cons_eq db (cons_eq (sym third) (cons_eq (sym at) refl)))),
            )
        | inr ec ↦
            let final : last ≡ true = ground (arith, h, ed, ec) in
            let padded : decode_padded 1 a b c d ≡ some bytes = ground (arith, h, ed, ec, final) in
            let (x, y, p, q, e, da, db, dc) = padded_one a b c bytes (rw at at padded) in
            rw e (
              (p, (q, tt)),
              λ t k. rw (k final) (cons_eq da (cons_eq db (cons_eq dc (cons_eq (sym at) refl)))),
            )
      ]
  | inr ed ↦ elim (Bool-cases (c == b'=')) [
    | inl ec ↦ absurd (ground (arith, h, ed, ec))
    | inr ec ↦
        let padded : decode_padded 0 a b c d ≡ some bytes = ground (arith, h, ed, ec) in
        let (x, y, z, p, q, r, e, da, db, dc, dd) = padded_none a b c d bytes padded in
        rw e ((p, (q, (r, tt))), λ t k. cons_eq da (cons_eq db (cons_eq dc (cons_eq dd refl))))
  ]
]

none_more : (more rest : Bytes) → encode_base64 more ≡ rest → length rest ≡ 0 → more ≡ []
unfolding encode_base64
none_more [] rest e h = refl
none_more (x ∷ []) rest e h = absurd (omega (arith, ap length e))
none_more (x ∷ y ∷ []) rest e h = absurd (omega (arith, ap length e))
none_more (x ∷ y ∷ z ∷ more) rest e h = absurd (omega (arith, ap length e))

decode_chunks_sound :
    (n size : ℕ) (s bytes : Bytes)
    → length s ≡ n * 4
    → size ≤ max_mcp_routing_name_bytes
    → decode_chunks size s ≡ some bytes
    → (encode_base64 bytes ≡ s)
      × AreBytes bytes
      × (size + length bytes ≤ max_mcp_routing_name_bytes)
unfolding decode_chunks encode_base64
decode_chunks_sound n size [] bytes e p h =
    let none_left : ◌≡◌ {A = Bytes} [] bytes = cc h in rw (← none_left) (refl, tt, omega arith)
decode_chunks_sound n size (a ∷ []) bytes e p h = absurd (omega arith)
decode_chunks_sound n size (a ∷ b ∷ []) bytes e p h = absurd (omega arith)
decode_chunks_sound n size (a ∷ b ∷ c ∷ []) bytes e p h = absurd (omega arith)
decode_chunks_sound zero size (a ∷ b ∷ c ∷ d ∷ rest) bytes e p h = absurd (omega arith)
decode_chunks_sound (suc n) size (a ∷ b ∷ c ∷ d ∷ rest) bytes e p h =
    let (chunk, ec, h1) = >>=-eq-some (decode_chunk (length rest == 0) a b c d) _ h in
    let (more, em, h2) = >>=-eq-some (decode_chunks (size + length chunk) rest) _ h1 in
    let fits : size + length chunk ≤ max_mcp_routing_name_bytes = ground arith in
    let made : ◌≡◌ {A = Option Bytes} (some (chunk ++ more)) (some bytes) =
      ground (arith, h2, fits) in
    let whole : chunk ++ more ≡ bytes = cc made in
    let (text, small, bound) =
      decode_chunks_sound n (size + length chunk) rest more (omega arith) fits em in
    let (chunk_small, chunk_text) = decode_chunk_sound (length rest == 0) a b c d chunk ec in
    let final : (length rest == 0) ≡ true → more ≡ [] =
      λ k. none_more more rest text (ground (arith, k)) in
    rw (← whole) (
      rw (chunk_text more final, text) refl,
      All-append _ chunk more chunk_small small,
      omega (arith, length-append chunk more, bound),
    )

length-encode_base64 : (bs : Bytes) → (n : ℕ) × (length (encode_base64 bs) ≡ n * 4)
unfolding encode_base64
length-encode_base64 [] = (0, refl)
length-encode_base64 (x ∷ []) = (1, refl)
length-encode_base64 (x ∷ y ∷ []) = (1, refl)
length-encode_base64 (x ∷ y ∷ z ∷ bs) =
    let (n, e) = length-encode_base64 bs in (suc n, omega (arith, e))

decode_chunks_complete :
    (size : ℕ) (bytes : Bytes)
    → AreBytes bytes
    → size + length bytes ≤ max_mcp_routing_name_bytes
    → decode_chunks size (encode_base64 bytes) ≡ some bytes
unfolding decode_chunks decode_chunk padding_of encode_base64
decode_chunks_complete size [] small p = refl
decode_chunks_complete size (x ∷ []) (h, _) p =
    let fits : ltb max_mcp_routing_name_bytes (size + 1) ≡ false = ground arith in
    rw (two_padded x h, fits) refl
decode_chunks_complete size (x ∷ y ∷ []) (h, (k, _)) p =
    let fits : ltb max_mcp_routing_name_bytes (size + 2) ≡ false = ground arith in
    rw (sextet-ne-pad (y % 16 * 4) (omega arith), one_padded x y h k, fits) refl
decode_chunks_complete size (x ∷ y ∷ z ∷ bytes) (h, (k, (l, small))) p =
    let fits : ltb max_mcp_routing_name_bytes (size + 3) ≡ false = ground arith in
    let rest = decode_chunks_complete (size + 3) bytes small (omega arith) in
    rw
      (
        sextet-ne-pad (z % 64) (omega arith),
        sextet-ne-pad (y % 16 * 4 + z / 64) (omega arith),
        none_padded x y z h k l,
        rest,
        fits,
      )
      refl

-- `s` is the padded base64 of the bytes.
abbrev pub IsBase64 : Bytes → Bytes → Type 0
IsBase64 s bytes =
    (encode_base64 bytes ≡ s)
    × AreBytes bytes
    × (0 < length bytes)
    × (length bytes ≤ max_mcp_routing_name_bytes)

encode_base64-ne-nil : (bytes : Bytes) → 0 < length bytes → 0 < length (encode_base64 bytes)
unfolding encode_base64
encode_base64-ne-nil [] p = absurd (omega arith)
encode_base64-ne-nil (x ∷ []) p = omega arith
encode_base64-ne-nil (x ∷ y ∷ []) p = omega arith
encode_base64-ne-nil (x ∷ y ∷ z ∷ bytes) p = omega arith

nil-encode_base64 : (bytes : Bytes) → 0 < length (encode_base64 bytes) → 0 < length bytes
unfolding encode_base64
nil-encode_base64 [] p = p
nil-encode_base64 (x ∷ bytes) p = omega arith

-- The decoder accepts exactly the canonical padded base64 of one to 128 bytes, and gives those back.
pub decode_canonical_padded_base64_iff :
    (s bytes : Bytes) → (decode_canonical_padded_base64 s ≡ some bytes) ↔ IsBase64 s bytes
unfolding decode_canonical_padded_base64
decode_canonical_padded_base64_iff s bytes = (
  λ h.
      (let read : decode_chunks 0 s ≡ some bytes = ground (arith, h) in
        let whole : length s ≡ length s / 4 * 4 = ground (arith, h) in
        let (text, small, fits) =
          decode_chunks_sound (length s / 4) 0 s bytes whole (omega arith) read in
        let some_text : 0 < length s = ground (arith, h) in
        let some_bytes = nil-encode_base64 bytes (omega (arith, ap length text, some_text)) in
        (text, small, some_bytes, omega (arith, fits))),
  λ (text, small, some_bytes, fits).
      let (n, count) = length-encode_base64 bytes in
      let first = encode_base64-ne-nil bytes some_bytes in
      let nonempty : (length (encode_base64 bytes) == 0) ≡ false = ground (arith, first) in
      let whole : (length (encode_base64 bytes) % 4 == 0) ≡ true = ground (arith, count) in
      rw (← text) (rw (nonempty, whole) (decode_chunks_complete 0 bytes small (omega arith))),
)

pub length-encode_base64_bound :
    (bytes : Bytes) → length (encode_base64 bytes) * 3 ≤ length bytes * 4 + 8
unfolding encode_base64
length-encode_base64_bound [] = omega arith
length-encode_base64_bound (x ∷ []) = omega arith
length-encode_base64_bound (x ∷ y ∷ []) = omega arith
length-encode_base64_bound (x ∷ y ∷ z ∷ bytes) = omega (arith, length-encode_base64_bound bytes)
