-- ===== src/Routing/Names.antt =====
-- The names that the header of a stateless request can carry, and their two spellings.
use termux_mcp_edge.Base.{
  ◌+◌, ◌≤◌, ◌<◌, ◌≡◌, refl, ap, sym, Bool, true, false, ◌&&◌, ◌||◌, not, ◌↔◌, ◌⊎◌, inl, inr, some,
  none, List, [], ◌∷◌, ◌++◌, length, arith, Bytes, beq, beq_iff, ltb, leb, ◌==◌, Option,
  if◌then◌else◌, Bool-cases, length-append, ◌∙◌,
}
use termux_mcp_edge.Base.Options.{◌>>=◌, >>=-eq-some}
use termux_mcp_edge.Base.Text.{strip_prefix, strip_prefix_iff}
use termux_mcp_edge.Routing.{
  single_header_value, value_where, strip_suffix, encoded_part, decoded_name, name_of, is_utf8,
  is_plain_ascii_routing_value, stateless_name_header, base64_prefix, base64_suffix,
  max_mcp_routing_name_bytes, max_mcp_routing_header_bytes, decode_canonical_padded_base64,
}
use termux_mcp_edge.Routing.Base64.{
  IsBase64, decode_canonical_padded_base64_iff, length-encode_base64_bound,
}

strip_suffix_append : (p front : Bytes) → strip_suffix p (front ++ p) ≡ some front
unfolding strip_suffix
strip_suffix_append [] [] = refl
strip_suffix_append (x ∷ p) [] = rw ((beq_iff (x ∷ p) (x ∷ p)).1 refl) refl
strip_suffix_append p (c ∷ front) = elim (Bool-cases (beq (c ∷ front ++ p) p)) [
  | inl e ↦
      absurd (omega (arith, ap length ((beq_iff (c ∷ front ++ p) p).0 e), length-append front p))
  | inr e ↦ rw (e, strip_suffix_append p front) refl
]

strip_suffix_sound : (p s front : Bytes) → strip_suffix p s ≡ some front → s ≡ front ++ p
unfolding strip_suffix
strip_suffix_sound [] [] front h = let e : ◌≡◌ {A = Bytes} [] front = cc h in rw (← e) refl
strip_suffix_sound (x ∷ p) [] front h = absurd (ground (arith, h))
strip_suffix_sound p (c ∷ s) front h = elim (Bool-cases (beq (c ∷ s) p)) [
  | inl e ↦
      let found : ◌≡◌ {A = Option Bytes} (some []) (some front) = rw e at h in
      let nothing : ◌≡◌ {A = Bytes} [] front = cc found in rw (← nothing) ((beq_iff (c ∷ s) p).0 e)
  | inr e ↦
      let later : strip_suffix p s >>= (λ front. some (c ∷ front)) ≡ some front = rw e at h in
      let (rest, er, made) = >>=-eq-some (strip_suffix p s) _ later in
      let whole : c ∷ rest ≡ front = cc made in
      rw (← whole) (ap (◌∷◌ c) (strip_suffix_sound p s rest er))
]

-- The text is marked as base64.
abbrev IsMarked : Bytes → Bytes → Type 0
IsMarked raw encoded = raw ≡ base64_prefix ++ encoded ++ base64_suffix

encoded_part_iff : (raw encoded : Bytes) → (encoded_part raw ≡ some encoded) ↔ IsMarked raw encoded
unfolding encoded_part
encoded_part_iff raw encoded = (
  λ h.
      (let (value, ev, h1) = >>=-eq-some (strip_prefix base64_prefix raw) _ h in
        (strip_prefix_iff base64_prefix raw value).0 ev
        ∙ ap (λ v. base64_prefix ++ v) (strip_suffix_sound base64_suffix value encoded h1)),
  λ e.
      (let found = (strip_prefix_iff base64_prefix raw (encoded ++ base64_suffix)).1 e in
        rw found (strip_suffix_append base64_suffix encoded)),
)

-- A name in base64 between the marks.
abbrev pub IsEncodedName : Bytes → Bytes → Type 0
IsEncodedName raw name =
    (encoded : Bytes) × IsMarked raw encoded × IsBase64 encoded name × (is_utf8 name ≡ true)

-- A name that stands for itself.
abbrev pub IsPlainName : Bytes → Bytes → Type 0
IsPlainName raw name =
    (raw ≡ name)
    × ((encoded : Bytes) → ¬ IsMarked raw encoded)
    × (length name ≤ max_mcp_routing_name_bytes)
    × (is_plain_ascii_routing_value name ≡ true)

decoded_name_iff :
    (encoded name : Bytes)
    → (decoded_name encoded ≡ some name) ↔ (IsBase64 encoded name × (is_utf8 name ≡ true))
unfolding decoded_name
decoded_name_iff encoded name = (
  λ h.
      (let (decoded, ed, h1) = >>=-eq-some (decode_canonical_padded_base64 encoded) _ h in
        let made : ◌≡◌ {A = Option Bytes} (some decoded) (some name) = ground (arith, h1) in
        let same : decoded ≡ name = cc made in
        let valid : is_utf8 decoded ≡ true = ground (arith, h1) in
        let read : decode_canonical_padded_base64 encoded ≡ some name = rw (← same) ed in
        ((decode_canonical_padded_base64_iff encoded name).0 read, rw (← same) valid)),
  λ (base64, valid).
      let read = (decode_canonical_padded_base64_iff encoded name).1 base64 in
      let (text, small, some_bytes, fits) = base64 in
      let nonempty : (length name == 0) ≡ false = ground (arith, some_bytes) in
      let short : ltb max_mcp_routing_name_bytes (length name) ≡ false = ground (arith, fits) in
      rw (read, nonempty, short, valid) refl,
)

encoded_part-cases :
    (raw : Bytes)
    → ((encoded : Bytes) × (encoded_part raw ≡ some encoded)) ⊎ (encoded_part raw ≡ none)
encoded_part-cases raw =
    elim (encoded_part raw) as (λ r. ((encoded : Bytes) × (r ≡ some encoded)) ⊎ (r ≡ none)) [
      | some encoded ↦ inl (encoded, refl)
      | none ↦ inr refl
    ]

name_of_iff :
    (raw name : Bytes) → (name_of raw ≡ some name) ↔ (IsEncodedName raw name ⊎ IsPlainName raw name)
unfolding name_of
name_of_iff raw name = elim (encoded_part-cases raw) [
  | inl (encoded, e) ↦
      let marked = (encoded_part_iff raw encoded).0 e in
      (
        λ h.
            (let decoded : decoded_name encoded ≡ some name = rw (e, name_of) at h in
              let (base64, valid) = (decoded_name_iff encoded name).0 decoded in
              inl (encoded, marked, base64, valid)),
        λ k. elim k [
          | inl (other, mark, base64, valid) ↦
              let found = (encoded_part_iff raw other).1 mark in
              rw (name_of, found) ((decoded_name_iff other name).1 (base64, valid))
          | inr (same, clean, _, _) ↦ absurd (clean encoded marked)
        ],
      )
  | inr e ↦
      let unmarked : (encoded : Bytes) → ¬ IsMarked raw encoded = λ encoded mark.
        let found = (encoded_part_iff raw encoded).1 mark in
        absurd (ground (arith, sym e ∙ found)) in
      (
        λ h.
            (let plain : ◌≡◌ {A = Option Bytes}
                  (if ltb max_mcp_routing_name_bytes (length raw)
                      || not (is_plain_ascii_routing_value raw)
                    then none
                    else some raw)
                  (some name) =
                rw (e, name_of) at h in
              let made : ◌≡◌ {A = Option Bytes} (some raw) (some name) = ground (arith, plain) in
              let same : raw ≡ name = cc made in
              let short : length raw ≤ max_mcp_routing_name_bytes = ground (arith, plain) in
              let valid : is_plain_ascii_routing_value raw ≡ true = ground (arith, plain) in
              inr (same, unmarked, rw (← same) short, rw (← same) valid)),
        λ k. elim k [
          | inl (other, mark, _, _) ↦ absurd (unmarked other mark)
          | inr (same, _, short, valid) ↦
              let fits : ltb max_mcp_routing_name_bytes (length name) ≡ false =
                ground (arith, short) in
              rw (name_of, e, same, fits, valid) refl
        ],
      )
]

-- A header with one value, whose text is `raw`.
single_value :
    (values : List (Option Bytes)) (raw : Bytes)
    → single_header_value values ≡ some (some raw)
    → values ≡ some raw ∷ []
unfolding single_header_value
single_value [] raw h = absurd (ground (arith, h))
single_value (some text ∷ []) raw h = let e : text ≡ raw = cc h in rw e refl
single_value (none ∷ []) raw h = absurd (ground (arith, h))
single_value (some text ∷ second ∷ values) raw h = absurd (ground (arith, h))
single_value (none ∷ second ∷ values) raw h = absurd (ground (arith, h))

value_where-eq :
    (test : Bytes → Bool) (header : Option (Option Bytes)) (value : Bytes)
    → value_where test header ≡ some value
    → header ≡ some (some value)
value_where-eq test none value h = absurd (ground (arith, h))
value_where-eq test (some none) value h = absurd (ground (arith, h))
value_where-eq test (some (some text)) value h =
    let made : ◌≡◌ {A = Option Bytes} (some text) (some value) = ground (arith, h) in
    let same : text ≡ value = cc made in ap (λ v. some (some v)) same

-- Both spellings of a name are short enough for the header.
spelling-bounds :
    (raw name : Bytes)
    → IsEncodedName raw name ⊎ IsPlainName raw name
    → (0 < length raw) × (length raw ≤ max_mcp_routing_header_bytes)
unfolding is_plain_ascii_routing_value
spelling-bounds raw name (inl (encoded, mark, (text, small, some_bytes, fits), valid)) =
    let size : length raw ≡ 9 + length encoded + 2 = omega (
      arith,
      ap length mark,
      length-append base64_prefix (encoded ++ base64_suffix),
      length-append encoded base64_suffix,
    ) in
    let bound = length-encode_base64_bound name in
    let same = ap length text in (omega (arith, size), omega (arith, size, bound, same, fits))
spelling-bounds raw name (inr (same, unmarked, short, valid)) =
    let nonempty : 0 < length name = ground (arith, valid) in
    let sizes = ap length same in (omega (arith, nonempty, sizes), omega (arith, short, sizes))

-- A header gives a name exactly when it has one value, and that value is the name itself, in plain
-- ASCII and not marked as base64, or the canonical base64 of the name, which is UTF-8, in its marks.
-- Either way the name has at least one and at most 128 bytes.
pub stateless_name_header_iff :
    (values : List (Option Bytes)) (name : Bytes)
    → (stateless_name_header values ≡ some name)
      ↔ ((raw : Bytes) × (values ≡ some raw ∷ []) × (IsEncodedName raw name ⊎ IsPlainName raw name))
unfolding stateless_name_header single_header_value
stateless_name_header_iff values name =
    let test = λ (value : Bytes).
      not (length value == 0) && leb (length value) max_mcp_routing_header_bytes in
    (
      λ h.
          (let (raw, er, h1) =
              >>=-eq-some (value_where test (single_header_value values)) name_of h in
            let single = value_where-eq test (single_header_value values) raw er in
            (raw, single_value values raw single, (name_of_iff raw name).0 h1)),
      λ (raw, e, spelled).
          let (some_text, bound) = spelling-bounds raw name spelled in
          let passes : test raw ≡ true = ground (arith, some_text, bound) in
          rw (e, passes) ((name_of_iff raw name).1 spelled),
    )
