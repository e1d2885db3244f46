-- ===== src/Payload/Laws.antt =====
-- The payload codec is a bijection between well-sized grants and strings of 65 bytes.
use termux_mcp_edge.Base.{
  ℕ, ◌+◌, ◌<◌, ◌≤◌, ◌^◌, ◌≡◌, refl, sym, ◌∙◌, ap, subst, some, [], ◌∷◌, ◌++◌, append_assoc, length,
  arith, Bytes, AreBytes, get_elem?, take, drop, replicate, take-append, drop-append,
  drop-append_more, take-drop, drop_all, drop-get_elem?, length-append, length-drop,
  length-replicate, length-take, to_be_bytes, from_be_bytes, length-to_be_bytes,
  from_be_bytes-to_be_bytes, to_be_bytes-from_be_bytes, get_elem?-append_length, from_be_bytes-lt,
  All-append, All-take, All-drop, to_be_bytes-AreBytes, append-nil,
}
use termux_mcp_edge.Base.Options.{>>=-eq-some}
use termux_mcp_edge.Payload.{
  ParsedGrant, put, take_array, encode_payload, decode_payload, payload_bytes, grant_id_bytes,
  binding_bytes,
}

pub record IsWellSized (g : ParsedGrant) : Type 0 where
  pub id_length : length g.grant_id ≡ grant_id_bytes
  pub id_bytes : AreBytes g.grant_id
  pub capability_byte : g.capability < 256
  pub binding_length : length g.operation_binding ≡ binding_bytes
  pub binding_are_bytes : AreBytes g.operation_binding
  pub issued_word : g.issued_unix_seconds < 256 ^ 8
  pub expires_word : g.expires_unix_seconds < 256 ^ 8

-- The fields one after the other.
abbrev pub fields : ParsedGrant → Bytes
fields g =
    g.grant_id
    ++ (g.capability
        ∷ (g.operation_binding
            ++ (to_be_bytes 8 g.issued_unix_seconds ++ to_be_bytes 8 g.expires_unix_seconds)))

-- `front` is written, and `rest` is what the array still holds behind it.
abbrev pub IsWritten : Bytes × ℕ → Bytes → Bytes → Type 0
IsWritten s front rest = s ≡ (front ++ rest, length front)

pub put-IsWritten :
    (s : Bytes × ℕ) (front rest value : Bytes)
    → IsWritten s front rest
    → IsWritten (put s value) (front ++ value) (drop (length value) rest)
unfolding put
put-IsWritten s front rest value e = rw (
  e,
  put,
  take-append (length front) front rest refl,
  drop-append_more (length value) front rest,
  length-append front value,
  append_assoc front value (drop (length value) rest),
)

-- Writing the fields into a zeroed array lays them out one after the other.
encode_payload-fields : (g : ParsedGrant) → IsWellSized g → encode_payload g ≡ fields g
unfolding encode_payload
encode_payload-fields g w =
    let z : ℕ = 0 in
    let zeros : Bytes = replicate payload_bytes 0 in
    let issued = to_be_bytes 8 g.issued_unix_seconds in
    let expires = to_be_bytes 8 g.expires_unix_seconds in
    let a = put-IsWritten (zeros, 0) [] zeros g.grant_id refl in
    let b = put-IsWritten _ _ _ (g.capability ∷ []) a in
    let c = put-IsWritten _ _ _ g.operation_binding b in
    let d = put-IsWritten _ _ _ issued c in
    let e = put-IsWritten _ _ _ expires d in
    let gone =
      drop_all (length expires)
        (drop (length issued)
          (drop (length g.operation_binding) (drop 1 (drop (length g.grant_id) zeros))))
        (omega (
          arith,
          w,
          length-drop {0},
          length-replicate payload_bytes z,
          length-to_be_bytes 8 g.issued_unix_seconds,
          length-to_be_bytes 8 g.expires_unix_seconds,
        )) in
    ap (λ s. s.0) e ∙ rw gone (simp (append-nil, append_assoc))

pub take_array_lem :
    (n : ℕ) (front value rest : Bytes) (offset : ℕ)
    → length front ≡ offset
    → length value ≡ n
    → take_array n (front ++ (value ++ rest)) offset ≡ some (value, offset + n)
unfolding take_array
take_array_lem n front value rest offset e h = ground (
  arith,
  length-append front (value ++ rest),
  length-append value rest,
  drop-append offset front (value ++ rest) e,
  take-append n value rest h,
)

pub take_array-eq :
    (n : ℕ) (input : Bytes) (offset : ℕ) (r : Bytes × ℕ)
    → take_array n input offset ≡ some r
    → (r.0 ≡ take n (drop offset input)) × (r.1 ≡ offset + n) × (offset + n ≤ length input)
unfolding take_array
take_array-eq n input offset r h = ground arith

length-fields : (g : ParsedGrant) → IsWellSized g → length (fields g) ≡ payload_bytes
length-fields g w = omega (
  arith,
  length-append {0},
  length-to_be_bytes 8 g.issued_unix_seconds,
  length-to_be_bytes 8 g.expires_unix_seconds,
)

decode_payload-fields : (g : ParsedGrant) → IsWellSized g → decode_payload (fields g) ≡ some g
unfolding decode_payload
decode_payload-fields g w =
    let issued = to_be_bytes 8 g.issued_unix_seconds in
    let expires = to_be_bytes 8 g.expires_unix_seconds in
    let f2 = g.grant_id ++ g.capability ∷ [] in
    let f3 = f2 ++ g.operation_binding in
    let f4 = f3 ++ issued in
    let l2 : length f2 ≡ 17 = omega (arith, w, length-append {0}) in
    let l3 : length f3 ≡ 49 = omega (arith, w, l2, length-append f2 g.operation_binding) in
    let l4 : length f4 ≡ 57 =
      omega (arith, l3, length-append f3 issued, length-to_be_bytes 8 g.issued_unix_seconds) in
    let at_id : take_array 16 (fields g) 0 ≡ some (g.grant_id, 16) =
      take_array_lem 16 [] g.grant_id _ 0 refl w.id_length in
    let at_capability : get_elem? (fields g) 16 ≡ some g.capability =
      get_elem?-append_length 16 g.grant_id _ g.capability w.id_length in
    let shape3 : fields g ≡ f2 ++ (g.operation_binding ++ (issued ++ expires)) =
      sym (append_assoc g.grant_id (g.capability ∷ []) _) in
    let shape4 : fields g ≡ f3 ++ (issued ++ expires) =
      shape3 ∙ sym (append_assoc f2 g.operation_binding _) in
    let shape5 : fields g ≡ f4 ++ (expires ++ []) =
      shape4 ∙ sym (append_assoc f3 issued expires) ∙ ap (◌++◌ f4) (sym (append-nil expires)) in
    let at_binding : take_array 32 (fields g) 17 ≡ some (g.operation_binding, 49) =
      rw shape3
        (take_array_lem 32 f2 g.operation_binding (issued ++ expires) 17 l2 w.binding_length) in
    let at_issued : take_array 8 (fields g) 49 ≡ some (issued, 57) =
      rw shape4 (take_array_lem 8 f3 issued expires 49 l3 (length-to_be_bytes 8 _)) in
    let at_expires : take_array 8 (fields g) 57 ≡ some (expires, 65) =
      rw shape5 (take_array_lem 8 f4 expires [] 57 l4 (length-to_be_bytes 8 _)) in
    rw (
      at_id,
      at_capability,
      at_binding,
      at_issued,
      at_expires,
      from_be_bytes-to_be_bytes 8 g.issued_unix_seconds w.issued_word,
      from_be_bytes-to_be_bytes 8 g.expires_unix_seconds w.expires_word,
    )

word_text : (bs : Bytes) → length bs ≡ 8 → AreBytes bs → to_be_bytes 8 (from_be_bytes bs) ≡ bs
word_text bs e h =
    subst (λ w. to_be_bytes w (from_be_bytes bs) ≡ bs) e (to_be_bytes-from_be_bytes bs h)

pub length-window : (m n : ℕ) (p : Bytes) → m + n ≤ length p → length (take n (drop m p)) ≡ n
length-window m n p h = omega (arith, length-take n (drop m p), length-drop m p)

-- The grant that a string of 65 bytes holds, its capability byte given.
abbrev held : Bytes → ℕ → ParsedGrant
held p capability = record {
  grant_id = take 16 p;
  capability = capability;
  operation_binding = take 32 (drop 17 p);
  issued_unix_seconds = from_be_bytes (take 8 (drop 49 p));
  expires_unix_seconds = from_be_bytes (take 8 (drop 57 p));
}

decode_payload-held :
    (p : Bytes) (g : ParsedGrant)
    → decode_payload p ≡ some g
    → (c : ℕ) × (get_elem? p 16 ≡ some c) × (held p c ≡ g)
unfolding decode_payload
decode_payload-held p g h =
    let (r1, e1, h1) = >>=-eq-some (take_array 16 p 0) _ h in
    let (c, ec, h2) = >>=-eq-some (get_elem? p r1.1) _ h1 in
    let (r2, e2, h3) = >>=-eq-some (take_array 32 p (r1.1 + 1)) _ h2 in
    let (r3, e3, h4) = >>=-eq-some (take_array 8 p r2.1) _ h3 in
    let (r4, e4, h5) = >>=-eq-some (take_array 8 p r3.1) _ h4 in
    let (v1, o1, _) = take_array-eq 16 p 0 r1 e1 in
    let (v2, o2, _) = take_array-eq 32 p (r1.1 + 1) r2 e2 in
    let (v3, o3, _) = take_array-eq 8 p r2.1 r3 e3 in
    let (v4, o4, _) = take_array-eq 8 p r3.1 r4 e4 in
    let at1 : r1.1 ≡ 16 = omega arith in
    let at2 : r1.1 + 1 ≡ 17 = omega arith in
    let at3 : r2.1 ≡ 49 = omega arith in
    let at4 : r3.1 ≡ 57 = omega arith in
    let at5 : r4.1 ≡ 65 = omega arith in
    let w2 : r2.0 ≡ take 32 (drop 17 p) = v2 ∙ ap (λ o. take 32 (drop o p)) at2 in
    let w3 : r3.0 ≡ take 8 (drop 49 p) = v3 ∙ ap (λ o. take 8 (drop o p)) at3 in
    let w4 : r4.0 ≡ take 8 (drop 57 p) = v4 ∙ ap (λ o. take 8 (drop o p)) at4 in
    (c, subst (λ o. get_elem? p o ≡ some c) at1 ec, ground arith)

held-fields :
    (p : Bytes) (c : ℕ)
    → length p ≡ payload_bytes
    → AreBytes p
    → get_elem? p 16 ≡ some c
    → IsWellSized (held p c) × (fields (held p c) ≡ p)
held-fields p c e h at_c =
    let bytes = λ (m n : ℕ). All-take (λ b. b < 256) n (drop m p) (All-drop (λ b. b < 256) m p h) in
    let l3 = length-window 49 8 p (omega arith) in
    let l4 = length-window 57 8 p (omega arith) in
    let capability : drop 16 p ≡ c ∷ drop 17 p = drop-get_elem? 16 p at_c in
    let small : AreBytes (c ∷ drop 17 p) =
      subst AreBytes capability (All-drop (λ b. b < 256) 16 p h) in
    let none_left : drop 65 p ≡ [] = drop_all 65 p (omega arith) in
    let last : take 8 (drop 57 p) ++ [] ≡ drop 57 p = rw none_left at (take-drop 57 8 p) in
    (
      record {
        id_length = length-window 0 16 p (omega arith);
        id_bytes = bytes 0 16;
        capability_byte = small.0;
        binding_length = length-window 17 32 p (omega arith);
        binding_are_bytes = bytes 17 32;
        issued_word =
            subst (λ n. from_be_bytes (take 8 (drop 49 p)) < 256 ^ n) l3
              (from_be_bytes-lt _ (bytes 49 8));
        expires_word =
            subst (λ n. from_be_bytes (take 8 (drop 57 p)) < 256 ^ n) l4
              (from_be_bytes-lt _ (bytes 57 8));
      },
      rw (
        word_text (take 8 (drop 49 p)) l3 (bytes 49 8),
        word_text (take 8 (drop 57 p)) l4 (bytes 57 8),
        sym (append-nil (take 8 (drop 57 p))) ∙ last,
        take-drop 49 8 p,
        take-drop 17 32 p,
        ← capability,
        take-drop 0 16 p,
      ),
    )

-- Decoding the encoded payload of a well-sized grant gives the grant back.
pub decode_payload-encode_payload :
    (g : ParsedGrant) → IsWellSized g → decode_payload (encode_payload g) ≡ some g
decode_payload-encode_payload g w = rw (encode_payload-fields g w) (decode_payload-fields g w)

-- Whatever grant 65 bytes decode to is well sized, and encodes to those very bytes.
pub encode_payload-decode_payload :
    (p : Bytes) (g : ParsedGrant)
    → length p ≡ payload_bytes
    → AreBytes p
    → decode_payload p ≡ some g
    → IsWellSized g × (encode_payload g ≡ p)
encode_payload-decode_payload p g e h d =
    let (c, at_c, same) = decode_payload-held p g d in
    let (sized, text) = held-fields p c e h at_c in
    subst (λ k. IsWellSized k × (encode_payload k ≡ p)) same
      (sized, encode_payload-fields (held p c) sized ∙ text)

pub length-encode_payload :
    (g : ParsedGrant) → IsWellSized g → length (encode_payload g) ≡ payload_bytes
length-encode_payload g w = rw (encode_payload-fields g w) (length-fields g w)

pub encode_payload-AreBytes : (g : ParsedGrant) → IsWellSized g → AreBytes (encode_payload g)
encode_payload-AreBytes g w = rw (encode_payload-fields g w) (
    All-append _ g.grant_id _ w.id_bytes (
      w.capability_byte,
      All-append _ g.operation_binding _ w.binding_are_bytes (
          All-append _ (to_be_bytes 8 g.issued_unix_seconds) _ (to_be_bytes-AreBytes 8 _)
            (to_be_bytes-AreBytes 8 _)),
    ))
