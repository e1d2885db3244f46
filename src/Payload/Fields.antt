-- ===== src/Payload/Fields.antt =====
-- Payloads that are laid out field by field, whatever the fields are: `put` and `take_array` of
-- src/create_directory_grant.rs and src/android_volume_grant.rs in sequence. A single byte is a
-- field of one.
use termux_mcp_edge.Base.{
  ℕ, ◌+◌, ◌≡◌, refl, sym, ◌∙◌, ap, subst, arith, Option, some, List, [], ◌∷◌, ◌++◌, append_assoc,
  append-nil, length, drop, replicate, concat, Bytes, AreBytes, All, All-append, All-append_left,
  All-append_right, length-append, length-replicate, drop-drop, drop_all, take-drop,
}
use termux_mcp_edge.Base.Options.{◌>>=◌, >>=-eq-some}
use termux_mcp_edge.Payload.{put, take_array}
use termux_mcp_edge.Payload.Laws.{
  IsWritten, put-IsWritten, take_array_lem, take_array-eq, length-window,
}

unfoldable pub put_fields : Bytes × ℕ → List Bytes → Bytes × ℕ
put_fields s [] = s
put_fields s (field ∷ fields) = put_fields (put s field) fields

-- The fields written into a zeroed array.
unfoldable pub lay_out : ℕ → List Bytes → Bytes
lay_out size fields = (put_fields (replicate size 0, 0) fields).0

unfoldable pub take_fields : List ℕ → Bytes → ℕ → Option (List Bytes × ℕ)
take_fields [] payload offset = some ([], offset)
take_fields (width ∷ widths) payload offset = do
  (field, next) ← take_array width payload offset
  (fields, last) ← take_fields widths payload next
  some (field ∷ fields, last)

abbrev pub sum : List ℕ → ℕ
sum [] = 0
sum (n ∷ ns) = n + sum ns

abbrev pub HaveWidths : List ℕ → List Bytes → Type 0
HaveWidths [] [] = Unit
HaveWidths (w ∷ ws) (f ∷ fs) = (length f ≡ w) × HaveWidths ws fs
HaveWidths _ _ = ⊥

pub length-concat : (ws : List ℕ) (fs : List Bytes) → HaveWidths ws fs → length (concat fs) ≡ sum ws
length-concat [] [] h = refl
length-concat [] (f ∷ fs) h = absurd h
length-concat (w ∷ ws) [] h = absurd h
length-concat (w ∷ ws) (f ∷ fs) (e, h) =
    omega (arith, length-append f (concat fs), length-concat ws fs h, e)

put_fields-IsWritten :
    (s : Bytes × ℕ) (front rest : Bytes) (fs : List Bytes)
    → IsWritten s front rest
    → IsWritten (put_fields s fs) (front ++ concat fs) (drop (length (concat fs)) rest)
unfolding put_fields
put_fields-IsWritten s front rest [] e = rw (append-nil front) e
put_fields-IsWritten s front rest (f ∷ fs) e =
    let later =
      put_fields-IsWritten (put s f) (front ++ f) (drop (length f) rest) fs
        (put-IsWritten s front rest f e) in
    rw
      (
        append_assoc front f (concat fs),
        drop-drop (length f) (length (concat fs)) rest,
        ← length-append f (concat fs),
      )
      at later

-- Fields that fill the array exactly stand in it one after the other.
pub lay_out-concat :
    (ws : List ℕ) (fs : List Bytes) → HaveWidths ws fs → lay_out (sum ws) fs ≡ concat fs
unfolding lay_out
lay_out-concat ws fs h =
    let z : ℕ = 0 in
    let zeros : Bytes = replicate (sum ws) z in
    let written = put_fields-IsWritten (zeros, 0) [] zeros fs refl in
    let gone =
      drop_all (length (concat fs)) zeros
        (omega (arith, length-concat ws fs h, length-replicate (sum ws) z)) in
    ap (λ s. s.0) written ∙ rw gone (append-nil (concat fs))

take_fields_lem :
    (ws : List ℕ) (fs : List Bytes) (front : Bytes) (offset : ℕ)
    → HaveWidths ws fs
    → length front ≡ offset
    → take_fields ws (front ++ concat fs) offset ≡ some (fs, offset + sum ws)
unfolding take_fields
take_fields_lem [] [] front offset h e =
    let same : offset + 0 ≡ offset = omega arith in rw same refl
take_fields_lem [] (f ∷ fs) front offset h e = absurd h
take_fields_lem (w ∷ ws) [] front offset h e = absurd h
take_fields_lem (w ∷ ws) (f ∷ fs) front offset (l, h) e =
    let here = take_array_lem w front f (concat fs) offset e l in
    let more = length-append front f in
    let later = take_fields_lem ws fs (front ++ f) (offset + w) h (omega (arith, more, l, e)) in
    let moved : take_fields ws (front ++ (f ++ concat fs)) (offset + w)
        ≡ some (fs, offset + w + sum ws) =
      rw (append_assoc front f (concat fs)) at later in
    let total : offset + w + sum ws ≡ offset + (w + sum ws) = omega arith in
    rw (here, moved, total) refl

take_fields-eq :
    (ws : List ℕ) (p : Bytes) (offset : ℕ) (fs : List Bytes) (last : ℕ)
    → take_fields ws p offset ≡ some (fs, last)
    → HaveWidths ws fs
      × (last ≡ offset + sum ws)
      × (concat fs ++ drop (offset + sum ws) p ≡ drop offset p)
unfolding take_fields
take_fields-eq [] p offset fs last h =
    let none_taken : [] ≡ fs = cc in
    let stays : offset ≡ last = cc in
    let same : offset + 0 ≡ offset = omega arith in
    rw (← none_taken) (tt, sym stays ∙ sym same, ap (λ n. drop n p) same)
take_fields-eq (w ∷ ws) p offset fs last h =
    let ((f, next), here, h1) = >>=-eq-some (take_array w p offset) _ h in
    let ((gs, end), later, h2) = >>=-eq-some (take_fields ws p next) _ h1 in
    let (value, at, room) = take_array-eq w p offset (f, next) here in
    let (widths, reached, rest) = take_fields-eq ws p next gs end later in
    let all_taken : f ∷ gs ≡ fs = cc in
    let ends : end ≡ last = cc in
    let width : length f ≡ w = ap length value ∙ length-window offset w p room in
    let total : next + sum ws ≡ offset + (w + sum ws) = omega (arith, at) in
    let tail : concat gs ++ drop (offset + (w + sum ws)) p ≡ drop (offset + w) p =
      subst (λ n. concat gs ++ drop n p ≡ drop next p) total rest ∙ ap (λ n. drop n p) at in
    rw (← all_taken) (
      (width, widths),
      sym ends ∙ reached ∙ total,
      append_assoc f (concat gs) _
          ∙ ap (◌++◌ f) tail
          ∙ ap (λ x. x ++ drop (offset + w) p) value
          ∙ take-drop offset w p,
    )

-- The fields that fill a string exactly are its text, cut up.
pub take_fields-concat :
    (ws : List ℕ) (p : Bytes) (fs : List Bytes) (last : ℕ)
    → take_fields ws p 0 ≡ some (fs, last)
    → last ≡ length p
    → HaveWidths ws fs × (concat fs ≡ p)
take_fields-concat ws p fs last h full =
    let (widths, reached, text) = take_fields-eq ws p 0 fs last h in
    let gone = drop_all (0 + sum ws) p (omega (arith, reached, full)) in
    (widths, sym (append-nil (concat fs)) ∙ subst (λ t. concat fs ++ t ≡ p) gone text)

pub take_fields-lay_out :
    (ws : List ℕ) (fs : List Bytes)
    → HaveWidths ws fs
    → take_fields ws (lay_out (sum ws) fs) 0 ≡ some (fs, sum ws)
take_fields-lay_out ws fs h =
    let start : 0 + sum ws ≡ sum ws = omega arith in
    rw (lay_out-concat ws fs h) (take_fields_lem ws fs [] 0 h refl ∙ ap (λ n. some (fs, n)) start)

pub fields-AreBytes : (fs : List Bytes) → AreBytes (concat fs) → All AreBytes fs
fields-AreBytes [] h = tt
fields-AreBytes (f ∷ fs) h =
    (All-append_left _ f (concat fs) h, fields-AreBytes fs (All-append_right _ f (concat fs) h))

pub concat-AreBytes : (fs : List Bytes) → All AreBytes fs → AreBytes (concat fs)
concat-AreBytes [] h = tt
concat-AreBytes (f ∷ fs) (b, h) = All-append _ f (concat fs) b (concat-AreBytes fs h)
