-- ===== src/Capability/Labels.antt =====
-- The grammar of a label.
use termux_mcp_edge.Base.{
  ℕ, ◌+◌, ◌<◌, ◌≤◌, ◌≡◌, ◌↔◌, ◌⊎◌, inl, inr, refl, ap, sym, ◌∙◌, Bool, true, false, [], ◌∷◌, length,
  Bytes, arith, Bool-cases, ◌==◌, Result, ok, err, ◌>>◌, refuse_if, ltb,
}
use termux_mcp_edge.Capability.{
  CapabilityMetadataField, CapabilityMetadataErrorKind, empty, too_long, is_separator,
  is_letter_or_digit, check_bytes, with_field, validate_label,
}

-- Letters and digits with single separators between them: after a separator, and at the start,
-- stands a letter or a digit.
abbrev IsWords : Bool → Bytes → Type 0
IsWords true [] = ⊥
IsWords false [] = Unit
IsWords true (b ∷ bytes) = (is_letter_or_digit b ≡ true) × IsWords false bytes
IsWords false (b ∷ bytes) =
    ((is_letter_or_digit b ≡ true) × IsWords false bytes)
    ⊎ ((is_separator b ≡ true) × IsWords true bytes)

letter-ne-separator : (b : ℕ) → is_letter_or_digit b ≡ true → is_separator b ≡ false
letter-ne-separator b h = ground arith

separator-ne-letter : (b : ℕ) → is_separator b ≡ true → is_letter_or_digit b ≡ false
separator-ne-letter b h = ground arith

IsWords-nonempty : (bytes : Bytes) → IsWords true bytes → 0 < length bytes
IsWords-nonempty [] w = absurd w
IsWords-nonempty (b ∷ bytes) w = omega arith

-- Whether the loop passes, one byte at a time.
check_letter :
    (index total b : ℕ) (previous : Bool) (bytes : Bytes)
    → is_letter_or_digit b ≡ true
    → check_bytes index total previous (b ∷ bytes) ≡ check_bytes (index + 1) total false bytes
unfolding check_bytes
check_letter index total b previous bytes h = ground (arith, letter-ne-separator b h)

check_separator :
    (index total b : ℕ) (bytes : Bytes)
    → is_separator b ≡ true
    → is_letter_or_digit b ≡ false
    → 0 < index
    → index + 1 < total
    → check_bytes index total false (b ∷ bytes) ≡ check_bytes (index + 1) total true bytes
unfolding check_bytes
check_separator index total b bytes h f i t = ground arith

check_refused :
    (index total b : ℕ) (previous : Bool) (bytes : Bytes)
    → is_letter_or_digit b ≡ false
    → ((is_separator b ≡ false) ⊎ ((index ≡ 0) ⊎ ((index + 1 ≡ total) ⊎ (previous ≡ true))))
    → check_bytes index total previous (b ∷ bytes) ≡ ok tt
    → ⊥
unfolding check_bytes
check_refused index total b previous bytes f w h = ground arith

check_bytes_sound :
    (index total : ℕ) (previous : Bool) (bytes : Bytes)
    → 0 < index
    → index + length bytes ≡ total
    → (previous ≡ true → 0 < length bytes)
    → check_bytes index total previous bytes ≡ ok tt
    → IsWords previous bytes
check_bytes_sound index total true [] i e n h = absurd (omega (arith, n refl))
check_bytes_sound index total false [] i e n h = tt
check_bytes_sound index total true (b ∷ bytes) i e n h = elim (Bool-cases (is_letter_or_digit b)) [
  | inr f ↦ absurd (check_refused index total b true bytes f (inr (inr (inr refl))) h)
  | inl l ↦ (
    l,
    check_bytes_sound (index + 1) total false bytes (omega arith) (omega arith) (λ x. absurd (cc))
        (sym (check_letter index total b true bytes l) ∙ h),
  )
]
check_bytes_sound index total false (b ∷ bytes) i e n h = elim (Bool-cases (is_letter_or_digit b)) [
  | inl l ↦ inl (
    l,
    check_bytes_sound (index + 1) total false bytes (omega arith) (omega arith) (λ x. absurd (cc))
        (sym (check_letter index total b false bytes l) ∙ h),
  )
  | inr f ↦ elim (Bool-cases (is_separator b)) [
    | inr g ↦ absurd (check_refused index total b false bytes f (inl g) h)
    | inl p ↦ elim (Bool-cases (index + 1 == total)) [
      | inl last ↦
          absurd (check_refused index total b false bytes f (inr (inr (inl (ground arith)))) h)
      | inr inside ↦
          let more : index + 1 < total = ground arith in
          inr (
            p,
            check_bytes_sound (index + 1) total true bytes (omega arith) (omega arith)
                (λ x. omega arith) (sym (check_separator index total b bytes p f i more) ∙ h),
          )
    ]
  ]
]

check_bytes_complete :
    (index total : ℕ) (previous : Bool) (bytes : Bytes)
    → 0 < index
    → index + length bytes ≡ total
    → IsWords previous bytes
    → check_bytes index total previous bytes ≡ ok tt
unfolding check_bytes
check_bytes_complete index total true [] i e w = absurd w
check_bytes_complete index total false [] i e w = refl
check_bytes_complete index total true (b ∷ bytes) i e (l, w) =
    check_letter index total b true bytes l
    ∙ check_bytes_complete (index + 1) total false bytes (omega arith) (omega arith) w
check_bytes_complete index total false (b ∷ bytes) i e (inl (l, w)) =
    check_letter index total b false bytes l
    ∙ check_bytes_complete (index + 1) total false bytes (omega arith) (omega arith) w
check_bytes_complete index total false (b ∷ bytes) i e (inr (p, w)) =
    let more = IsWords-nonempty bytes w in
    check_separator index total b bytes p (separator-ne-letter b p) i (omega arith)
    ∙ check_bytes_complete (index + 1) total true bytes (omega arith) (omega arith) w

with_field-ok :
    (field : CapabilityMetadataField) (max_bytes : ℕ)
    (r : Result CapabilityMetadataErrorKind (Unit {0}))
    → with_field field max_bytes r ≡ ok tt
    → r ≡ ok tt
with_field-ok field max_bytes (ok u) h = refl
with_field-ok field max_bytes (err kind) h = absurd (cc)

checks_iff :
    (total max_bytes : ℕ) (bytes : Result CapabilityMetadataErrorKind (Unit {0}))
    → ((refuse_if (total == 0) empty >> (refuse_if (ltb max_bytes total) too_long >> bytes))
        ≡ ok tt)
      ↔ ((0 < total) × (total ≤ max_bytes) × (bytes ≡ ok tt))
checks_iff total max_bytes bytes =
    (λ h. (ground arith, ground arith, ground arith), λ w. ground arith)

-- A label is accepted exactly when it is no longer than its limit and made of words of lower-case
-- letters and digits with one separator between two: it is not empty, neither starts nor ends with a
-- separator, and has no two separators in a row.
validate_label_iff :
    (text : Bytes) (field : CapabilityMetadataField) (max_bytes : ℕ)
    → (validate_label text field max_bytes ≡ ok tt)
      ↔ ((length text ≤ max_bytes) × IsWords true text)
unfolding validate_label
validate_label_iff [] field max_bytes = (λ h. absurd (cc), λ w. absurd w.1)
validate_label_iff (b ∷ bytes) field max_bytes =
    let total = length (b ∷ bytes) in
    (
      λ h.
          let (_, short, passed) =
            (checks_iff total max_bytes (check_bytes 0 total false (b ∷ bytes))).0
              (with_field-ok field max_bytes _ h) in
          elim (Bool-cases (is_letter_or_digit b)) [
            | inr f ↦ absurd (check_refused 0 total b false bytes f (inr (inl refl)) passed)
            | inl l ↦ (
              short,
              (
                l,
                check_bytes_sound 1 total false bytes (omega arith) (omega arith) (λ e. absurd (cc))
                    (sym (check_letter 0 total b false bytes l) ∙ passed),
              ),
            )
          ],
      λ (short, (l, w)).
          let passed =
            check_letter 0 total b false bytes l
            ∙ check_bytes_complete 1 total false bytes (omega arith) (omega arith) w in
          let all =
            (checks_iff total max_bytes (check_bytes 0 total false (b ∷ bytes))).1
              (omega arith, short, passed) in
          ap (with_field field max_bytes) all,
    )
