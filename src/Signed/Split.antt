-- ===== src/Signed/Split.antt =====
-- Splitting a token at its dots.
use termux_mcp_edge.Base.{ℕ, ◌≡◌, ◌≢◌, refl, sym, List, [], ◌∷◌, ◌++◌, arith, Bytes, All, some, ◌∙◌}
use termux_mcp_edge.Signed.{split, grow, four_segments, Segments}

abbrev pub NoDot : Bytes → Type 0
NoDot = All (λ c. c ≢ b'.')

-- A text without a dot is one piece.
pub split_last : (s : Bytes) → NoDot s → split b'.' s ≡ s ∷ []
unfolding split
split_last [] h = refl
split_last (c ∷ s) (p, h) = ground (arith, split_last s h)

-- The first dot ends the first piece.
pub split_dot : (s rest : Bytes) → NoDot s → split b'.' (s ++ b'.' ∷ rest) ≡ s ∷ split b'.' rest
unfolding split
split_dot [] rest h = refl
split_dot (c ∷ s) rest (p, h) = ground (arith, split_dot s rest h)

abbrev join : List Bytes → Bytes
join [] = []
join (p ∷ []) = p
join (p ∷ q ∷ ps) = p ++ b'.' ∷ join (q ∷ ps)

join-grow : (c : ℕ) (ps : List Bytes) → ps ≢ [] → join (grow c ps) ≡ c ∷ join ps
join-grow c [] h = absurd (h refl)
join-grow c (p ∷ []) h = refl
join-grow c (p ∷ q ∷ ps) h = refl

split-ne-nil : (s : Bytes) → split b'.' s ≢ []
unfolding split
split-ne-nil [] = cc
split-ne-nil (c ∷ s) = ground (arith, split-ne-nil s)

join-dot : (ps : List Bytes) → ps ≢ [] → join ([] ∷ ps) ≡ b'.' ∷ join ps
join-dot [] h = absurd (h refl)
join-dot (p ∷ ps) h = refl

join-split : (s : Bytes) → join (split b'.' s) ≡ s
unfolding split
join-split [] = refl
join-split (c ∷ s) = ground (
  arith,
  join-split s,
  join-grow c (split b'.' s) (split-ne-nil s),
  join-dot (split b'.' s) (split-ne-nil s),
)

-- Four pieces are the whole token.
pub four_segments-join :
    (token : Bytes) (s : Segments)
    → four_segments (split b'.' token) ≡ some s
    → token ≡ s.version ++ b'.' ∷ (s.key_id ++ b'.' ∷ (s.payload_hex ++ b'.' ∷ s.signature_hex))
four_segments-join token s h = sym (join-split token) ∙ pieces (split b'.' token) s h
  where
    pieces :
        (ps : List Bytes) (s : Segments)
        → four_segments ps ≡ some s
        → join ps
          ≡ s.version ++ b'.' ∷ (s.key_id ++ b'.' ∷ (s.payload_hex ++ b'.' ∷ s.signature_hex))
    pieces [] s h = absurd (cc)
    pieces (_ ∷ []) s h = absurd (cc)
    pieces (_ ∷ _ ∷ []) s h = absurd (cc)
    pieces (_ ∷ _ ∷ _ ∷ []) s h = absurd (cc)
    pieces (v ∷ k ∷ p ∷ q ∷ []) s h = cc
    pieces (_ ∷ _ ∷ _ ∷ _ ∷ _ ∷ _) s h = absurd (cc)
