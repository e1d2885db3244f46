-- ===== src/Base/Text.antt =====
-- The operations on texts (`str`) that the components share: texts are their bytes.
use Prim.Native.Nat.{ℕ, zero, suc, ◌+◌, ◌*◌, ◌-◌, ◌/◌, ◌%◌}
use mathlib.Core.Path.{◌≡◌, refl, ap, sym}
use mathlib.Core.Logic.{◌↔◌, ◌≢◌, inl, inr}
use mathlib.Core.Bool.{Bool, true, false, ◌&&◌, ◌||◌}
use mathlib.Core.Option.{Option, none, some}
use mathlib.Core.List.{List, [], ◌∷◌, ◌++◌, Memᴰ}
use mathlib.Core.List.Memᴰ
use native.Mathlib.Omega.{arith}
use termux_mcp_edge.Base.Tests.{if◌then◌else◌, leb, ltb, ◌==◌, Bool-cases}
use termux_mcp_edge.Base.Lists.{All}
use termux_mcp_edge.Base.ByteStrings.{Bytes, beq, beq_iff}

abbrev pub any {ℓ} : {A : Type ℓ} → (A → Bool) → List A → Bool
any p [] = false
any p (x ∷ xs) = p x || any p xs

-- `BTreeSet::contains`.
abbrev pub contains : Bytes → List Bytes → Bool
contains s set = any (λ t. beq t s) set

pub contains_iff : (s : Bytes) (set : List Bytes) → (contains s set ≡ true) ↔ Memᴰ s set
contains_iff s [] = (λ h. absurd (ground (arith, h)), λ m. elim m [ ])
contains_iff s (t ∷ set) = elim (Bool-cases (beq t s)) [
  | inl e ↦ (λ h. Memᴰ.head (sym ((beq_iff t s).0 e)), λ m. rw e refl)
  | inr f ↦ (
    λ h. Memᴰ.tail ((contains_iff s set).0 (rw f at h)),
    λ m. elim (Memᴰ.cases_cons m) [
      | inl e ↦ absurd (let t : beq t s ≡ true = (beq_iff t s).1 (sym e) in ground (arith, t, f))
      | inr later ↦ rw f ((contains_iff s set).1 later)
    ],
  )
]

abbrev pub ascii_lower : ℕ → ℕ
ascii_lower c = if leb b'A' c && leb c b'Z' then c + 32 else c

-- `str::to_ascii_lowercase`.
abbrev pub to_ascii_lowercase : Bytes → Bytes
to_ascii_lowercase [] = []
to_ascii_lowercase (c ∷ s) = ascii_lower c ∷ to_ascii_lowercase s

-- `str::strip_prefix`.
unfoldable pub strip_prefix : Bytes → Bytes → Option Bytes
strip_prefix [] s = some s
strip_prefix (p ∷ ps) [] = none
strip_prefix (p ∷ ps) (c ∷ s) = let rest = strip_prefix ps s in if p == c then rest else none

pub strip_prefix_iff : (p s t : Bytes) → (strip_prefix p s ≡ some t) ↔ (s ≡ p ++ t)
unfolding strip_prefix
strip_prefix_iff [] s t = (λ h. cc h, λ e. rw e refl)
strip_prefix_iff (x ∷ p) [] t = (λ h. absurd (cc), λ h. absurd (cc))
strip_prefix_iff (x ∷ p) (c ∷ s) t =
    let ih = strip_prefix_iff p s t in
    (
      λ h.
          (let same : x ≡ c = ground arith in
            let rest : strip_prefix p s ≡ some t = ground (arith, h) in
            rw same (ap (◌∷◌ c) (ih.0 rest))),
      λ e.
          (let same : c ≡ x = cc e in
            let rest : s ≡ p ++ t = cc e in let found = ih.1 rest in ground (arith, found, same)),
    )

abbrev prefix : ℕ → Option (Bytes × Bytes) → Option (Bytes × Bytes)
prefix c none = none
prefix c (some (front, back)) = some (c ∷ front, back)

-- `str::split_once`, at the first of the separators.
unfoldable pub split_once : ℕ → Bytes → Option (Bytes × Bytes)
split_once separator [] = none
split_once separator (c ∷ s) =
    let rest = split_once separator s in if c == separator then some ([], s) else prefix c rest

abbrev pub IsWithout : ℕ → Bytes → Type 0
IsWithout separator = All (λ c. c ≢ separator)

pub split_once-append :
    (separator : ℕ) (s t : Bytes)
    → IsWithout separator s
    → split_once separator (s ++ separator ∷ t) ≡ some (s, t)
unfolding split_once
split_once-append separator [] t h = ground arith
split_once-append separator (c ∷ s) t (d, h) =
    let rest = split_once-append separator s t h in
    let other : (c == separator) ≡ false = ground (arith, d) in rw (other, rest) refl

prefix-eq :
    (c : ℕ) (r : Option (Bytes × Bytes)) (front back : Bytes)
    → prefix c r ≡ some (front, back)
    → (f : Bytes) × (r ≡ some (f, back)) × (front ≡ c ∷ f)
prefix-eq c none front back h = absurd (cc)
prefix-eq c (some (f, b)) front back h =
    let same : b ≡ back = cc in
    let first : front ≡ c ∷ f = cc in (f, ap (λ x. some (f, x)) same, first)

pub split_once-eq :
    (separator : ℕ) (s front back : Bytes)
    → split_once separator s ≡ some (front, back)
    → (s ≡ front ++ separator ∷ back) × IsWithout separator front
unfolding split_once
split_once-eq separator [] front back h = absurd (cc)
split_once-eq separator (c ∷ s) front back h = elim (Bool-cases (c == separator)) [
  | inl e ↦
      let found : ◌≡◌ {A = Option (Bytes × Bytes)} (some ([], s)) (some (front, back)) =
        rw e at h in
      let nothing : ◌≡◌ {A = Bytes} [] front = cc found in
      let after : s ≡ back = cc found in
      let at : c ≡ separator = ground (arith, e) in rw (← nothing) (rw (at, after) refl, tt)
  | inr d ↦
      let later : prefix c (split_once separator s) ≡ some (front, back) = rw d at h in
      let (f, rest, first) = prefix-eq c (split_once separator s) front back later in
      let (text, without) = split_once-eq separator s f back rest in
      rw first (ap (◌∷◌ c) text, ((λ k. absurd (ground (arith, d, k))), without))
]

-- `str::matches(c).count()`.
abbrev pub count_of : ℕ → Bytes → ℕ
count_of separator [] = 0
count_of separator (c ∷ s) = (if c == separator then 1 else 0) + count_of separator s

abbrev pub ends_with : ℕ → Bytes → Bool
ends_with b [] = false
ends_with b (c ∷ []) = c == b
ends_with b (c ∷ d ∷ s) = ends_with b (d ∷ s)

abbrev pub starts_with : ℕ → Bytes → Bool
starts_with b [] = false
starts_with b (c ∷ s) = c == b

-- `s.strip_suffix(b).unwrap_or(s)`.
unfoldable pub without_suffix : ℕ → Bytes → Bytes
without_suffix b [] = []
without_suffix b (c ∷ []) = if c == b then [] else c ∷ []
without_suffix b (c ∷ d ∷ s) = c ∷ without_suffix b (d ∷ s)

abbrev pub is_digit : ℕ → Bool
is_digit c = leb b'0' c && leb c b'9'

abbrev pub value_from : ℕ → Bytes → ℕ
value_from acc [] = acc
value_from acc (c ∷ s) = value_from (acc * 10 + (c - b'0')) s

-- The number that a string of digits writes.
unfoldable pub decimal_value : Bytes → ℕ
decimal_value s = value_from 0 s

-- `to_string` of an integer of at most so many digits.
unfoldable pub decimal : ℕ → ℕ → Bytes
decimal zero n = []
decimal (suc fuel) n =
    let high = decimal fuel (n / 10) in
    if ltb n 10 then (b'0' + n) ∷ [] else high ++ (b'0' + n % 10) ∷ []
