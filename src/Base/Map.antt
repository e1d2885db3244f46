-- ===== src/Base/Map.antt =====
-- Maps from texts (`BTreeMap`, `HashMap`) as association lists in which a key stands once.
use Prim.Native.Nat.{◌+◌, ◌≤◌}
use mathlib.Core.Path.{◌≡◌, refl, subst}
use mathlib.Core.Logic.{inl, inr}
use mathlib.Core.Logic.{◌≢◌}
use mathlib.Core.Bool.{Bool, true, false}
use mathlib.Core.Option.{Option, none, some}
use mathlib.Core.List.{List, [], ◌∷◌}
use native.Mathlib.Omega.{arith}
use termux_mcp_edge.Base.Tests.{if◌then◌else◌, is_some, Bool-cases}
use termux_mcp_edge.Base.Lists.{length}
use termux_mcp_edge.Base.ByteStrings.{Bytes, beq, beq_iff}

abbrev pub Map {ℓ} : Type ℓ → Type ℓ
Map V = List (Bytes × V)

module _ {ℓ} {V : Type ℓ} where
  unfoldable pub get : Bytes → Map V → Option V
  unfolding beq
  get k [] = none
  get k ((j, v) ∷ m) = if beq j k then some v else get k m

  unfoldable pub insert : Bytes → V → Map V → Map V
  unfolding beq
  insert k v [] = (k, v) ∷ []
  insert k v ((j, w) ∷ m) = if beq j k then (k, v) ∷ m else (j, w) ∷ insert k v m

  -- A key stands once, so removing it keeps the others.
  unfoldable pub remove : Bytes → Map V → Map V
  unfolding beq
  remove k [] = []
  remove k ((j, w) ∷ m) = let rest = remove k m in if beq j k then rest else (j, w) ∷ rest

  unfoldable pub retain : (V → Bool) → Map V → Map V
  retain p [] = []
  retain p ((j, w) ∷ m) = let rest = retain p m in if p w then (j, w) ∷ rest else rest

  abbrev pub contains_key : Bytes → Map V → Bool
  contains_key k m = is_some (get k m)

module _ {ℓ} {V : Type ℓ} where
  -- The keys are distinct.
  abbrev pub IsUnique : Map V → Type ℓ
  IsUnique [] = Unit
  IsUnique ((j, v) ∷ m) = (get j m ≡ none) × IsUnique m

  pub get-insert :
      (k j : Bytes) (v : V) (m : Map V)
      → get j (insert k v m) ≡ (if beq k j then some v else get j m)
  unfolding get insert
  get-insert k j v [] = refl
  get-insert k j v ((i, w) ∷ m) =
      ground (arith, beq_iff k j, beq_iff i k, beq_iff i j, get-insert k j v m)

  pub get-remove :
      (k j : Bytes) (m : Map V) → get j (remove k m) ≡ (if beq k j then none else get j m)
  unfolding get remove
  get-remove k j [] = ground arith
  get-remove k j ((i, w) ∷ m) =
      ground (arith, beq_iff k j, beq_iff i k, beq_iff i j, get-remove k j m)

  -- A kept entry that is the first of its key stays so.
  pub get-retain_kept :
      (p : V → Bool) (k : Bytes) (v : V) (m : Map V)
      → get k m ≡ some v
      → p v ≡ true
      → get k (retain p m) ≡ some v
  unfolding get retain
  get-retain_kept p k v [] h t = cc
  get-retain_kept p k v ((i, w) ∷ m) h t = ground (arith, get-retain_kept p k v m)

  pub get-retain_absent :
      (p : V → Bool) (k : Bytes) (m : Map V) → get k m ≡ none → get k (retain p m) ≡ none
  unfolding get retain
  get-retain_absent p k [] h = refl
  get-retain_absent p k ((i, w) ∷ m) h = ground (arith, get-retain_absent p k m)

  -- With distinct keys a dropped entry leaves nothing behind.
  pub get-retain_drop :
      (p : V → Bool) (k : Bytes) (v : V) (m : Map V)
      → IsUnique m
      → get k m ≡ some v
      → p v ≡ false
      → get k (retain p m) ≡ none
  unfolding get retain
  get-retain_drop p k v [] u h t = cc
  get-retain_drop p k v ((i, w) ∷ m) (n, u) h t =
      ground (arith, beq_iff i k, get-retain_absent p k m, get-retain_drop p k v m u)

  pub insert-IsUnique : (k : Bytes) (v : V) (m : Map V) → IsUnique m → IsUnique (insert k v m)
  unfolding insert get
  insert-IsUnique k v [] u = (refl, tt)
  insert-IsUnique k v ((i, w) ∷ m) (n, u) =
      ground (arith, beq_iff i k, beq_iff k i, get-insert k i v m, insert-IsUnique k v m u)

  pub remove-IsUnique : (k : Bytes) (m : Map V) → IsUnique m → IsUnique (remove k m)
  unfolding remove get
  remove-IsUnique k [] u = tt
  remove-IsUnique k ((i, w) ∷ m) (n, u) =
      ground (arith, beq_iff k i, get-remove k i m, remove-IsUnique k m u)

  pub retain-IsUnique : (p : V → Bool) (m : Map V) → IsUnique m → IsUnique (retain p m)
  unfolding retain get
  retain-IsUnique p [] u = tt
  retain-IsUnique p ((i, w) ∷ m) (n, u) =
      ground (arith, get-retain_absent p i m n, retain-IsUnique p m u)

  pub length-insert-le : (k : Bytes) (v : V) (m : Map V) → length (insert k v m) ≤ length m + 1
  unfolding insert
  length-insert-le k v [] = omega arith
  length-insert-le k v ((i, w) ∷ m) = ground (arith, length-insert-le k v m)

  pub length-insert_present :
      (k : Bytes) (v : V) (m : Map V) → get k m ≢ none → length (insert k v m) ≡ length m
  unfolding insert get
  length-insert_present k v [] h = absurd (h refl)
  length-insert_present k v ((i, w) ∷ m) h = ground (arith, length-insert_present k v m)

  pub length-remove-le : (k : Bytes) (m : Map V) → length (remove k m) ≤ length m
  unfolding remove
  length-remove-le k [] = omega arith
  length-remove-le k ((i, w) ∷ m) = ground (arith, length-remove-le k m)

  pub length-retain-le : (p : V → Bool) (m : Map V) → length (retain p m) ≤ length m
  unfolding retain
  length-retain-le p [] = omega arith
  length-retain-le p ((i, w) ∷ m) = ground (arith, length-retain-le p m)

-- A predicate on every value.
module _ {ℓ κ} {V : Type ℓ} (P : V → Type κ) where
  abbrev pub AllValues : Map V → Type κ
  AllValues [] = Unit
  AllValues ((j, v) ∷ m) = P v × AllValues m

  pub AllValues-get : (k : Bytes) (v : V) (m : Map V) → AllValues m → get k m ≡ some v → P v
  unfolding get
  AllValues-get k v [] h e = absurd (cc)
  AllValues-get k v ((j, w) ∷ m) (p, h) e = elim (Bool-cases (beq j k)) [
    | inl t ↦ let same : w ≡ v = ground arith in subst P same p
    | inr f ↦ AllValues-get k v m h (ground arith)
  ]

  pub AllValues-insert :
      (k : Bytes) (v : V) (m : Map V) → AllValues m → P v → AllValues (insert k v m)
  unfolding insert
  AllValues-insert k v [] h p = (p, tt)
  AllValues-insert k v ((j, w) ∷ m) (q, h) p = elim (Bool-cases (beq j k)) [
    | inl t ↦ rw t (p, h)
    | inr f ↦ rw f (q, AllValues-insert k v m h p)
  ]

  pub AllValues-remove : (k : Bytes) (m : Map V) → AllValues m → AllValues (remove k m)
  unfolding remove
  AllValues-remove k [] h = tt
  AllValues-remove k ((j, w) ∷ m) (q, h) = elim (Bool-cases (beq j k)) [
    | inl t ↦ rw t (AllValues-remove k m h)
    | inr f ↦ rw f (q, AllValues-remove k m h)
  ]

  pub AllValues-retain : (p : V → Bool) (m : Map V) → AllValues m → AllValues (retain p m)
  unfolding retain
  AllValues-retain p [] h = tt
  AllValues-retain p ((j, w) ∷ m) (q, h) = elim (Bool-cases (p w)) [
    | inl t ↦ rw t (q, AllValues-retain p m h)
    | inr f ↦ rw f (AllValues-retain p m h)
  ]
