-- ===== src/Base/Options.antt =====
-- Chains of optional results: the `?` operator in a function that returns an `Option`.
use mathlib.Core.Path.{◌≡◌, refl}
use mathlib.Core.Option.{Option, none, some}

infixl 5 ◌>>=◌
abbrev pub ◌>>=◌ {ℓ κ} : {A : Type ℓ} {B : Type κ} → Option A → (A → Option B) → Option B
some value >>= next = next value
none >>= next = none

-- A chain has a value only if each of its links has one.
pub >>=-eq-some {ℓ κ} :
    {A : Type ℓ} {B : Type κ} (first : Option A) (next : A → Option B) {final : B}
    → (first >>= next) ≡ some final
    → (value : A) × (first ≡ some value) × (next value ≡ some final)
>>=-eq-some (some value) next h = (value, refl, h)
>>=-eq-some none next h = absurd (cc)
