-- ===== src/Prelude/Tests.antt =====
-- Boolean tests on the native numbers and on texts, and the conditional.
use Prim.Native.Nat.{ℕ, ◌<◌, compare, Ordering}
use mathlib.Core.Path.{◌≡◌, refl}
use mathlib.Core.Logic.{◌↔◌, ◌⊎◌, inl, inr}
use mathlib.Core.Bool.{Bool, true, false, ◌&&◌}
use mathlib.Core.List.{List, [], ◌∷◌}
use mathlib.Core.Option.{Option, none, some}
use native.Mathlib.Omega.{arith}

abbrev pub ltb : ℕ → ℕ → Bool
ltb a b = elim (compare a b) [ Ordering.lt ↦ true | _ ↦ false ]

abbrev pub leb : ℕ → ℕ → Bool
leb a b = elim (compare a b) [ Ordering.gt ↦ false | _ ↦ true ]

infix 50 ◌==◌
abbrev pub ◌==◌ : ℕ → ℕ → Bool
a == b = elim (compare a b) [ Ordering.eq ↦ true | _ ↦ false ]

infix 1 if◌then◌else◌
abbrev pub if◌then◌else◌ {ℓ} : {A : Type ℓ} → Bool → A → A → A
if true then x else y = x
if false then x else y = y

pub ==_iff : (a b : ℕ) → ((a == b) ≡ true) ↔ (a ≡ b)
==_iff a b = ground arith

pub ltb→lt : (a b : ℕ) → ltb a b ≡ true → a < b
ltb→lt a b h = ground arith

-- `==` on two texts, character by character.
infix 50 ◌==s◌
unfoldable pub ◌==s◌ : List ℕ → List ℕ → Bool
[] ==s [] = true
[] ==s (d ∷ t) = false
(c ∷ s) ==s [] = false
(c ∷ s) ==s (d ∷ t) = c == d && s ==s t

pub ==s_refl : (s : List ℕ) → (s ==s s) ≡ true
unfolding ◌==s◌
==s_refl [] = refl
==s_refl (c ∷ s) = ground (arith, ==s_refl s)

pub ==s_sound : (s t : List ℕ) → (s ==s t) ≡ true → s ≡ t
unfolding ◌==s◌
==s_sound [] [] h = refl
==s_sound [] (d ∷ t) h = cc
==s_sound (c ∷ s) [] h = cc
==s_sound (c ∷ s) (d ∷ t) h = ground (arith, ==s_sound s t)

pub ==s-false : (s t : List ℕ) → (s ≡ t → ⊥) → (s ==s t) ≡ false
==s-false s t h = not_true (s ==s t) (λ e. h (==s_sound s t e))
  where
    not_true : (b : Bool) → (b ≡ true → ⊥) → b ≡ false
    not_true true k = absurd (k refl)
    not_true false k = refl

-- To split on a computed value and keep the equation.
pub Bool-cases : (b : Bool) → (b ≡ true) ⊎ (b ≡ false)
Bool-cases true = inl refl
Bool-cases false = inr refl

pub Option-cases {ℓ} : {A : Type ℓ} (o : Option A) → (o ≡ none) ⊎ ((a : A) × (o ≡ some a))
Option-cases none = inl refl
Option-cases (some a) = inr (a, refl)
