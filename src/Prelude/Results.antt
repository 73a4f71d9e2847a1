-- ===== src/Prelude/Results.antt =====
-- Rust's `Result`, with `?` as bind, and `map_err`, `ok_or`.
use mathlib.Core.Path.{◌≡◌, refl}
use mathlib.Core.Logic.{◌⊎◌, inl, inr}
use mathlib.Core.Option.{Option, none, some}
use mathlib.Core.Bool.{Bool, true, false}
use mathlib.Core.List.{List, [], ◌∷◌, ◌++◌}
use zkas_signer.Prelude.Lists.{All}

pub data Result {ℓ κ} (A : Type ℓ) (E : Type κ) : Type (ℓ ⊔ κ) where
  ok : A → Result A E
  err : E → Result A E

infixl 5 ◌>>=◌
abbrev pub ◌>>=◌ {ℓ κ μ} :
    {A : Type ℓ} {B : Type κ} {E : Type μ} → Result A E → (A → Result B E) → Result B E
err e >>= k = err e
ok x >>= k = k x

-- `r.map_err(f)`
abbrev pub map_err {ℓ κ μ} :
    {A : Type ℓ} {E : Type κ} {F : Type μ} → (E → F) → Result A E → Result A F
map_err f (ok a) = ok a
map_err f (err e) = err (f e)

-- `r.map(f)`
abbrev pub map_ok {ℓ κ μ} :
    {A : Type ℓ} {B : Type κ} {E : Type μ} → (A → B) → Result A E → Result B E
map_ok f (ok a) = ok (f a)
map_ok f (err e) = err e

-- `o.ok_or_else(|| e)`
abbrev pub ok_or {ℓ κ} : {A : Type ℓ} {E : Type κ} → E → Option A → Result A E
ok_or e none = err e
ok_or e (some a) = ok a

abbrev pub is_ok {ℓ κ} : {A : Type ℓ} {E : Type κ} → Result A E → Bool
is_ok (ok a) = true
is_ok (err e) = false

module _ {ℓ κ μ} {A : Type ℓ} {B : Type κ} {E : Type μ} where
  -- A chain that succeeds has a first step that succeeds.
  pub >>=-eq-ok :
      (r : Result A E) (k : A → Result B E) {y : B}
      → (r >>= k) ≡ ok y
      → (x : A) × (r ≡ ok x) × (k x ≡ ok y)
  >>=-eq-ok (err e) k h = cc
  >>=-eq-ok (ok x) k h = (x, refl, h)

pub Result-cases {ℓ κ} :
    {A : Type ℓ} {E : Type κ} (r : Result A E) → ((a : A) × (r ≡ ok a)) ⊎ ((e : E) × (r ≡ err e))
Result-cases (ok a) = inl (a, refl)
Result-cases (err e) = inr (e, refl)

module _ {ℓ κ μ} {A : Type ℓ} {E : Type κ} {F : Type μ} where
  pub map_err-eq-ok : (f : E → F) (r : Result A E) {a : A} → map_err f r ≡ ok a → r ≡ ok a
  map_err-eq-ok f (ok x) h = cc
  map_err-eq-ok f (err e) h = cc

-- `o.unwrap_or(d)`
abbrev pub unwrap_or {ℓ} : {A : Type ℓ} → A → Option A → A
unwrap_or d none = d
unwrap_or d (some a) = a

-- `.map(f).collect::<Result<Vec<_>, E>>()`: the first error ends it.
unfoldable pub collect {ℓ κ μ} :
    {A : Type ℓ} {B : Type κ} {E : Type μ} → (A → Result B E) → List A → Result (List B) E
collect f [] = ok []
collect f (x ∷ xs) = do y ← f x; ys ← collect f xs; ok (y ∷ ys)

module _ {ℓ κ μ ν} {A : Type ℓ} {B : Type κ} {E : Type μ} {R : Type ν} where
  -- The same for a proof that goes on with the steps' results as variables.
  pub >>=-then :
      (r : Result A E) (k : A → Result B E) {y : B}
      → (r >>= k) ≡ ok y
      → ((x : A) → r ≡ ok x → k x ≡ ok y → R)
      → R
  >>=-then (ok a) f h k = k a refl h
  >>=-then (err e) f h k = absurd (cc)

module _ {ℓ κ} {A : Type ℓ} {E : Type κ} where
  pub ok_or-eq-ok : (e : E) (o : Option A) {a : A} → ok_or e o ≡ ok a → o ≡ some a
  ok_or-eq-ok e none h = cc
  ok_or-eq-ok e (some x) h = cc

  pub ok-injective : {a b : A} → ◌≡◌ {A = Result A E} (ok a) (ok b) → a ≡ b
  ok-injective h = cc

module _ {ℓ κ μ ν} {A : Type ℓ} {B : Type κ} {E : Type μ} where
  -- A property of a chain, by the end of its first step.
  pub >>=-by :
      (P : Result B E → Type ν) (r : Result A E) (k : A → Result B E)
      → ((e : E) → r ≡ err e → P (err e))
      → ((a : A) → r ≡ ok a → P (k a))
      → P (r >>= k)
  >>=-by P (ok a) k bad good = good a refl
  >>=-by P (err e) k bad good = bad e refl

module _ {ℓ κ μ} {A : Type ℓ} {B : Type κ} {E : Type μ} where
  pub >>=-err :
      (r : Result A E) (k : A → Result B E) {e : E}
      → (r >>= k) ≡ err e
      → (r ≡ err e) ⊎ ((a : A) × (r ≡ ok a) × (k a ≡ err e))
  >>=-err (ok a) k h = inr (a, refl, h)
  >>=-err (err e) k h = inl (cc)

module _ {ℓ κ μ} {A : Type ℓ} {B : Type κ} {E : Type μ} where
  -- The first element that fails is what a `collect` fails with.
  pub collect-eq-err :
      (f : A → Result B E) (xs : List A) (e : E)
      → collect f xs ≡ err e
      → (good : List A) × (x : A) × (rest : List A) × (xs ≡ good ++ x ∷ rest)
        × All (λ y. (b : B) × (f y ≡ ok b)) good
        × (f x ≡ err e)
  unfolding collect
  collect-eq-err f [] e h = absurd (cc)
  collect-eq-err f (x ∷ xs) e h = elim (>>=-err (f x) _ h) [
    | inl fx ↦ ([], x, xs, refl, tt, fx)
    | inr (y, fx, h1) ↦ elim (>>=-err (collect f xs) _ h1) [
      | inl hr ↦
          let (good, z, rest, parts, fine, failed) = collect-eq-err f xs e hr in
          (x ∷ good, z, rest, rw parts refl, ((y, fx), fine), failed)
      | inr (ys, hr, h2) ↦ absurd (cc)
    ]
  ]

pub map_err-eq-err {ℓ κ μ} :
    {A : Type ℓ} {E : Type κ} {F : Type μ} (f : E → F) (r : Result A E) {e : F}
    → map_err f r ≡ err e
    → (m : E) × (r ≡ err m) × (e ≡ f m)
map_err-eq-err f (ok a) h = absurd (cc)
map_err-eq-err f (err m) h = (m, refl, cc)

pub ok_or-eq-err {ℓ κ} :
    {A : Type ℓ} {E : Type κ} (e : E) (o : Option A) {e' : E}
    → ok_or e o ≡ err e'
    → (o ≡ none) × (e' ≡ e)
ok_or-eq-err e none h = (refl, cc)
ok_or-eq-err e (some a) h = absurd (cc)
