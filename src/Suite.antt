-- ===== src/Suite.antt =====
-- The unit tests of the repository, as functions of the crates: what their inputs are, and whether
-- every assertion holds.
pub mod Events
pub mod Money
pub mod Forged
pub mod Phone
pub mod Authorization
pub mod Objects
pub mod Chat
pub mod Keys
pub mod Refused
pub mod Work
pub mod Imported
pub mod Vectors
pub mod Legacy
pub mod Accounts
pub mod Tampered
pub mod Mnemonic
use zkas_signer.Prelude.{
  Bool, true, false, ◌&&◌, List, [], ◌∷◌, ◌==◌, Option, none, some, Result, ok, err, if◌then◌else◌,
  codes, not, is_ok,
}
use mathlib.Core.List.{reverse}
use zkas_signer.Text.{Str}

-- `PHRASE` of the tests of events.
abbrev pub phrase_text : Str
phrase_text = codes "leader monkey parrot ring guide accident before fence cannon height naive bean"

-- `r.unwrap()`, or `r.expect(…)`: a panic fails the test.
abbrev pub unwrap {ℓ κ} : {A : Type ℓ} {E : Type κ} → Result A E → (A → Bool) → Bool
unwrap (err e) k = false
unwrap (ok a) k = k a

-- The same for code that loops: a loop that still runs is no pass.
abbrev pub finished {ℓ κ} : {A : Type ℓ} {E : Type κ} → Option (Result A E) → (A → Bool) → Bool
finished none k = false
finished (some r) k = unwrap r k

-- `r.is_err()`, a loop that still runs being no pass.
abbrev pub refused {ℓ κ} : {A : Type ℓ} {E : Type κ} → Option (Result A E) → Bool
refused none = false
refused (some r) = not (is_ok r)

-- `s.starts_with(p)`, `s.ends_with(p)`, `s.contains(p)`
unfoldable pub starts_with : Str → Str → Bool
starts_with [] s = true
starts_with (c ∷ p) [] = false
starts_with (c ∷ p) (d ∷ s) = c == d && starts_with p s

unfoldable pub contains : Str → Str → Bool
unfolding starts_with
contains p [] = starts_with p []
contains p (d ∷ s) = if starts_with p (d ∷ s) then true else contains p s

unfoldable pub ends_with : Str → Str → Bool
ends_with p s = starts_with (reverse p) (reverse s)
