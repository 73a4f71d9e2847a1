-- ===== src/Witness/Toys/BechToy.antt =====
-- Keys as shifted characters behind a mark for the prefix and one for the variant.
use zkas_signer.Prelude.{
  ℕ, ◌≡◌, refl, List, ◌∷◌, map, Result, ok, err, ◌==s◌, ◌==◌, if◌then◌else◌, codes, ◌⊎◌, inl, inr,
}
use zkas_signer.Text.{Str, Bytes, is_whitespace}
use zkas_signer.Text.Trim.{HasNoSpace}
use zkas_signer.Crates.Bech.{Bech, BechLaws, Variant, bech32, bech32m}
use zkas_signer.Witness.Toys.ChainToy.{raise, lower, raise-HasNoSpace, lower-raise}

abbrev mark : Variant → ℕ
mark bech32 = 0x4000
mark bech32m = 0x4001

abbrev toy_encode : Str → List ℕ → Variant → Result Str Str
toy_encode hrp b v = ok ((if hrp ==s codes "npub" then 0x4000 else 0x4001) ∷ mark v ∷ map raise b)

abbrev toy_decode : Str → Result (Str × List ℕ × Variant) Str
toy_decode (p ∷ m ∷ s) = ok (
  if p == 0x4000 then codes "npub" else codes "nsec",
  map lower s,
  if m == 0x4000 then bech32 else bech32m,
)
toy_decode _ = err (codes "too short")

abbrev pub toy_bech : Bech
toy_bech = record {
  encode = toy_encode;
  decode = toy_decode;
  to_base32 = λ b. b;
  from_base32 = λ b. ok b;
}

round :
    (hrp : Str) (b : Bytes) (v : Variant)
    → (hrp ≡ codes "npub") ⊎ (hrp ≡ codes "nsec")
    → (s : Str) × (toy_encode hrp b v ≡ ok s) × HasNoSpace s × (toy_decode s ≡ ok (hrp, b, v))
unfolding ◌==s◌ is_whitespace
round hrp b bech32 (inl h) =
    (_, refl, rw h (refl, (refl, raise-HasNoSpace b)), rw (h, lower-raise b) refl)
round hrp b bech32m (inl h) =
    (_, refl, rw h (refl, (refl, raise-HasNoSpace b)), rw (h, lower-raise b) refl)
round hrp b bech32 (inr h) =
    (_, refl, rw h (refl, (refl, raise-HasNoSpace b)), rw (h, lower-raise b) refl)
round hrp b bech32m (inr h) =
    (_, refl, rw h (refl, (refl, raise-HasNoSpace b)), rw (h, lower-raise b) refl)

pub toy_bech-BechLaws : BechLaws toy_bech
toy_bech-BechLaws = record {
  from_base32-to_base32 = λ b h. refl;
  decode-encode = λ hrp b v h known. round hrp b v known;
}
