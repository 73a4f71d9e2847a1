-- ===== src/Witness/Toys/ChainToy.antt =====
-- Addresses as shifted characters, and signatures that are a checksum.
use zkas_signer.Prelude.{
  ℕ, zero, suc, ◌+◌, ◌-◌, ◌%◌, ◌≡◌, refl, Bool, true, false, ◌==s◌, ==s_refl, [], ◌∷◌, ◌++◌, map,
  Result, ok, err, All, length, replicate, arith, ltb, if◌then◌else◌, Option, none, some, codes,
}
use zkas_signer.Text.{Str, Bytes, IsByte, is_whitespace}
use zkas_signer.Text.Trim.{HasNoSpace}
use zkas_signer.Crates.Chain.{Chain, SignedMessage, AddressLaws, MessageLaws}

pub data Net : Type 0 where
  main test dev sim : Net

abbrev mark : Net → ℕ
mark main = 0
mark test = 1
mark dev = 2
mark sim = 3

abbrev net_of : ℕ → Net
net_of zero = main
net_of (suc zero) = test
net_of (suc (suc zero)) = dev
net_of _ = sim

abbrev pub total : Bytes → ℕ
total [] = 0
total (b ∷ bs) = b + total bs

abbrev checksum : Bytes → Bytes → Bytes
checksum tag message = replicate 64 (total (tag ++ message) % 256)

abbrev pub raise : ℕ → ℕ
raise b = b + 0x4000

abbrev pub lower : ℕ → ℕ
lower c = c - 0x4000

abbrev read_address : Str → Result (Net × Bytes) Str
read_address [] = err (codes "missing prefix")
read_address (p ∷ s) = ok (net_of (lower p), map lower s)

abbrev pub toy_chain : Chain
toy_chain = record {
  Prefix = Net;
  mainnet = main;
  testnet = test;
  devnet = dev;
  simnet = sim;
  prefix_to_string = λ p. raise (mark p) ∷ [];
  Address = Net × Bytes;
  address_new = λ p raw. (p, raw);
  address_to_string = λ a. map raise (mark a.0 ∷ a.1);
  address_try_from = read_address;
  address_prefix = λ a. a.0;
  orchard_recipient_bytes = λ a. some a.1;
  address_bytes_from_seed = λ seed. if ltb (total seed) 1 then none else some (7 ∷ seed);
  fvk_bytes_from_seed = λ seed. some (replicate 96 1);
  Rng = Unit {0};
  sign_message = λ seed tag message rng.
      if ltb (total seed) 1
      then none
      else some (record { address = 7 ∷ seed; fvk = replicate 96 1; sig = checksum tag message });
  verify_message = λ raw tag message fvk sig. sig ==s checksum tag message;
  sign_spend_auth_from_seed =
      λ seed alpha sighash. if ltb (total alpha) 1 then none else some (seed ++ sighash);
}

pub raise-HasNoSpace : (s : Bytes) → HasNoSpace (map raise s)
unfolding is_whitespace
raise-HasNoSpace [] = tt
raise-HasNoSpace (b ∷ s) = (ground arith, raise-HasNoSpace s)

pub lower-raise : (s : Bytes) → map lower (map raise s) ≡ s
lower-raise [] = refl
lower-raise (b ∷ s) = ground (arith, lower-raise s)

read_lem : (p : Net) (raw : Bytes) → read_address (map raise (mark p ∷ raw)) ≡ ok (p, raw)
read_lem main raw = rw (lower-raise raw) refl
read_lem test raw = rw (lower-raise raw) refl
read_lem dev raw = rw (lower-raise raw) refl
read_lem sim raw = rw (lower-raise raw) refl

pub toy_chain-AddressLaws : AddressLaws toy_chain
toy_chain-AddressLaws = record {
  address_to_string-HasNoSpace = λ a. raise-HasNoSpace (mark a.0 ∷ a.1);
  address_try_from-to_string = read_lem;
  address_prefix-new = λ p raw. refl;
  orchard_recipient_bytes-new = λ p raw. refl;
}

pub filled : (n k : ℕ) → All IsByte (replicate n (k % 256))
filled zero k = tt
filled (suc n) k = (ground arith, filled n k)

pub length-replicate : (n k : ℕ) → length (replicate n k) ≡ n
length-replicate zero k = refl
length-replicate (suc n) k = omega (arith, length-replicate n k)

made :
    (b : Bool) (m s : SignedMessage)
    → ◌≡◌ {A = Option SignedMessage} (if b then none else some m) (some s)
    → (b ≡ false) × (m ≡ s)
made true m s h = ground arith
made false m s h = (refl, cc)

toy_signed : Bytes → Bytes → Bytes → SignedMessage
toy_signed seed tag message = record {
  address = 7 ∷ seed;
  fvk = replicate 96 1;
  sig = checksum tag message;
}

pub toy_chain-MessageLaws : MessageLaws toy_chain
unfolding toy_signed
toy_chain-MessageLaws = record {
  parts = λ seed tag message rng s h.
      let (e, same) = made (ltb (total seed) 1) (toy_signed seed tag message) s h in
      rw (← same) (refl, refl, filled 96 1, filled 64 (total (tag ++ message)));
  owner = λ seed tag message rng s h.
      let (e, same) = made (ltb (total seed) 1) (toy_signed seed tag message) s h in
      rw (← same, e) refl;
  accepted = λ seed tag message rng s h.
      let (e, same) = made (ltb (total seed) 1) (toy_signed seed tag message) s h in
      rw (← same) (==s_refl (checksum tag message));
}
