-- ===== src/Suite/Vectors.antt =====
-- chat-identity/src/lib.rs and chat-identity/src/event.rs: their tests of the official vectors of
-- NIP-06, the keys of two phrases and the texts of these keys.
use zkas_signer.Prelude.{
  ◌&&◌, ◌≡◌, refl, Bool, true, List, [], ◌∷◌, codes, ◌==s◌, ==s_refl, ==s_sound, Result, ok, err,
  all, arith,
}
use zkas_signer.Text.{Str}
use zkas_signer.Crates.Hex.{Hex, HexLaws}
use zkas_signer.Crates.Phrase.{Phrase}
use zkas_signer.Crates.Curve.{Curve, KeyLaws}
use zkas_signer.Crates.Bech.{Bech, BechLaws}
use zkas_signer.Chat.Error.{ChatError}
use zkas_signer.Chat.Identity.{ChatIdentity, chat_identity}
use zkas_signer.Chat.Keys.{npub_to_hex, nsec_to_hex, hex_to_npub, pubkey_for_key}
use zkas_signer.Event.Sign.Owner.{chat_identity-encode_identity}
use zkas_signer.Chat.Keys.Nip19.{encode_identity_lem}
use zkas_signer.Suite.{unwrap}

record Vector : Type 0 where
  words : Str
  sk : Str
  nsec : Str
  pk : Str
  npub : Str

abbrev first_vector : Vector
first_vector = record {
  words = codes "leader monkey parrot ring guide accident before fence cannon height naive bean";
  sk = codes "7f7ff03d123792d6ac594bfa67bf6d0c0ab55b6b1fdb6249303fe861f1ccba9a";
  nsec = codes "nsec10allq0gjx7fddtzef0ax00mdps9t2kmtrldkyjfs8l5xruwvh2dq0lhhkp";
  pk = codes "17162c921dc4d2518f9a101db33695df1afb56ab82f5ff3e5da6eec3ca5cd917";
  npub = codes "npub1zutzeysacnf9rru6zqwmxd54mud0k44tst6l70ja5mhv8jjumytsd2x7nu";
}

abbrev cases : List Vector
cases =
    first_vector
    ∷ record {
      words =
          codes
            "what bleak badge arrange retreat wolf trade produce cricket blur garlic valid proud rude strong choose busy staff weather area salt hollow arm fade";
      sk = codes "c15d739894c81a2fcfd3a2df85a0d2c0dbc47a280d092799f144d73d7ae78add";
      nsec = codes "nsec1c9wh8xy5eqdzln7n5t0ctgxjcrdug73gp5yj0x03gntn67h83twssdfhel";
      pk = codes "d41b22899549e1f3d335a31002cfd382174006e166d3e658e3a5eecdb6463573";
      npub = codes "npub16sdj9zv4f8sl85e45vgq9n7nsgt5qphpvmf7vk8r5hhvmdjxx4es8rq74h";
    }
    ∷ []

module _ (hex : Hex) (phrase : Phrase) (curve : Curve) (bech : Bech) where
  -- `assert_eq!` of the four texts of an identity, and that it is one of NIP-06.
  abbrev agrees : Vector → ChatIdentity → Bool
  agrees v id =
      (id.privkey_hex ==s v.sk)
      && (id.pubkey_hex ==s v.pk)
      && (id.nsec ==s v.nsec)
      && (id.npub ==s v.npub)
      && id.nip06

  unfoldable nip06_official_vectors : Bool
  nip06_official_vectors =
      all (λ (v : Vector). unwrap (chat_identity hex phrase curve bech v.words 0) (agrees v)) cases

  unfoldable nip19_round_trips_against_the_official_vector : Bool
  nip19_round_trips_against_the_official_vector =
      unwrap (npub_to_hex hex bech first_vector.npub) (λ s. s ==s first_vector.pk)
      && unwrap (hex_to_npub hex bech first_vector.pk) (λ s. s ==s first_vector.npub)
      && unwrap (nsec_to_hex hex curve bech first_vector.nsec) (λ s. s ==s first_vector.sk)
      && unwrap (pubkey_for_key hex curve first_vector.sk) (λ s. s ==s first_vector.pk)

  found_in :
      (r : Result ChatIdentity ChatError) (k : ChatIdentity → Bool)
      → unwrap r k ≡ true
      → (i : ChatIdentity) × (r ≡ ok i) × (k i ≡ true)
  found_in (ok i) k h = (i, refl, h)
  found_in (err e) k h = absurd (cc)

  agrees-parts :
      (v : Vector) (i : ChatIdentity)
      → agrees v i ≡ true
      → (i.privkey_hex ≡ v.sk) × (i.pubkey_hex ≡ v.pk) × (i.nsec ≡ v.nsec) × (i.npub ≡ v.npub)
  agrees-parts v i h = (
    ==s_sound _ _ (ground arith),
    ==s_sound _ _ (ground arith),
    ==s_sound _ _ (ground arith),
    ==s_sound _ _ (ground arith),
  )

  first_of : (b c : Bool) → (b && c) ≡ true → b ≡ true
  first_of b c h = ground arith

  -- Where the vectors of NIP-06 come out, the test of the texts of the first one passes, under the
  -- laws of hex, of keys and of bech32.
  nip19_round_trips_against_the_official_vector_lem :
      (laws : HexLaws hex)
      → (klaws : KeyLaws curve) → (blaws : BechLaws bech) → nip06_official_vectors ≡ true
      → nip19_round_trips_against_the_official_vector ≡ true
  unfolding nip06_official_vectors nip19_round_trips_against_the_official_vector
  nip19_round_trips_against_the_official_vector_lem laws klaws blaws h =
      let (i, found, same) =
        found_in (chat_identity hex phrase curve bech first_vector.words 0) (agrees first_vector)
          (first_of _ _ h) in
      let (sk_is, pk_is, nsec_is, npub_is) = agrees-parts first_vector i same in
      let (sk, nip06, encoded) = chat_identity-encode_identity hex phrase curve bech _ 0 i found in
      let (e1, e2, e3, e4) =
        encode_identity_lem hex curve bech laws klaws blaws sk nip06 i encoded in
      rw
        (
          ← sk_is,
          ← pk_is,
          ← nsec_is,
          ← npub_is,
          e1,
          e2,
          e3,
          e4,
          ==s_refl i.privkey_hex,
          ==s_refl i.pubkey_hex,
          ==s_refl i.npub,
        )
        refl
