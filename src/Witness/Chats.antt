-- ===== src/Witness/Chats.antt =====
-- Chat identities at concrete inputs.
use zkas_signer.Prelude.{
  ℕ, [], ◌+◌, ◌^◌, ◌↔◌, ◌≡◌, true, refl, ◌∷◌, ok, err, replicate, codes, arith, ◌==s◌,
}
use zkas_signer.Text.{trim, Str, split_whitespace, lower_char}
use zkas_signer.Chat.Identity.{
  ChatIdentity, encode_identity, chat_identity, or_hardened, to_be_bytes,
}
use zkas_signer.Chat.Identity.Path.{hardened_bytes, path_identity}
use zkas_signer.Chat.Identity.Accounts.{chat_identity-or_hardened, chat_identity-same_words}
use zkas_signer.Chat.Error.{wrong_prefix}
use zkas_signer.Chat.Keys.Readings.{Reading, decode_nip19-Reading}
use zkas_signer.Chat.Keys.{decode_nip19, npub_to_hex, hex_to_npub, nsec_to_hex, pubkey_for_key}
use zkas_signer.Chat.Keys.Nip19.{encode_identity_lem}
use zkas_signer.Witness.Toys.{
  toy_hex, toy_hex-HexLaws, toy_phrase, toy_phrase-PhraseLaws, toy_curve, toy_curve-KeyLaws,
  toy_bech, toy_bech-BechLaws, raise,
}

abbrev identity : ChatIdentity
identity = record {
  privkey_hex = toy_hex.encode (replicate 32 9);
  pubkey_hex = toy_hex.encode (replicate 32 1);
  nsec = 0x4001 ∷ 0x4000 ∷ replicate 32 (raise 9);
  npub = 0x4000 ∷ 0x4000 ∷ replicate 32 (raise 1);
  nip06 = true;
}

encode_identity_lem_example :
    (npub_to_hex toy_hex toy_bech identity.npub ≡ ok identity.pubkey_hex)
    × (hex_to_npub toy_hex toy_bech identity.pubkey_hex ≡ ok identity.npub)
    × (nsec_to_hex toy_hex toy_curve toy_bech identity.nsec ≡ ok identity.privkey_hex)
    × (pubkey_for_key toy_hex toy_curve identity.privkey_hex ≡ ok identity.pubkey_hex)
unfolding encode_identity ◌==s◌
encode_identity_lem_example =
    encode_identity_lem toy_hex toy_curve toy_bech toy_hex-HexLaws toy_curve-KeyLaws
      toy_bech-BechLaws 9 true identity refl

chat_identity-or_hardened_example :
    ((secret : Str)
      → (chat_identity toy_hex toy_phrase toy_curve toy_bech secret (3 + 2 ^ 31)
          ≡ path_identity toy_hex toy_phrase toy_curve toy_bech secret 3)
        × (chat_identity toy_hex toy_phrase toy_curve toy_bech secret (3 + 2 ^ 31)
            ≡ chat_identity toy_hex toy_phrase toy_curve toy_bech secret 3))
    × (to_be_bytes (or_hardened (3 + 2 ^ 31)) ≡ 128 ∷ 0 ∷ 0 ∷ 3 ∷ [])
    × ((hardened_bytes 3 ≡ hardened_bytes 4) ↔ (◌≡◌ {A = ℕ} 3 4))
chat_identity-or_hardened_example =
    chat_identity-or_hardened toy_hex toy_phrase toy_curve toy_bech (3 + 2 ^ 31) 4 (omega arith)
      (omega arith)

chat_identity-same_words_example :
    chat_identity toy_hex toy_phrase toy_curve toy_bech (codes "  Legal\n  WINNER ") 2
    ≡ chat_identity toy_hex toy_phrase toy_curve toy_bech (codes "legal winner") 2
unfolding split_whitespace lower_char
chat_identity-same_words_example =
    chat_identity-same_words toy_hex toy_phrase toy_curve toy_bech toy_phrase-PhraseLaws
      (codes "  Legal\n  WINNER ") (codes "legal winner") 2 (ground arith) (ground arith)
      (omega arith) refl

-- A secret key is not read as a public key.
decode_nip19-Reading_example :
    Reading toy_bech (codes "npub") identity.nsec (err (wrong_prefix (codes "npub") (codes "nsec")))
unfolding decode_nip19 ◌==s◌ trim
decode_nip19-Reading_example = decode_nip19-Reading toy_bech (codes "npub") identity.nsec
