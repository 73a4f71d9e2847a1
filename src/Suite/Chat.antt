-- ===== src/Suite/Chat.antt =====
-- chat-identity/src/lib.rs: its test that the spelling of a phrase does not change the identity.
use zkas_signer.Prelude.{◌≡◌, refl, Bool, true, codes, ◌==s◌, ==s_refl, ok, arith}
use zkas_signer.Text.{Str, split_whitespace, lower_char}
use zkas_signer.Crates.Hex.{Hex}
use zkas_signer.Crates.Phrase.{Phrase, PhraseLaws}
use zkas_signer.Crates.Curve.{Curve}
use zkas_signer.Crates.Bech.{Bech}
use zkas_signer.Chat.Identity.{ChatIdentity, chat_identity}
use zkas_signer.Chat.Identity.Accounts.{chat_identity-same_words}
use zkas_signer.Suite.{unwrap}

abbrev canonical_phrase : Str
canonical_phrase =
    codes "leader monkey parrot ring guide accident before fence cannon height naive bean"

abbrev messy_phrase : Str
messy_phrase =
    codes "  Leader   MONKEY parrot\nring guide accident before fence cannon height naive BEAN "

module _ (hex : Hex) (phrase : Phrase) (curve : Curve) (bech : Bech) where
  unfoldable phrase_normalisation_is_stable : Bool
  phrase_normalisation_is_stable =
      unwrap (chat_identity hex phrase curve bech canonical_phrase 0)
        λ a. unwrap (chat_identity hex phrase curve bech messy_phrase 0) λ b. a.npub ==s b.npub

  -- The test passes, under the laws of phrases, if the phrase has an identity.
  phrase_normalisation_is_stable_lem :
      (laws : PhraseLaws phrase)
      → (i : ChatIdentity) → chat_identity hex phrase curve bech canonical_phrase 0 ≡ ok i
      → phrase_normalisation_is_stable ≡ true
  unfolding phrase_normalisation_is_stable split_whitespace lower_char
  phrase_normalisation_is_stable_lem laws i e =
      let same =
        chat_identity-same_words hex phrase curve bech laws canonical_phrase messy_phrase 0
          (ground arith) (ground arith) (omega arith) refl in
      rw (← same, e) (==s_refl i.npub)
