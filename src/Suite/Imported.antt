-- ===== src/Suite/Imported.antt =====
-- chat-identity/src/event.rs: its tests that a bad key is refused, and that mining gives up.
use zkas_signer.Prelude.{
  ℕ, ◌+◌, ◌*◌, ◌-◌, ◌^◌, ◌≤◌, ◌<◌, ◌≡◌, ◌≢◌, refl, Bool, true, false, not, ◌&&◌, List, [],
  replicate, codes, Option, none, some, Result, ok, err, is_ok,
}
use zkas_signer.Text.{Str, Bytes, join, trim, is_whitespace}
use zkas_signer.Crates.Hex.{Hex}
use zkas_signer.Crates.Phrase.{Phrase}
use zkas_signer.Crates.Curve.{Curve}
use zkas_signer.Crates.Bech.{Bech}
use zkas_signer.Chat.Error.{ChatError, not_mined, key_not_hex, invalid_key}
use zkas_signer.Chat.Identity.{ChatIdentity, chat_identity}
use zkas_signer.Chat.Keys.{pubkey_for_key}
use zkas_signer.Event.Mine.{MineError, gave_up, mine}
use zkas_signer.Event.Mine.Outcome.{mine-late, mine-ends}
use zkas_signer.Event.Sign.{
  SignedEvent, Draft, signing_key, tags_and_id, sign_event_with_key, sign_event,
}
use zkas_signer.Suite.{phrase_text, refused}

-- `"00".repeat(32)`
abbrev zeros_text : Str
zeros_text = join [] (replicate 32 (codes "00"))

abbrev short : Draft
short = record {
  kind = 1;
  tags = [];
  content = codes "x";
  created_at = 1;
  difficulty = 0;
  max_ms = 100;
}

abbrev hard : Draft
hard = record {
  kind = 1;
  tags = [];
  content = codes "x";
  created_at = 1700000000;
  difficulty = 40;
  max_ms = 300;
}

-- `r.unwrap_err().contains("gave up")`
abbrev says_gave_up : Option (Result SignedEvent ChatError) → Bool
says_gave_up (some (err (not_mined (gave_up max_ms difficulty)))) = true
says_gave_up _ = false

module _ (hex : Hex) (curve : Curve) (sha256 : Bytes → Bytes) (fuel : ℕ) (clock : ℕ → ℕ) where
  unfoldable imported_key_rejects_garbage : Bool
  imported_key_rejects_garbage =
      refused (sign_event_with_key sha256 fuel clock hex curve (codes "zz") short)
      && refused (sign_event_with_key sha256 fuel clock hex curve zeros_text short)
      && not (is_ok (pubkey_for_key hex curve []))

  -- Nothing is signed without a key.
  no_key :
      (k : Str) (e : ChatError)
      → signing_key hex curve k ≡ err e
      → sign_event_with_key sha256 fuel clock hex curve k short ≡ some (err e)
  unfolding sign_event_with_key
  no_key k e h = rw (h, sign_event_with_key) refl

  -- The test passes where `zz` is not hex, the zeros are the hex of zero, and neither zero nor no
  -- bytes at all are a secret key.
  imported_key_rejects_garbage_lem :
      (m z e : Str)
      → hex.decode (codes "zz") ≡ err m
      → hex.decode zeros_text ≡ ok (replicate 32 0)
      → curve.signing_from_bytes (replicate 32 0) ≡ err z
      → hex.decode [] ≡ ok []
      → curve.signing_from_bytes [] ≡ err e
      → imported_key_rejects_garbage ≡ true
  unfolding imported_key_rejects_garbage signing_key pubkey_for_key trim is_whitespace join
  imported_key_rejects_garbage_lem m z e h1 h2 h3 h4 h5 =
      let no_hex : signing_key hex curve (codes "zz") ≡ err (key_not_hex m) = rw h1 refl in
      let zero_ : signing_key hex curve zeros_text ≡ err (invalid_key z) = rw (h2, h3) refl in
      let none_ : pubkey_for_key hex curve [] ≡ err (invalid_key e) = rw (h4, h5) refl in
      rw
        (no_key (codes "zz") (key_not_hex m) no_hex, no_key zeros_text (invalid_key z) zero_, none_)
        refl

  module _ (phrase : Phrase) (bech : Bech) where
    unfoldable pow_gives_up : Bool
    pow_gives_up =
        says_gave_up (sign_event sha256 fuel clock hex curve phrase bech phrase_text 0 hard)

    -- The public key that an event signed with a key carries.
    abbrev pubkey_of : curve.SigningKey → Str
    pubkey_of sk = hex.encode (curve.verifying_to_bytes (curve.verifying_key sk))

    -- What mining for the event gives.
    abbrev mines : curve.SigningKey → Option (Result (List (List Str) × Bytes) MineError)
    mines sk = mine sha256 fuel (pubkey_of sk) 1700000000 1 [] (codes "x") 40 300 clock

    sign_event-gave_up :
        (i : ChatIdentity) (sk : curve.SigningKey)
        → chat_identity hex phrase curve bech phrase_text 0 ≡ ok i
        → signing_key hex curve i.privkey_hex ≡ ok sk
        → mines sk ≡ some (err (gave_up 300 40))
        → sign_event sha256 fuel clock hex curve phrase bech phrase_text 0 hard
          ≡ some (err (not_mined (gave_up 300 40)))
    unfolding sign_event sign_event_with_key tags_and_id
    sign_event-gave_up i sk found read ended =
        rw (found, read, ended, sign_event, sign_event_with_key, tags_and_id) refl

    gives_up :
        (i : ChatIdentity) (sk : curve.SigningKey)
        → chat_identity hex phrase curve bech phrase_text 0 ≡ ok i
        → signing_key hex curve i.privkey_hex ≡ ok sk
        → mines sk ≡ some (err (gave_up 300 40))
        → pow_gives_up ≡ true
    unfolding pow_gives_up
    gives_up i sk found read ended = rw (sign_event-gave_up i sk found read ended) refl

    -- The test passes, where the key of the phrase is a signing key, if no id with 40 zero bits
    -- is met and the clock reads more than 300 ms after its first reading before the fuel, of at
    -- most 2 ^ 64, is used up.
    pow_gives_up_lem :
        (i : ChatIdentity) (sk : curve.SigningKey) (k : ℕ)
        → chat_identity hex phrase curve bech phrase_text 0 ≡ ok i
        → signing_key hex curve i.privkey_hex ≡ ok sk
        → ((t : List (List Str) × Bytes) → mines sk ≢ some (ok t))
        → 300 < clock (k + 1) - clock 0
        → 8192 * k < fuel
        → fuel ≤ 2 ^ 64
        → pow_gives_up ≡ true
    pow_gives_up_lem i sk k found read unmet passed enough bound =
        gives_up i sk found read (ended (mines sk) refl)
      where
        ended :
            (o : Option (Result (List (List Str) × Bytes) MineError))
            → mines sk ≡ o
            → mines sk ≡ some (err (gave_up 300 40))
        ended none h = absurd (
            mine-ends sha256 fuel (pubkey_of sk) 1700000000 1 [] (codes "x") 40 300 clock k passed
              enough bound h)
        ended (some (ok t)) h = absurd (unmet t h)
        ended (some (err e)) h =
            let (same, late) =
              mine-late sha256 fuel (pubkey_of sk) 1700000000 1 [] (codes "x") 40 300 clock e bound
                h in
            rw h (rw same refl)
