-- ===== src/Lib.antt =====
-- A model of the ZKas signer: the Rust crates that hold a wallet's key and act on it.
--
-- The program's parts, by path from the repository's root:
--
--   src/lib.rs              the money signer. It turns a secret (a recovery phrase or 64 hex digits)
--                           into a key, derives addresses and accounts, signs messages, and authorizes
--                           a payment that a daemon has prepared.
--   mobile/                 the phone's signer: an object that holds a secret and calls src/lib.rs.
--   chat-identity/          chat keys and Nostr events: `src/lib.rs` derives a key from the secret that
--                           the money signer also takes, `src/event.rs` serializes an event, computes
--                           its id, mines its proof of work, signs and verifies it.
--   walletd-mobile/         the wallet engine in the app's process: one server behind a lock, its port,
--                           and a ring of log lines.
--
-- Which file models which part:
--
--   Prelude                 tests into Bool, lists, results, signed integers over the native ℕ
--   Text                    Rust's `str`: texts as lists of characters, UTF-8, trimming, words,
--                           decimal digits
--   Crates                  the code outside the repository, as records of functions: hex (Hex), bip39
--                           with zip32 and orchard (Phrase), the shielded core and its addresses
--                           (Chain), the payment SDK (Payment), k256 with HMAC (Curve), bech32 (Bech),
--                           serde_json (Json). What is assumed of them is stated in the records whose
--                           names end in `Laws`; each has an instance in Witness/Toys
--   Signer/Error            the error texts of src/lib.rs, one constructor for each format
--   Signer/Secret           prefix_from, resolve_secret, secret_from_phrase, account_secret,
--                           is_valid_mnemonic, parse_seed, parse32, parse43; Secret/Resolution: the ways
--                           that the reading of a secret ends
--   Signer/Wallet           new_wallet, new_wallet_mnemonic, account_address, account_seed_hex,
--                           address_from_seed, fvk_hex
--   Signer/Message          sign, verify, sign_spend_auth; Message/SpendAuth: the ways that a spend
--                           authorization ends
--   Signer/Payment          verify_and_sign_payment; Payment/Endings: the ways that a call of it ends, as
--                           data types; Payment/Disclosed: what the SDK signs, beside the
--                           daemon's texts
--   Signer/Accounts         two texts as one secret for every operation of src/lib.rs that takes one
--   Signer/Networks         the names of a network in the operations of src/lib.rs
--   Mobile                  the object `Signer` and the free functions of mobile/src/lib.rs
--   Chat/Error              the error texts of chat-identity/
--   Chat/Identity           chat_identity, phrase_seed, legacy_seed, derive_nip06, master, ckd_priv,
--                           split, encode_identity; Identity/Path: the path of NIP-06 written out as
--                           BIP-32 has it, with path_identity, the identity at its end
--   Chat/Keys               decode_nip19, npub_to_hex, nsec_to_hex, hex_to_npub, pubkey_for_key
--   Event/Canonical         escape, serialize_tags, canonical
--   Event/Id                event_id
--   Event/Difficulty        leading_zero_bits
--   Event/Clock             now_ms, outside the browser
--   Event/Mine              mine
--   Event/Sign              sign_event_with_key, sign_event, to_json, sign_chat_event and its variant
--                           with a key; Sign/Altered: an event altered under its id
--   Event/Verify            verify_event_json, verify_chat_event, event_difficulty; Verify/Errors: the
--                           ways that the verification of a text ends, as data types
--   Walletd/Log             RingLogger, install_logger, logs, set_debug_logs
--   Walletd/Config          the configuration and the resource limits that `start` passes on
--   Walletd/Engine          engine_lock, start, stop, port, release_memory, set_memory_budget_mb, the
--                           panic hook; Engine/Refines: a specification of the engine as a switch;
--                           Engine/Trace: what a run leaves outside the process; Engine/Reported: a
--                           panic in the log
--   Suite                   unit tests of the repository, as functions of the crates that say whether
--                           every assertion holds; a panic is no pass
--   Witness                 toy crates, and each property at a concrete input
--
-- How the code corresponds to the definitions. A fallible function returns a `Result` whose error is a
-- constructor of the model's own; `?` is the bind of a do block. Text is a list of Unicode scalar
-- values, and `len`, slices and `as_bytes` are those of its UTF-8 form. An `u64` or `u32` is a natural
-- number, and a definition that could leave the range of its type writes the wrap-around out. Random
-- bytes, signature nonces and the clock are inputs: a list of outcomes of `getrandom`, a value of the
-- scheme's own type, a function from the number of the reading to its value.
--
-- The engine's statics are one state; each call of the app maps it to the next. What reaches the world
-- outside (a server spawned, a shutdown sent, a runtime torn down) is a list of effects in the state,
-- the newest first, and what the system answers is an argument. The lock makes the calls one at a time,
-- so a run is a sequence of them, with the log lines and the panics of the engine's threads between.
--
-- Bounds and fuel. `new_wallet` loops until a seed is a valid key: the model runs over a list of draws,
-- and `none` is a list that is used up. `mine` runs on fuel, one unit for each nonce; `none` is a loop
-- that still grinds. The clock is read at every nonce that is a multiple of 8192, so fuel past the
-- first such reading that is late is enough. A nonce has at most 20 digits; more would be a panic.
--
-- What is not modelled: what the wallet daemon's crate does when it serves or releases memory, the
-- zeroizing of memory, the browser's clock, the generated bindings for the browser, Swift and Kotlin,
-- the paper wallet's page and the build files. Of the unit tests, those of fixed vectors of the
-- signature scheme, those of events of the network, those that ask nothing but that the cryptography
-- keeps two keys apart, one of the spelling of a phrase, and the benchmark. The cryptography, the
-- phrase list and the JSON parser are the crates' and stand as parameters.
pub mod Prelude
pub mod Text
pub mod Crates
pub mod Signer
pub mod Mobile
pub mod Chat
pub mod Walletd
pub mod Event
pub mod Suite
mod Witness
