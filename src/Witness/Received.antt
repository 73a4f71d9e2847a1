-- ===== src/Witness/Received.antt =====
-- Events that are received incomplete.
use zkas_signer.Prelude.{List, [], ◌∷◌, err, replicate, codes, ◌==s◌}
use zkas_signer.Text.{Str, Bytes}
use zkas_signer.Crates.Json.{Json, Member, text, number}
use zkas_signer.Chat.Error.{missing_kind}
use zkas_signer.Event.Verify.{verify_event_json, get_str, get_u64}
use zkas_signer.Event.Verify.Errors.{Verdict, verify_event_json-Verdict}
use zkas_signer.Witness.Toys.{toy_hex, toy_curve, toy_json_of}

abbrev sha : Bytes → Bytes
sha b = replicate 32 0

-- An object with the four texts and a time, but no kind.
abbrev members : List (Str × Member)
members =
    (codes "id", text (codes "00"))
    ∷ (codes "pubkey", text (codes "aa"))
    ∷ (codes "created_at", number 5)
    ∷ (codes "content", text [])
    ∷ (codes "sig", text (codes "bb"))
    ∷ []

abbrev json : Json
json = toy_json_of members []

verify_event_json-Verdict_example :
    Verdict sha toy_hex toy_curve json (codes "first") (err missing_kind)
unfolding verify_event_json get_str get_u64 ◌==s◌
verify_event_json-Verdict_example =
    verify_event_json-Verdict sha toy_hex toy_curve json (codes "first")
