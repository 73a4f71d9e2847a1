-- ===== src/Witness/Events.antt =====
-- The properties of events at concrete inputs.
use zkas_signer.Prelude.{
  ℕ, ◌-◌, ◌*◌, ◌%◌, ◌≤◌, ◌<◌, ◌≡◌, ◌≢◌, ◌⊎◌, refl, List, [], ◌∷◌, none, some, err, length,
  replicate, codes, arith, All,
}
use zkas_signer.Text.{Str, Bytes, as_bytes, str_len, slice_to, to_string, len_utf8, utf8_char}
use zkas_signer.Event.Canonical.{Tag, escape, serialize_tags, canonical}
use zkas_signer.Event.Id.{Collision, IsEvent, event_id, event_id-binding}
use zkas_signer.Event.Difficulty.{leading_zero_bits}
use zkas_signer.Event.Mine.{
  gave_up, mine, mine_prefix, mine_suffix, job, tags_open, grind_from, attempt, is_late, nonce_tag,
  render,
}
use zkas_signer.Event.Mine.Outcome.{tags_with, mine-Mined, mine-late, mine-ends}
use zkas_signer.Event.Mine.Unreachable.{mine-unreachable, mine-before_epoch}
use zkas_signer.Event.Clock.{now_ms}
use zkas_signer.Event.Canonical.Injective.{canonical-injective}
use zkas_signer.Event.Difficulty.Bits.{bits, count_zeros, leading_zero_bits-count}
use zkas_signer.Text.Utf8.{IsChar}
use zkas_signer.Witness.Toys.{total}

abbrev toy_sha : Bytes → Bytes
toy_sha b = (total b * 37 % 256) ∷ replicate 31 0

abbrev key : Str
key = codes "ab01"

abbrev tags : List Tag
tags = (codes "t" ∷ codes "zkas" ∷ []) ∷ []

abbrev text : Str
text = codes "gm \"all\"\n"

abbrev clock : ℕ → ℕ
clock i = i * 10

abbrev mined_id : Bytes
mined_id = 17 ∷ replicate 31 0

mine-Mined_example :
    (nonce : ℕ) × (tags_with toy_sha 50 key 1700000000 1 tags text 3 1000 clock 11
      ≡ tags_with toy_sha 50 key 1700000000 1 tags text 3 1000 clock nonce)
    × (mined_id
        ≡ event_id toy_sha key 1700000000 1
            (tags_with toy_sha 50 key 1700000000 1 tags text 3 1000 clock 11)
            text)
    × (3 ≤ leading_zero_bits mined_id)
    × ((m : ℕ)
        → m < nonce
        → leading_zero_bits (
            event_id toy_sha key 1700000000 1
              (tags_with toy_sha 50 key 1700000000 1 tags text 3 1000 clock m)
              text)
          < 3)
unfolding mine job attempt nonce_tag mine_prefix mine_suffix tags_open grind_from serialize_tags
    slice_to str_len render to_string as_bytes leading_zero_bits escape is_late len_utf8 utf8_char
mine-Mined_example =
    mine-Mined toy_sha 50 key 1700000000 1 tags text 3 1000 clock
      (tags_with toy_sha 50 key 1700000000 1 tags text 3 1000 clock 11) mined_id (omega arith) refl

mine-late_example : (gave_up 4 200 ≡ gave_up 4 200) × ((i : ℕ) × (1 ≤ i) × (4 < clock i - clock 0))
unfolding mine job attempt nonce_tag mine_prefix mine_suffix tags_open grind_from serialize_tags
    slice_to str_len render to_string as_bytes leading_zero_bits escape is_late len_utf8 utf8_char
mine-late_example =
    mine-late toy_sha 5 key 1700000000 1 tags text 200 4 clock (gave_up 4 200) (omega arith) refl

mine-ends_example : mine toy_sha 9000 key 1700000000 1 tags text 200 15 clock ≢ none
mine-ends_example =
    mine-ends toy_sha 9000 key 1700000000 1 tags text 200 15 clock 1 (omega arith) (omega arith)
      (omega arith)

IsEvent-key : (content : Str) → All IsChar content → IsEvent key tags content
IsEvent-key content h = record {
  pubkey_bare = ground arith;
  pubkey_chars = ground arith;
  tags_chars = ground arith;
  content_chars = h;
}

event_id-binding_example :
    ((key ≡ key)
      × (◌≡◌ {A = ℕ} 5 5)
      × (◌≡◌ {A = ℕ} 1 1)
      × (tags ≡ tags)
      × (codes "ab" ≡ codes "ba"))
    ⊎ Collision toy_sha
unfolding event_id canonical as_bytes to_string serialize_tags escape utf8_char
event_id-binding_example =
    event_id-binding toy_sha key key 5 5 1 1 tags tags (codes "ab") (codes "ba")
      (IsEvent-key (codes "ab") (ground arith)) (IsEvent-key (codes "ba") (ground arith)) refl

canonical-injective_example :
    (key ≡ key) × (◌≡◌ {A = ℕ} 5 5) × (◌≡◌ {A = ℕ} 1 1) × (tags ≡ tags) × (text ≡ text)
canonical-injective_example =
    canonical-injective key key 5 5 1 1 tags tags text text (ground arith) (ground arith) refl

leading_zero_bits-count_example :
    leading_zero_bits (0 ∷ 15 ∷ 200 ∷ []) ≡ count_zeros (bits (0 ∷ 15 ∷ 200 ∷ []))
leading_zero_bits-count_example = leading_zero_bits-count (0 ∷ 15 ∷ 200 ∷ []) (ground arith)

-- The escapes of the source's own test, and the measure of its own ids.
escape_tests :
    (escape (codes "a\nb\"\\") ≡ codes "a\\nb\\\"\\\\")
    × (leading_zero_bits (0 ∷ 15 ∷ []) ≡ 12)
    × (leading_zero_bits (128 ∷ 0 ∷ []) ≡ 0)
unfolding escape leading_zero_bits
escape_tests = (refl, refl, refl)

toy_sha-wide : (b : Bytes) → length (toy_sha b) ≡ 32
toy_sha-wide b = omega arith

mine-unreachable_example :
    mine toy_sha 9000 key 1700000000 1 tags text 257 15 clock ≡ some (err (gave_up 15 257))
mine-unreachable_example =
    mine-unreachable toy_sha 9000 key 1700000000 1 tags text 257 15 clock 1 toy_sha-wide
      (omega arith) (omega arith) (omega arith) (omega arith)

mine-before_epoch_example :
    mine toy_sha 9000 key 1700000000 1 tags text 257 15
      (λ i. now_ms (err (codes "second time provided was later than self")))
    ≡ none
mine-before_epoch_example =
    mine-before_epoch toy_sha 9000 key 1700000000 1 tags text 257 15
      (λ i. err (codes "second time provided was later than self")) toy_sha-wide (omega arith)
      (λ i. (codes "second time provided was later than self", refl)) (omega arith)
