-- ===== src/Witness/Toys/PhraseToy.antt =====
-- A word list of two phrases and a key derivation that tells accounts apart.
use zkas_signer.Prelude.{
  ℕ, zero, suc, ◌+◌, ◌%◌, ◌^◌, ◌≡◌, ◌≤◌, refl, Bool, true, false, ◌==s◌, List, [], ◌∷◌, map, ok,
  err, All, length, replicate, arith, ltb, if◌then◌else◌, none, some, codes,
}
use zkas_signer.Text.{Str, IsByte, lower_char, join, is_whitespace}
use zkas_signer.Text.Words.{IsWord}
use zkas_signer.Crates.Phrase.{Phrase, PhraseLaws}

abbrev text_of : Bool → Str
text_of true = codes "legal winner"
text_of false = codes "zoo wrong"

abbrev pub toy_phrase : Phrase
toy_phrase = record {
  to_lowercase = map lower_char;
  Mnemonic = Bool;
  parse_normalized = λ s.
      if s ==s codes "legal winner"
      then ok true
      else if s ==s codes "zoo wrong"
      then ok false
      else err (codes "unknown word");
  from_entropy = λ b. if ltb (length b) 16 then err (codes "too short") else ok true;
  mnemonic_to_string = text_of;
  to_seed_normalized = λ m pass. if m then codes "seed one" else codes "seed two";
  AccountId = ℕ;
  account_zero = 0;
  account_try_from = λ n. if ltb n (2 ^ 31) then some n else none;
  SpendingKey = ℕ;
  from_zip32_seed = λ seed coin id. ok (length seed + id);
  to_bytes = λ k. replicate 32 (k % 256);
}

two_words :
    (m : Bool)
    → (ws : List Str) × (text_of m ≡ join (codes " ") ws) × All IsWord ws × (2 ≤ length ws)
unfolding join is_whitespace
two_words true = (codes "legal" ∷ codes "winner" ∷ [], refl, ground arith, omega arith)
two_words false = (codes "zoo" ∷ codes "wrong" ∷ [], refl, ground arith, omega arith)

pub toy_phrase-PhraseLaws : PhraseLaws toy_phrase
toy_phrase-PhraseLaws = record {
  to_lowercase-ascii = λ s h. refl;
  words_of_mnemonic = two_words;
  account_try_from-zero = refl;
  to_bytes-seed = λ k. (refl, filled 32 k);
}
  where
    filled : (n k : ℕ) → All IsByte (replicate n (k % 256))
    filled zero k = tt
    filled (suc n) k = (ground arith, filled n k)
