-- ===== src/Signer/Secret/Wording.antt =====
-- How a phrase is typed does not matter: spacing, lines and capitals.
use zkas_signer.Prelude.{
  ℕ, ◌≤◌, ◌≡◌, ◌∙◌, refl, ap, sym, false, List, [], ◌∷◌, ◌++◌, map, length-map, arith, All, length,
  codes, Bool-cases, inl, inr,
}
use zkas_signer.Text.{Str, lower_char, join, split_whitespace, words_from, flush, trim, is_empty}
use zkas_signer.Text.Utf8.{IsAscii}
use zkas_signer.Text.Trim.{HasNoSpace, split_whitespace-trim}
use zkas_signer.Text.Words.{split_whitespace-lower, join-map, join-All, split_whitespace-All}
use zkas_signer.Crates.Hex.{Hex}
use zkas_signer.Crates.Phrase.{Phrase, PhraseLaws}
use zkas_signer.Signer.Secret.{
  cleaned, secret_from_phrase, account_secret, is_legacy, resolve_secret, is_valid_mnemonic,
}
use zkas_signer.Signer.Secret.Legacy.{is_legacy-parts, hexdigit-HasNoSpace}

-- The words of a text, in lower case.
abbrev pub lower_words : Str → List Str
lower_words s = split_whitespace (map lower_char s)

pub count_words : (s : Str) → length (lower_words s) ≡ length (split_whitespace s)
count_words s = rw split_whitespace-lower (length-map (split_whitespace s) (map lower_char))

words_from-HasNoSpace : (s cur : Str) → HasNoSpace s → length (words_from s cur) ≤ 1
unfolding words_from
words_from-HasNoSpace [] cur h = flush-le cur
  where
    flush-le : (cur : Str) → length (flush cur []) ≤ 1
    flush-le [] = omega arith
    flush-le (c ∷ cur) = omega arith
words_from-HasNoSpace (c ∷ s) cur (hc, h) =
    rw (hc, words_from) (words_from-HasNoSpace s (cur ++ c ∷ []) h)

split_whitespace-HasNoSpace : (s : Str) → HasNoSpace s → length (split_whitespace s) ≤ 1
unfolding split_whitespace
split_whitespace-HasNoSpace s h = words_from-HasNoSpace s [] h

-- A text of two words or more is no legacy secret, and is not empty.
pub words-is_legacy : (s : Str) → 2 ≤ length (split_whitespace s) → is_legacy (trim s) ≡ false
words-is_legacy s h = elim (Bool-cases (is_legacy (trim s))) [
  | inr e ↦ e
  | inl e ↦
      let few =
        split_whitespace-HasNoSpace (trim s)
          (hexdigit-HasNoSpace (trim s) (is_legacy-parts (trim s) e).1) in
      absurd (omega (arith, few, ap length (split_whitespace-trim s)))
]

pub words-is_empty : (s : Str) → 2 ≤ length (split_whitespace s) → is_empty (trim s) ≡ false
words-is_empty s h = not_empty (trim s) (omega (arith, ap length (split_whitespace-trim s)))
  where
    not_empty : (t : Str) → 2 ≤ length (split_whitespace t) → is_empty t ≡ false
    not_empty [] k = absurd (omega (arith, split_whitespace-HasNoSpace [] tt))
    not_empty (c ∷ t) k = refl

module _ (phrase : Phrase) where
  pub cleaned-trim : (s : Str) → cleaned phrase (trim s) ≡ cleaned phrase s
  unfolding cleaned
  cleaned-trim s = ap (λ ws. phrase.to_lowercase (join (codes " ") ws)) (split_whitespace-trim s)

  pub secret_from_phrase-cleaned :
      (s t pass : Str)
      → cleaned phrase s ≡ cleaned phrase t
      → secret_from_phrase phrase s pass ≡ secret_from_phrase phrase t pass
  unfolding secret_from_phrase
  secret_from_phrase-cleaned s t pass h = rw h

module _ (hex : Hex) (phrase : Phrase) where
  -- A secret of two words or more is a phrase.
  pub resolve_secret-phrase :
      (s : Str)
      → 2 ≤ length (split_whitespace s)
      → resolve_secret hex phrase s ≡ secret_from_phrase phrase s []
  unfolding resolve_secret
  resolve_secret-phrase s h =
      rw (words-is_legacy s h, words-is_empty s h)
        (secret_from_phrase-cleaned phrase (trim s) s [] (cleaned-trim phrase s))

module _ (hex : Hex) (phrase : Phrase) (laws : PhraseLaws phrase) where
  pub cleaned-ascii :
      (s : Str) → All IsAscii s → cleaned phrase s ≡ join (codes " ") (lower_words s)
  unfolding cleaned lower_char
  cleaned-ascii s h =
      let words = split_whitespace s in
      let ascii =
        join-All IsAscii (codes " ") words (refl, tt) (split_whitespace-All IsAscii s h) in
      laws.to_lowercase-ascii (join (codes " ") words) ascii
      ∙ join-map lower_char (codes " ") words
      ∙ ap (join (codes " ")) (sym (split_whitespace-lower s))

  -- Two ASCII texts of two words or more, which have the same words in lower case, are the same
  -- secret: they resolve to the same key or error, and so for every account and for the validity test.
  pub same_words :
      (s t : Str)
      → All IsAscii s
      → All IsAscii t
      → 2 ≤ length (split_whitespace s)
      → lower_words s ≡ lower_words t
      → (resolve_secret hex phrase s ≡ resolve_secret hex phrase t)
        × ((account : ℕ) → account_secret phrase s account ≡ account_secret phrase t account)
        × (is_valid_mnemonic phrase s ≡ is_valid_mnemonic phrase t)
  unfolding account_secret is_valid_mnemonic
  same_words s t hs ht two h =
      let same : cleaned phrase s ≡ cleaned phrase t =
        cleaned-ascii s hs ∙ ap (join (codes " ")) h ∙ sym (cleaned-ascii t ht) in
      let two' : 2 ≤ length (split_whitespace t) =
        omega (arith, count_words s, count_words t, ap length h) in
      (
        resolve_secret-phrase hex phrase s two
            ∙ secret_from_phrase-cleaned phrase s t [] same
            ∙ sym (resolve_secret-phrase hex phrase t two'),
        λ account. rw same refl,
        rw same refl,
      )
