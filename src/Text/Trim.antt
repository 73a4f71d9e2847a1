-- ===== src/Text/Trim.antt =====
-- Trimming: what it leaves alone, and that words are not changed by it.
use zkas_signer.Prelude.{◌≡◌, refl, false, [], ◌∷◌, ◌++◌, arith, All}
use zkas_signer.Text.{Str, is_whitespace, words_from, split_whitespace, trim_start, trim_end, trim}

abbrev pub HasNoSpace : Str → Type 0
HasNoSpace = All (λ c. is_whitespace c ≡ false)

trim_start-HasNoSpace : (s : Str) → HasNoSpace s → trim_start s ≡ s
unfolding trim_start
trim_start-HasNoSpace [] h = refl
trim_start-HasNoSpace (c ∷ s) (hc, hs) = rw hc

trim_end-HasNoSpace : (s : Str) → HasNoSpace s → trim_end s ≡ s
unfolding trim_end
trim_end-HasNoSpace [] h = refl
trim_end-HasNoSpace (c ∷ s) (hc, hs) = ground (arith, trim_end-HasNoSpace s hs)

-- A text with no whitespace is left alone.
pub trim-HasNoSpace : (s : Str) → HasNoSpace s → trim s ≡ s
unfolding trim
trim-HasNoSpace s h = rw (trim_start-HasNoSpace s h) (trim_end-HasNoSpace s h)

trim_end_idem : (s : Str) → trim_end (trim_end s) ≡ trim_end s
unfolding trim_end
trim_end_idem [] = refl
trim_end_idem (c ∷ s) = ground (arith, trim_end_idem s)

trim_start-trim : (s : Str) → trim_start (trim_end (trim_start s)) ≡ trim_end (trim_start s)
unfolding trim_start trim_end
trim_start-trim [] = refl
trim_start-trim (c ∷ s) = ground (arith, trim_start-trim s)

-- Trimming twice is trimming once.
pub trim_idem : (s : Str) → trim (trim s) ≡ trim s
unfolding trim
trim_idem s = rw (trim_start-trim s) (trim_end_idem (trim_start s))

words_from-trim_start : (s : Str) → words_from (trim_start s) [] ≡ words_from s []
unfolding words_from trim_start
words_from-trim_start [] = refl
words_from-trim_start (c ∷ s) = ground (arith, words_from-trim_start s)

words_from-trim_end : (s cur : Str) → words_from (trim_end s) cur ≡ words_from s cur
unfolding words_from trim_end
words_from-trim_end [] cur = refl
words_from-trim_end (c ∷ s) cur =
    ground (arith, words_from-trim_end s [], words_from-trim_end s (cur ++ c ∷ []))

-- Trimming does not change the words of a text.
pub split_whitespace-trim : (s : Str) → split_whitespace (trim s) ≡ split_whitespace s
unfolding split_whitespace trim
split_whitespace-trim s = rw words_from-trim_end (words_from-trim_start s)
