-- ===== src/Text/Words.antt =====
-- Splitting at whitespace, joining, and letter case.
use zkas_signer.Prelude.{
  ℕ, ◌≡◌, ◌≢◌, refl, false, List, [], ◌∷◌, ◌++◌, map, map-append, append-nil, append_assoc, arith,
  All, All-append, Bool-cases, inl, inr,
}
use zkas_signer.Text.{
  Str, is_whitespace, flush, words_from, split_whitespace, join, join_rest, lower_char,
}

-- A word: not empty, and without whitespace.
abbrev pub IsWord : Str → Type 0
IsWord w = (w ≢ []) × All (λ c. is_whitespace c ≡ false) w

words_from-word :
    (w s cur : Str)
    → All (λ c. is_whitespace c ≡ false) w
    → words_from (w ++ s) cur ≡ words_from s (cur ++ w)
unfolding words_from
words_from-word [] s cur h = rw append-nil
words_from-word (c ∷ w) s cur (hc, hw) =
    ground (arith, words_from-word w s (cur ++ c ∷ []) hw, append_assoc cur (c ∷ []) w)

words_from-join_rest :
    (w : Str) (ws : List Str)
    → w ≢ []
    → All IsWord ws
    → words_from (join_rest (b' ' ∷ []) ws) w ≡ w ∷ ws
unfolding words_from join_rest is_whitespace
words_from-join_rest [] ws hn hs = absurd (hn refl)
words_from-join_rest (c ∷ w) [] hn hs = refl
words_from-join_rest (c ∷ w) (v ∷ ws) hn ((vn, hv), hs) =
    rw (words_from-word v _ [] hv, words_from-join_rest v ws vn hs)

-- Splitting what was joined by spaces gives the words back.
pub split_whitespace-join :
    (ws : List Str) → All IsWord ws → split_whitespace (join (b' ' ∷ []) ws) ≡ ws
unfolding split_whitespace join
split_whitespace-join [] h = unfold words_from in refl
split_whitespace-join (w ∷ ws) ((hn, hw), hs) =
    rw (words_from-word w _ [] hw) (words_from-join_rest w ws hn hs)

is_whitespace-lower : (c : ℕ) → is_whitespace (lower_char c) ≡ is_whitespace c
unfolding lower_char is_whitespace
is_whitespace-lower c = ground arith

flush-map :
    (cur : Str) (rest : List Str)
    → flush (map lower_char cur) (map (map lower_char) rest) ≡ map (map lower_char) (flush cur rest)
flush-map [] rest = refl
flush-map (c ∷ cur) rest = refl

words_from-lower :
    (s cur : Str)
    → words_from (map lower_char s) (map lower_char cur) ≡ map (map lower_char) (words_from s cur)
unfolding words_from
words_from-lower [] cur = flush-map cur []
words_from-lower (c ∷ s) cur = ground (
  arith,
  is_whitespace-lower c,
  words_from-lower s [],
  words_from-lower s (cur ++ c ∷ []),
  map-append lower_char cur (c ∷ []),
  flush-map cur (words_from s []),
)

flush-IsWord :
    (cur : Str) (rest : List Str)
    → All (λ c. is_whitespace c ≡ false) cur
    → All IsWord rest
    → All IsWord (flush cur rest)
flush-IsWord [] rest hc hr = hr
flush-IsWord (c ∷ cur) rest hc hr = ((cc, hc), hr)

words_from-IsWord :
    (s cur : Str) → All (λ c. is_whitespace c ≡ false) cur → All IsWord (words_from s cur)
unfolding words_from
words_from-IsWord [] cur h = flush-IsWord cur [] h tt
words_from-IsWord (c ∷ s) cur h = elim (Bool-cases (is_whitespace c)) [
  | inl e ↦ rw (e, words_from) (flush-IsWord cur (words_from s []) h (words_from-IsWord s [] tt))
  | inr e ↦
      rw (e, words_from) (words_from-IsWord s (cur ++ c ∷ []) (All-append _ cur (c ∷ []) h (e, tt)))
]

-- Every part of a split is a word.
pub split_whitespace-IsWord : (s : Str) → All IsWord (split_whitespace s)
unfolding split_whitespace
split_whitespace-IsWord s = words_from-IsWord s [] tt

-- Splitting a lowered text lowers the words.
pub split_whitespace-lower :
    (s : Str) → split_whitespace (map lower_char s) ≡ map (map lower_char) (split_whitespace s)
unfolding split_whitespace
split_whitespace-lower s = words_from-lower s []

join_rest-map :
    (f : ℕ → ℕ) (sep : Str) (ws : List Str)
    → map f (join_rest sep ws) ≡ join_rest (map f sep) (map (map f) ws)
unfolding join_rest
join_rest-map f sep [] = refl
join_rest-map f sep (w ∷ ws) = simp (map-append, join_rest-map f sep ws)

-- Joining commutes with a change of characters.
pub join-map :
    (f : ℕ → ℕ) (sep : Str) (ws : List Str)
    → map f (join sep ws) ≡ join (map f sep) (map (map f) ws)
unfolding join
join-map f sep [] = refl
join-map f sep (w ∷ ws) = simp (map-append, join_rest-map f sep ws)

module _ {ℓ} (P : ℕ → Type ℓ) where
  flush-All :
      (cur : Str) (rest : List Str) → All P cur → All (All P) rest → All (All P) (flush cur rest)
  flush-All [] rest hc hr = hr
  flush-All (c ∷ cur) rest hc hr = (hc, hr)

  words_from-All : (s cur : Str) → All P s → All P cur → All (All P) (words_from s cur)
  unfolding words_from
  words_from-All [] cur hs hc = flush-All cur [] hc tt
  words_from-All (c ∷ s) cur (p, hs) hc = elim (Bool-cases (is_whitespace c)) [
    | inl e ↦ rw (e, words_from) (flush-All cur (words_from s []) hc (words_from-All s [] hs tt))
    | inr e ↦
        rw (e, words_from)
          (words_from-All s (cur ++ c ∷ []) hs (All-append P cur (c ∷ []) hc (p, tt)))
  ]

  join_rest-All :
      (sep : Str) (ws : List Str) → All P sep → All (All P) ws → All P (join_rest sep ws)
  unfolding join_rest
  join_rest-All sep [] hp hs = tt
  join_rest-All sep (w ∷ ws) hp (h, hs) =
      All-append P sep (w ++ join_rest sep ws) hp
        (All-append P w (join_rest sep ws) h (join_rest-All sep ws hp hs))

  pub join-All : (sep : Str) (ws : List Str) → All P sep → All (All P) ws → All P (join sep ws)
  unfolding join
  join-All sep [] hp hs = tt
  join-All sep (w ∷ ws) hp (h, hs) =
      All-append P w (join_rest sep ws) h (join_rest-All sep ws hp hs)

  pub split_whitespace-All : (s : Str) → All P s → All (All P) (split_whitespace s)
  unfolding split_whitespace
  split_whitespace-All s h = words_from-All s [] h tt
