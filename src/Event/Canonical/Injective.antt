-- ===== src/Event/Canonical/Injective.antt =====
-- The canonical form of an event determines its fields.
use zkas_signer.Prelude.{
  ℕ, ◌≡◌, ◌≢◌, refl, sym, List, [], ◌∷◌, ◌++◌, map, append_assoc, arith, codes, All,
}
use mathlib.Core.Path.{subst}
use zkas_signer.Text.{Str, join, join_rest, to_string}
use zkas_signer.Text.Decimal.{IsDigit, to_string-IsDigit, to_string-injective}
use zkas_signer.Event.Canonical.{
  Tag, escape_char, escape, quoted, bracketed, serialize_tag, serialize_tags, canonical,
}

escape_char-injective :
    (c d : ℕ) (r q : Str) → escape_char c ++ r ≡ escape_char d ++ q → (c ≡ d) × (r ≡ q)
unfolding escape_char
escape_char-injective c d r q h = ground arith

escape_char-ne-quote : (c : ℕ) (r q : Str) → escape_char c ++ r ≡ b'"' ∷ q → ⊥
unfolding escape_char
escape_char-ne-quote c r q h = ground arith

-- An escaped text ends at the first quote that no backslash hides.
escape-injective : (s t r q : Str) → escape s ++ b'"' ∷ r ≡ escape t ++ b'"' ∷ q → (s ≡ t) × (r ≡ q)
unfolding escape
escape-injective [] [] r q h = (refl, cc)
escape-injective [] (d ∷ t) r q h =
    absurd (escape_char-ne-quote d (escape t ++ b'"' ∷ q) r (sym (simp append_assoc at h)))
escape-injective (c ∷ s) [] r q h =
    absurd (escape_char-ne-quote c (escape s ++ b'"' ∷ r) q (simp append_assoc at h))
escape-injective (c ∷ s) (d ∷ t) r q h =
    let (same, rest) = escape_char-injective c d _ _ (simp append_assoc at h) in
    let (tails, ends) = escape-injective s t r q rest in (cc, ends)

-- Rows of items behind brackets, where an item ends by itself and is no bracket.
module _ {ℓ} {A : Type ℓ} (show : A → Str)
    (ends : (a b : A) (r q : Str) → show a ++ r ≡ show b ++ q → (a ≡ b) × (r ≡ q))
    (starts : (a : A) (r q : Str) → show a ++ r ≡ b']' ∷ q → ⊥) where
  rest-injective :
      (xs ys : List A) (r q : Str)
      → join_rest (codes ",") (map show xs) ++ b']' ∷ r
        ≡ join_rest (codes ",") (map show ys) ++ b']' ∷ q
      → (xs ≡ ys) × (r ≡ q)
  unfolding join_rest
  rest-injective [] [] r q h = (refl, cc)
  rest-injective [] (y ∷ ys) r q h = absurd (ground arith)
  rest-injective (x ∷ xs) [] r q h = absurd (ground arith)
  rest-injective (x ∷ xs) (y ∷ ys) r q h =
      let jx = join_rest (codes ",") (map show xs) in
      let jy = join_rest (codes ",") (map show ys) in
      let shown : show x ++ (jx ++ b']' ∷ r) ≡ show y ++ (jy ++ b']' ∷ q) =
        cc (append_assoc (show x) jx (b']' ∷ r), append_assoc (show y) jy (b']' ∷ q)) in
      let (same, rest) = ends x y _ _ shown in
      let (tails, after) = rest-injective xs ys r q rest in (cc, after)

  -- a row that has an item, behind its bracket
  opened :
      (y : A) (ys : List A) (q : Str) {t : Str}
      → (show y ++ join_rest (codes ",") (map show ys) ++ b']' ∷ []) ++ q ≡ t
      → show y ++ (join_rest (codes ",") (map show ys) ++ b']' ∷ q) ≡ t
  opened y ys q h = cc (
    append_assoc (show y) (join_rest (codes ",") (map show ys)) (b']' ∷ []),
    append_assoc (show y) (join_rest (codes ",") (map show ys) ++ b']' ∷ []) q,
    append_assoc (join_rest (codes ",") (map show ys)) (b']' ∷ []) q,
  )

  bracketed-injective :
      (xs ys : List A) (r q : Str)
      → bracketed (map show xs) ++ r ≡ bracketed (map show ys) ++ q
      → (xs ≡ ys) × (r ≡ q)
  unfolding bracketed join
  bracketed-injective [] [] r q h = (refl, cc)
  bracketed-injective [] (y ∷ ys) r q h =
      absurd
        (starts y (join_rest (codes ",") (map show ys) ++ b']' ∷ q) r (opened y ys q (sym (cc))))
  bracketed-injective (x ∷ xs) [] r q h =
      absurd (starts x (join_rest (codes ",") (map show xs) ++ b']' ∷ r) q (opened x xs r (cc)))
  bracketed-injective (x ∷ xs) (y ∷ ys) r q h =
      let jx = join_rest (codes ",") (map show xs) in
      let jy = join_rest (codes ",") (map show ys) in
      let shown : show x ++ (jx ++ b']' ∷ r) ≡ show y ++ (jy ++ b']' ∷ q) =
        cc (opened x xs r refl, opened y ys q refl) in
      let (same, rest) = ends x y _ _ shown in
      let (tails, after) = rest-injective xs ys r q rest in (cc, after)

quoted-injective : (v w : Str) (r q : Str) → quoted v ++ r ≡ quoted w ++ q → (v ≡ w) × (r ≡ q)
unfolding quoted
quoted-injective v w r q h =
    escape-injective v w r q
      (cc (append_assoc (escape v) (b'"' ∷ []) r, append_assoc (escape w) (b'"' ∷ []) q))

quoted-ne-bracket : (v r q : Str) → quoted v ++ r ≡ b']' ∷ q → ⊥
unfolding quoted
quoted-ne-bracket v r q h = cc

serialize_tag-injective :
    (t u : Tag) (r q : Str) → serialize_tag t ++ r ≡ serialize_tag u ++ q → (t ≡ u) × (r ≡ q)
unfolding serialize_tag
serialize_tag-injective = bracketed-injective quoted quoted-injective quoted-ne-bracket

serialize_tag-ne-bracket : (t : Tag) (r q : Str) → serialize_tag t ++ r ≡ b']' ∷ q → ⊥
unfolding serialize_tag bracketed
serialize_tag-ne-bracket t r q h = ground arith

-- The text of a list of tags, whatever follows it, determines the tags.
pub serialize_tags-injective :
    (ts us : List Tag) (r q : Str)
    → serialize_tags ts ++ r ≡ serialize_tags us ++ q
    → (ts ≡ us) × (r ≡ q)
unfolding serialize_tags
serialize_tags-injective =
    bracketed-injective serialize_tag serialize_tag-injective serialize_tag-ne-bracket

-- A run of characters that `P` holds of ends where one stands that it does not hold of.
module _ {ℓ} (P : ℕ → Type ℓ) (stop : ℕ) (stops : P stop → ⊥) where
  run-injective :
      (s t r q : Str) → All P s → All P t → s ++ stop ∷ r ≡ t ++ stop ∷ q → (s ≡ t) × (r ≡ q)
  run-injective [] [] r q hs ht h = (refl, cc)
  run-injective [] (d ∷ t) r q hs (hd, ht) h = absurd (stops (subst P (cc) hd))
  run-injective (c ∷ s) [] r q (hc, hs) ht h = absurd (stops (subst P (cc) hc))
  run-injective (c ∷ s) (d ∷ t) r q (hc, hs) (hd, ht) h =
      let (same, rest) = run-injective s t r q hs ht (cc) in (cc, rest)

to_string-comma :
    (n m : ℕ) (r q : Str) → to_string n ++ b',' ∷ r ≡ to_string m ++ b',' ∷ q → (n ≡ m) × (r ≡ q)
to_string-comma n m r q h =
    let (same, rest) =
      run-injective IsDigit b',' (λ p. cc) (to_string n) (to_string m) r q (to_string-IsDigit n)
        (to_string-IsDigit m) h in
    (to_string-injective n m same, rest)

after : {c d : ℕ} {s t : Str} → c ∷ s ≡ d ∷ t → s ≡ t
after h = cc

-- no quote, as in a hex text
abbrev pub IsBare : ℕ → Type 0
IsBare c = c ≢ b'"'

-- Two events with the same canonical text, whose public keys hold no quote, agree in every field.
pub canonical-injective :
    (pubkey pubkey' : Str) (created_at created_at' kind kind' : ℕ) (tags tags' : List Tag)
    (content content' : Str)
    → All IsBare pubkey
    → All IsBare pubkey'
    → canonical pubkey created_at kind tags content
      ≡ canonical pubkey' created_at' kind' tags' content'
    → (pubkey ≡ pubkey')
      × (created_at ≡ created_at')
      × (kind ≡ kind')
      × (tags ≡ tags')
      × (content ≡ content')
unfolding canonical
canonical-injective p p' a a' k k' ts ts' c c' hp hp' h =
    let (ep, h1) =
      run-injective IsBare b'"' (λ n. n refl) p p' _ _ hp hp' (after (after (after (after h)))) in
    let (ea, h2) = to_string-comma a a' _ _ (after h1) in
    let (ek, h3) = to_string-comma k k' _ _ h2 in
    let (et, h4) = serialize_tags-injective ts ts' _ _ h3 in
    let (ec, h5) = escape-injective c c' (codes "]") (codes "]") (after (after h4)) in
    (ep, ea, ek, et, ec)
