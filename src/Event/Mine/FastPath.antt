-- ===== src/Event/Mine/FastPath.antt =====
-- The buffer that `mine` hashes is the canonical form of the event that it returns.
use zkas_signer.Prelude.{
  ℕ, zero, suc, ◌+◌, ◌-◌, ◌*◌, ◌/◌, ◌%◌, ◌^◌, ◌<◌, ◌≡◌, refl, false, List, [], ◌∷◌, ◌++◌, map,
  append_assoc, append-nil, map-append, some, ◌==◌, codes, arith, All, Bool-cases, inl, inr,
}
use native.Mathlib.Nat.{pow-suc}
use zkas_signer.Text.{Str, Bytes, as_bytes, str_len, slice_to, len_utf8, to_string, join, join_rest}
use zkas_signer.Text.Utf8.{
  as_bytes-append, str_len-append, slice_to-append, as_bytes-IsAscii, IsAscii,
}
use zkas_signer.Text.Decimal.{IsDigit, to_string-IsDigit, to_string-step, to_string-digit}
use zkas_signer.Event.Canonical.{
  Tag, escape_char, escape, bracketed, serialize_tag, serialize_tags, canonical,
}
use zkas_signer.Event.Mine.{tags_open, mine_prefix, mine_suffix, render, nonce_tag}

tenth_lt : (s n : ℕ) → n < 10 ^ suc s → n / 10 < 10 ^ s
tenth_lt s n h = let grown : 10 ^ suc s ≡ 10 ^ s * 10 = pow-suc 10 s in omega arith

more : (s n : ℕ) → n < 10 ^ suc s → (n / 10 == 0) ≡ false → 0 < s
more zero n h e = absurd (ground arith)
more (suc s) n h e = omega arith

-- Twenty places hold every `u64`.
render-to_string :
    (slots n : ℕ) (w : Bytes)
    → n < 10 ^ slots
    → 0 < slots
    → render slots n w ≡ some (to_string n ++ w)
unfolding render
render-to_string zero n w h k = absurd (omega arith)
render-to_string (suc s) n w h k = elim (Bool-cases (n / 10 == 0)) [
  | inl e ↦ rw (e, to_string-digit n (ground arith)) (ground arith)
  | inr e ↦
      rw (e, to_string-step n (ground arith), append_assoc)
        (render-to_string s (n / 10) ((b'0' + n % 10) ∷ w) (tenth_lt s n h) (more s n h e))
]

escape-IsDigit : (s : Str) → All IsDigit s → escape s ≡ s
unfolding escape escape_char
escape-IsDigit [] h = refl
escape-IsDigit (c ∷ s) (hc, h) = ground (arith, escape-IsDigit s h)

-- The digits of a nonce are ASCII and need no escape.
pub escape-to_string : (n : ℕ) → escape (to_string n) ≡ to_string n
escape-to_string n = escape-IsDigit (to_string n) (to_string-IsDigit n)

as_bytes-IsDigit : (s : Str) → All IsDigit s → as_bytes s ≡ s
as_bytes-IsDigit s h = as_bytes-IsAscii s (ascii s h)
  where
    ascii : (t : Str) → All IsDigit t → All IsAscii t
    ascii [] h = tt
    ascii (c ∷ t) (hc, h) = (ground arith, ascii t h)

slice_to-last : (s : Str) → slice_to (s ++ codes "]") (str_len (s ++ codes "]") - 1) ≡ some s
slice_to-last s =
    let size : str_len (s ++ codes "]") - 1 ≡ str_len s =
      omega (arith, str_len-append s (codes "]"), str_len_bracket) in
    rw size (slice_to-append s (codes "]"))
  where
    str_len_bracket : str_len (codes "]") ≡ 1
    str_len_bracket = unfold str_len len_utf8 in refl

join_rest-append :
    (sep x : Str) (xs : List Str) → join_rest sep (xs ++ x ∷ []) ≡ join_rest sep xs ++ (sep ++ x)
unfolding join_rest
join_rest-append sep x [] = rw append-nil
join_rest-append sep x (y ∷ ys) = simp (join_rest-append sep x ys, append_assoc)

serialize_tags_row : (ts : List Tag) → serialize_tags ts ≡ bracketed (map serialize_tag ts)
unfolding serialize_tags
serialize_tags_row ts = refl

bracketed-body : (rows : List Str) → bracketed rows ≡ (b'[' ∷ join (codes ",") rows) ++ codes "]"
unfolding bracketed
bracketed-body rows = refl

bracketed-one : (row : Str) → bracketed (row ∷ []) ≡ codes "[" ++ (row ++ codes "]")
unfolding bracketed join
bracketed-one row = rw append-nil

bracketed-more :
    (first row : Str) (rows : List Str)
    → bracketed (first ∷ (rows ++ row ∷ []))
      ≡ ((b'[' ∷ join (codes ",") (first ∷ rows)) ++ codes ",") ++ (row ++ codes "]")
unfolding bracketed join
bracketed-more first row rows = simp (join_rest-append, append_assoc)

-- The opened array with one more tag and the bracket is the array with that tag.
pub tags_open_lem :
    (tags : List Tag) (t : Tag)
    → (opened : Str) × (tags_open tags ≡ some opened)
      × (serialize_tags (tags ++ t ∷ []) ≡ opened ++ (serialize_tag t ++ codes "]"))
unfolding tags_open
tags_open_lem [] t = (codes "[", refl, rw serialize_tags_row (bracketed-one (serialize_tag t)))
tags_open_lem (u ∷ us) t =
    let rows = map serialize_tag us in
    let body = b'[' ∷ join (codes ",") (serialize_tag u ∷ rows) in
    let whole : serialize_tags (u ∷ us) ≡ body ++ codes "]" =
      rw serialize_tags_row (bracketed-body (serialize_tag u ∷ rows)) in
    (
      body ++ codes ",",
      rw (whole, slice_to-last body),
      rw (serialize_tags_row, map-append) (bracketed-more (serialize_tag u) (serialize_tag t) rows),
    )

serialize_tag-nonce_tag :
    (n d : ℕ)
    → serialize_tag (nonce_tag n d)
      ≡ codes "[\"nonce\",\"" ++ (to_string n ++ (codes "\",\"" ++ (to_string d ++ codes "\"]")))
unfolding serialize_tag nonce_tag escape_char
serialize_tag-nonce_tag n d =
    rw (escape-to_string n, escape-to_string d) (simp (append_assoc, append-nil))

-- The text around the nonce is the canonical text of the event with the nonce's tag.
pub canonical_around :
    (pubkey : Str) (created_at kind : ℕ) (tags : List Tag) (content : Str) (difficulty nonce : ℕ)
    (opened : Str)
    → serialize_tags (tags ++ nonce_tag nonce difficulty ∷ [])
      ≡ opened ++ (serialize_tag (nonce_tag nonce difficulty) ++ codes "]")
    → mine_prefix pubkey created_at kind opened
        ++ (to_string nonce ++ mine_suffix difficulty content)
      ≡ canonical pubkey created_at kind (tags ++ nonce_tag nonce difficulty ∷ []) content
unfolding canonical mine_prefix mine_suffix
canonical_around p a k ts c d n o h = rw (h, serialize_tag-nonce_tag n d) (simp append_assoc)

-- Every nonce of a `u64` fits the buffer.
pub render-u64 : (n : ℕ) → n < 2 ^ 64 → render 20 n [] ≡ some (to_string n)
render-u64 n h = rw (render-to_string 20 n [] (omega arith) (omega arith), append-nil) refl

-- The three parts of the buffer are the bytes of the joined text.
pub as_bytes-parts :
    (before behind : Str) (n : ℕ)
    → as_bytes before ++ (to_string n ++ as_bytes behind)
      ≡ as_bytes (before ++ (to_string n ++ behind))
as_bytes-parts before behind n =
    rw (as_bytes-append, as_bytes-append, as_bytes-IsDigit (to_string n) (to_string-IsDigit n)) refl
