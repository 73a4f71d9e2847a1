-- ===== src/Event/Verify/Errors/Fields.antt =====
-- What the value of an event can lack, and the error that each lack is.
use zkas_signer.Prelude.{
  >>=-err, collect-eq-err, ok_or-eq-err, ℕ, ◌≡◌, List, [], ◌∷◌, ◌++◌, Option, none, some, codes,
  All, ok, err, ok_or, inl, inr, ok_or-eq-ok,
}
use zkas_signer.Text.{Str}
use zkas_signer.Crates.Json.{Json}
use zkas_signer.Chat.Error.{
  ChatError, missing_field, missing_created_at, missing_kind, missing_tags, tag_not_array,
  item_not_string,
}
use zkas_signer.Event.Canonical.{Tag}
use zkas_signer.Event.Verify.{and_then, get_str, get_u64, read_item, read_row, read_tags}

-- What the value of an event must hold: texts under four names, two numbers, and tags.
module _ (json : Json) (v : json.Value) where
  abbrev pub text_at : Str → Option Str
  text_at k = and_then json.as_str (json.get v k)

  abbrev pub number_at : Str → Option ℕ
  number_at k = and_then json.as_u64 (json.get v k)

  abbrev pub rows_at : Option (List json.Value)
  rows_at = and_then json.as_array (json.get v (codes "tags"))

  abbrev pub HasText : Str → Type 0
  HasText k = (s : Str) × (text_at k ≡ some s)

  abbrev pub HasNumber : Str → Type 0
  HasNumber k = (n : ℕ) × (number_at k ≡ some n)

  abbrev pub text_names : List Str
  text_names = codes "pubkey" ∷ codes "id" ∷ codes "sig" ∷ codes "content" ∷ []

  abbrev pub HasTexts : Type 0
  HasTexts = All HasText text_names

  abbrev pub HasNumbers : Type 0
  HasNumbers = HasNumber (codes "created_at") × HasNumber (codes "kind")

  -- A row of the tags that is read.
  abbrev pub IsRow : json.Value → Type 0
  IsRow t = (tag : Tag) × (read_row json t ≡ ok tag)

  abbrev pub IsText : json.Value → Type 0
  IsText i = (s : Str) × (json.as_str i ≡ some s)

  -- The first thing that is wrong with the value, in the order texts, numbers, tags, and the error
  -- that it is.
  pub data Lacks : ChatError → Type 0 where
    no_text :
        (before : List Str) (k : Str) (after : List Str)
        → text_names ≡ before ++ k ∷ after
        → All HasText before
        → text_at k ≡ none
        → Lacks (missing_field k)
    no_created_at : HasTexts → number_at (codes "created_at") ≡ none → Lacks missing_created_at
    no_kind :
        HasTexts
        → HasNumber (codes "created_at")
        → number_at (codes "kind") ≡ none
        → Lacks missing_kind
    no_tags : HasTexts → HasNumbers → rows_at ≡ none → Lacks missing_tags
    no_row :
        (good : List json.Value) (t : json.Value) (rest : List json.Value)
        → HasTexts
        → HasNumbers
        → rows_at ≡ some (good ++ t ∷ rest)
        → All IsRow good
        → json.as_array t ≡ none
        → Lacks tag_not_array
    no_item :
        (good : List json.Value) (t : json.Value) (rest fine : List json.Value) (i : json.Value)
        (others : List json.Value)
        → HasTexts
        → HasNumbers
        → rows_at ≡ some (good ++ t ∷ rest)
        → All IsRow good
        → json.as_array t ≡ some (fine ++ i ∷ others)
        → All IsText fine
        → json.as_str i ≡ none
        → Lacks item_not_string

  pub get_str-HasText : (k s : Str) → get_str json v k ≡ ok s → HasText k
  unfolding get_str
  get_str-HasText k s e = (s, ok_or-eq-ok _ _ e)

  pub get_u64-HasNumber :
      (k : Str) (e : ChatError) (n : ℕ) → get_u64 json v k e ≡ ok n → HasNumber k
  unfolding get_u64
  get_u64-HasNumber k e n h = (n, ok_or-eq-ok _ _ h)

  items_read :
      (fine : List json.Value)
      → All (λ i. (s : Str) × (read_item json i ≡ ok s)) fine
      → All IsText fine
  unfolding read_item
  items_read [] h = tt
  items_read (i ∷ fine) ((s, e), h) = ((s, ok_or-eq-ok _ _ e), items_read fine h)

  pub read_tags-Lacks : (e : ChatError) → HasTexts → HasNumbers → read_tags json v ≡ err e → Lacks e
  unfolding read_tags read_row read_item
  read_tags-Lacks e texts numbers h = elim (>>=-err (ok_or missing_tags rows_at) _ h) [
    | inl h1 ↦
        let (gone, is) = ok_or-eq-err missing_tags rows_at h1 in rw is (no_tags texts numbers gone)
    | inr (rows, h1, h2) ↦
        let found = ok_or-eq-ok missing_tags rows_at h1 in
        let (good, t, rest, parts, fine, h3) = collect-eq-err (read_row json) rows e h2 in
        let whole : rows_at ≡ some (good ++ t ∷ rest) = rw (← parts) found in
        elim (>>=-err (ok_or tag_not_array (json.as_array t)) _ h3) [
          | inl h4 ↦
              let (gone, is) = ok_or-eq-err tag_not_array (json.as_array t) h4 in
              rw is (no_row good t rest texts numbers whole fine gone)
          | inr (items, h4, h5) ↦
              let (read, i, others, cut, had, h6) = collect-eq-err (read_item json) items e h5 in
              let (gone, is) = ok_or-eq-err item_not_string (json.as_str i) h6 in
              rw is (
                no_item good t rest read i others texts numbers whole fine
                  (rw (← cut) (ok_or-eq-ok tag_not_array (json.as_array t) h4))
                  (items_read read had) gone)
        ]
  ]
