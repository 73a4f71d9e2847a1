-- ===== src/Event/Sign/Wire.antt =====
-- The text of a signed event carries the event.
use zkas_signer.Prelude.{ℕ, ◌^◌, ◌<◌, ◌≡◌, refl, List, [], ◌∷◌, some, ok, collect, codes, ◌==s◌}
use zkas_signer.Text.{Str}
use zkas_signer.Crates.Json.{Json, Member, text, number, rows, Holds, HoldsRow, HoldsRows, JsonLaws}
use zkas_signer.Chat.Error.{ChatError}
use zkas_signer.Event.Canonical.{Tag}
use zkas_signer.Event.Sign.{SignedEvent, to_json}
use zkas_signer.Event.Sign.Verifies.{IsWire}
use zkas_signer.Event.Verify.{get_str, get_u64, read_item, read_row, read_tags}

module _ (json : Json) where
  read_item-HoldsRow :
      (xs : List json.Value) (t : Tag) → HoldsRow json xs t → collect (read_item json) xs ≡ ok t
  unfolding collect read_item
  read_item-HoldsRow [] [] h = refl
  read_item-HoldsRow [] (s ∷ t) h = elim h [ ]
  read_item-HoldsRow (x ∷ xs) [] h = elim h [ ]
  read_item-HoldsRow (x ∷ xs) (s ∷ t) (h, hs) = rw (h, read_item-HoldsRow xs t hs) refl

  read_row-HoldsRows :
      (xs : List json.Value) (ts : List Tag)
      → HoldsRows json xs ts
      → collect (read_row json) xs ≡ ok ts
  unfolding collect read_row
  read_row-HoldsRows [] [] h = refl
  read_row-HoldsRows [] (t ∷ ts) h = elim h [ ]
  read_row-HoldsRows (x ∷ xs) [] h = elim h [ ]
  read_row-HoldsRows (x ∷ xs) (t ∷ ts) ((items, found, h), hs) =
      rw (found, read_item-HoldsRow items t h, read_row-HoldsRows xs ts hs) refl

  -- What is found under a name in a value.
  abbrev Keeps : json.Value → Str → Member → Type 0
  Keeps v k m = (x : json.Value) × (json.get v k ≡ some x) × Holds json x m

  get_str-Keeps : (v : json.Value) (k s : Str) → Keeps v k (text s) → get_str json v k ≡ ok s
  unfolding get_str
  get_str-Keeps v k s (x, found, h) = rw (found, h) refl

  get_u64-Keeps :
      (v : json.Value) (k : Str) (e : ChatError) (n : ℕ)
      → Keeps v k (number n)
      → get_u64 json v k e ≡ ok n
  unfolding get_u64
  get_u64-Keeps v k e n (x, found, h) = rw (found, h) refl

  read_tags-Keeps :
      (v : json.Value) (ts : List Tag) → Keeps v (codes "tags") (rows ts) → read_tags json v ≡ ok ts
  unfolding read_tags
  read_tags-Keeps v ts (x, found, (xs, listed, h)) = rw (found, listed) (read_row-HoldsRows xs ts h)

  -- Under the law of JSON, the text of an event whose numbers are `u64`s carries its fields.
  pub to_json-IsWire :
      (laws : JsonLaws json)
      → (e : SignedEvent) → e.created_at < 2 ^ 64
      → e.kind < 2 ^ 64
      → IsWire json (to_json json e) e
  unfolding to_json ◌==s◌
  to_json-IsWire laws e ht hk =
      let (v, parsed, keeps) =
        laws.from_str-object _ (tt, (tt, (ht, (hk, (tt, (tt, (tt, tt))))))) in
      (
        record {
          value = v;
          pubkey = e.pubkey;
          id_hex = e.id;
          sig_hex = e.sig;
          content = e.content;
          created_at = e.created_at;
          wide = e.kind;
          tags = e.tags;
          parsed = parsed;
          has_pubkey = get_str-Keeps v _ _ (keeps (codes "pubkey") (text e.pubkey) refl);
          has_id = get_str-Keeps v _ _ (keeps (codes "id") (text e.id) refl);
          has_sig = get_str-Keeps v _ _ (keeps (codes "sig") (text e.sig) refl);
          has_content = get_str-Keeps v _ _ (keeps (codes "content") (text e.content) refl);
          has_created_at =
              get_u64-Keeps v _ _ _ (keeps (codes "created_at") (number e.created_at) refl);
          has_kind = get_u64-Keeps v _ _ _ (keeps (codes "kind") (number e.kind) refl);
          has_tags = read_tags-Keeps v _ (keeps (codes "tags") (rows e.tags) refl);
        },
        refl,
        refl,
        refl,
        refl,
        refl,
        refl,
        refl,
      )
