-- ===== src/Event/Verify/Errors.antt =====
-- The ways in which the verification of an event that was received ends.
pub mod Fields
pub mod Signature
use zkas_signer.Prelude.{
  >>=-by, >>=-err, collect-eq-err, map_err-eq-err, ok_or-eq-err, ℕ, ◌%◌, ◌^◌, ◌≡◌, ◌≢◌, ◌∙◌, refl,
  sym, Bool, true, false, not, List, [], ◌∷◌, ◌++◌, Option, none, some, ◌==s◌, ==s_refl, ==s_sound,
  if◌then◌else◌, codes, All, Result, ok, err, ◌>>=◌, map_err, ok_or, collect, Bool-cases, ◌⊎◌, inl,
  inr, map_err-eq-ok, ok_or-eq-ok,
}
use zkas_signer.Text.{Str, Bytes}
use zkas_signer.Crates.Hex.{Hex}
use zkas_signer.Crates.Curve.{Curve}
use zkas_signer.Crates.Json.{Json}
use zkas_signer.Chat.Error.{
  ChatError, not_json, missing_field, missing_created_at, missing_kind, missing_tags, tag_not_array,
  item_not_string, pubkey_not_hex, sig_not_hex,
}
use zkas_signer.Event.Canonical.{Tag}
use zkas_signer.Event.Id.{event_id}
use zkas_signer.Event.Verify.{
  and_then, or_false, get_str, get_u64, read_item, read_row, read_tags, check_signature,
  verify_event_json,
}
use zkas_signer.Event.Verify.Verdict.{Carries, id_of, verify_event_json-Carries}
use zkas_signer.Event.Verify.Errors.Fields.{
  text_at, number_at, HasText, HasTexts, text_names, Lacks, no_text, no_created_at, no_kind,
  get_str-HasText, get_u64-HasNumber, read_tags-Lacks,
}
use zkas_signer.Event.Verify.Errors.Signature.{Judged, check_signature-Judged}

module _ (sha256 : Bytes → Bytes) (hex : Hex) (curve : Curve) (json : Json) (text : Str) where
  -- The ways that the verification of a text ends.
  pub data Verdict : Result Bool ChatError → Type 0 where
    unread : (m : Str) → json.from_str text ≡ err m → Verdict (err (not_json m))
    lacking :
        (v : json.Value) (e : ChatError)
        → json.from_str text ≡ ok v
        → Lacks json v e
        → Verdict (err e)
    other_id :
        (c : Carries json text)
        → hex.encode (id_of sha256 hex curve json text c) ≢ c.id_hex
        → Verdict (ok false)
    judged :
        (c : Carries json text) (r : Result Bool ChatError)
        → hex.encode (id_of sha256 hex curve json text c) ≡ c.id_hex
        → Judged hex curve c.pubkey c.sig_hex (id_of sha256 hex curve json text c) r
        → Verdict r

  by_id :
      (c : Carries json text) (same : Bool)
      → (hex.encode (id_of sha256 hex curve json text c) ==s c.id_hex) ≡ same
      → Verdict (
          if not same
          then ok false
          else check_signature hex curve c.pubkey c.sig_hex (id_of sha256 hex curve json text c))
  by_id c true e =
      judged c _ (==s_sound _ _ e) (check_signature-Judged hex curve c.pubkey c.sig_hex _)
  by_id c false e = other_id c (λ same. let whole = ==s_refl c.id_hex in cc)

  Lacks-text_names :
      (v : json.Value) (before : List Str) (k : Str) (after : List Str) (e : ChatError)
      → text_names json v ≡ before ++ k ∷ after
      → All (HasText json v) before
      → get_str json v k ≡ err e
      → Lacks json v e
  unfolding get_str
  Lacks-text_names v before k after e parts had h =
      let (gone, is) = ok_or-eq-err (missing_field k) (text_at json v k) h in
      rw is (no_text before k after parts had gone)

  -- The rest of `verify_event_json` once the texts are read.
  numbers_on :
      (v : json.Value) (pubkey id_hex sig_hex content : Str)
      → json.from_str text ≡ ok v
      → get_str json v (codes "pubkey") ≡ ok pubkey
      → get_str json v (codes "id") ≡ ok id_hex
      → get_str json v (codes "sig") ≡ ok sig_hex
      → get_str json v (codes "content") ≡ ok content
      → HasTexts json v
      → Verdict (do
        created_at ← get_u64 json v (codes "created_at") missing_created_at
        wide ← get_u64 json v (codes "kind") missing_kind
        tags ← read_tags json v
        let id = event_id sha256 pubkey created_at (wide % 2 ^ 32) tags content
        if not (hex.encode id ==s id_hex)
            then ok false
            else check_signature hex curve pubkey sig_hex id)
  unfolding get_u64
  numbers_on v pubkey id_hex sig_hex content parsed h1 h2 h3 h4 texts =
      >>=-by Verdict (get_u64 json v (codes "created_at") missing_created_at) _
        (λ e no.
          let (gone, is) =
            ok_or-eq-err missing_created_at (number_at json v (codes "created_at")) no in
          lacking v e parsed (rw is (no_created_at texts gone)))
        λ created_at h5.
          let n1 = get_u64-HasNumber json v _ _ _ h5 in
          >>=-by Verdict (get_u64 json v (codes "kind") missing_kind) _
            (λ e no.
              let (gone, is) = ok_or-eq-err missing_kind (number_at json v (codes "kind")) no in
              lacking v e parsed (rw is (no_kind texts n1 gone)))
            λ wide h6.
              let n2 = get_u64-HasNumber json v _ _ _ h6 in
              >>=-by Verdict (read_tags json v) _
                (λ e no. lacking v e parsed (read_tags-Lacks json v e texts (n1, n2) no))
                λ tags h7.
                  by_id
                    (record {
                      value = v;
                      pubkey = pubkey;
                      id_hex = id_hex;
                      sig_hex = sig_hex;
                      content = content;
                      created_at = created_at;
                      wide = wide;
                      tags = tags;
                      parsed = parsed;
                      has_pubkey = h1;
                      has_id = h2;
                      has_sig = h3;
                      has_content = h4;
                      has_created_at = h5;
                      has_kind = h6;
                      has_tags = h7;
                    })
                    _ refl

  -- Whatever the text is, the verification ends in one of these ways, with the result that is given
  -- there. The text is no JSON, and the error is the parser's; or the value lacks something, and
  -- the error names the first thing that it lacks, in the order of the four texts, the two numbers
  -- and the tags, row by row; or the id in the text is not the hash of what it says, and the answer
  -- is false; or the id is right, and only then are the key and the signature looked at: either is
  -- not hex, which is an error, or is no key or no signature, where the answer is false, or the
  -- answer is the signature scheme's for the key, the recomputed id and the signature.
  pub verify_event_json-Verdict : Verdict (verify_event_json sha256 hex curve json text)
  unfolding verify_event_json
  verify_event_json-Verdict =
      >>=-by Verdict (map_err not_json (json.from_str text)) _
        (λ e h. let (m, bad, is) = map_err-eq-err _ _ h in rw is (unread m bad))
        λ v h.
          let parsed = map_err-eq-ok _ _ h in
          >>=-by Verdict (get_str json v (codes "pubkey")) _
            (λ e no. lacking v e parsed (Lacks-text_names v [] _ _ e refl tt no))
            λ pubkey h1.
              let t1 = get_str-HasText json v _ _ h1 in
              >>=-by Verdict (get_str json v (codes "id")) _
                (λ e no.
                  lacking v e parsed
                    (Lacks-text_names v (codes "pubkey" ∷ []) _ _ e refl (t1, tt) no))
                λ id_hex h2.
                  let t2 = get_str-HasText json v _ _ h2 in
                  >>=-by Verdict (get_str json v (codes "sig")) _
                    (λ e no. lacking v e parsed (
                      Lacks-text_names v (codes "pubkey" ∷ codes "id" ∷ []) _ _ e refl
                        (t1, (t2, tt)) no))
                    λ sig_hex h3.
                      let t3 = get_str-HasText json v _ _ h3 in
                      >>=-by Verdict (get_str json v (codes "content")) _
                        (λ e no. lacking v e parsed (
                          Lacks-text_names v (codes "pubkey" ∷ codes "id" ∷ codes "sig" ∷ []) _ _ e
                            refl (t1, (t2, (t3, tt))) no))
                        λ content h4.
                          let texts : HasTexts json v =
                            (t1, (t2, (t3, (get_str-HasText json v _ _ h4, tt)))) in
                          numbers_on v pubkey id_hex sig_hex content parsed h1 h2 h3 h4 texts
