-- ===== src/Chat/Keys/Readings.antt =====
-- The ways in which the reading of a NIP-19 text ends.
use zkas_signer.Prelude.{
  ℕ, ◌≡◌, ◌≢◌, refl, Bool, true, false, not, List, none, some, length, ◌==◌, ==_iff, ◌==s◌,
  ==s_refl, ==s_sound, if◌then◌else◌, Result, ok, err, ◌>>=◌, map_err, ok_or, >>=-by,
  map_err-eq-err, map_err-eq-ok,
}
use zkas_signer.Text.{Str, Bytes, trim}
use zkas_signer.Crates.Bech.{Bech, Variant, bech32, bech32m}
use zkas_signer.Signer.Secret.{to_array}
use zkas_signer.Chat.Error.{
  ChatError, not_bech32, wrong_prefix, wrong_variant, bad_payload, payload_not_32,
}
use zkas_signer.Chat.Keys.{is_bech32, decode_nip19}

module _ (bech : Bech) (hrp s : Str) where
  -- The ways that a reading of a text under a prefix ends.
  pub data Reading : Result Bytes ChatError → Type 0 where
    no_bech32 : (m : Str) → bech.decode (trim s) ≡ err m → Reading (err (not_bech32 m))
    other_prefix :
        (got : Str) (payload : List ℕ) (v : Variant)
        → bech.decode (trim s) ≡ ok (got, payload, v)
        → got ≢ hrp
        → Reading (err (wrong_prefix hrp got))
    other_variant :
        (payload : List ℕ)
        → bech.decode (trim s) ≡ ok (hrp, payload, bech32m)
        → Reading (err wrong_variant)
    no_bytes :
        (payload : List ℕ) (m : Str)
        → bech.decode (trim s) ≡ ok (hrp, payload, bech32)
        → bech.from_base32 payload ≡ err m
        → Reading (err (bad_payload m))
    other_size :
        (payload : List ℕ) (b : Bytes)
        → bech.decode (trim s) ≡ ok (hrp, payload, bech32)
        → bech.from_base32 payload ≡ ok b
        → length b ≢ 32
        → Reading (err payload_not_32)
    read :
        (payload : List ℕ) (b : Bytes)
        → bech.decode (trim s) ≡ ok (hrp, payload, bech32)
        → bech.from_base32 payload ≡ ok b
        → length b ≡ 32
        → Reading (ok b)

  sized :
      (payload : List ℕ) (b : Bytes) (same : Bool)
      → length b == 32 ≡ same
      → bech.decode (trim s) ≡ ok (hrp, payload, bech32)
      → bech.from_base32 payload ≡ ok b
      → Reading (ok_or payload_not_32 (if same then some b else none))
  sized payload b true e d f = read payload b d f ((==_iff (length b) 32).0 e)
  sized payload b false e d f =
      other_size payload b d f (λ n. let yes = (==_iff (length b) 32).1 n in cc)

  varied :
      (payload : List ℕ) (v : Variant)
      → bech.decode (trim s) ≡ ok (hrp, payload, v)
      → Reading (
          if not (is_bech32 v) then err wrong_variant else (do
            b ← map_err bad_payload (bech.from_base32 payload)
            ok_or payload_not_32 (to_array 32 b)))
  unfolding to_array
  varied payload bech32m d = other_variant payload d
  varied payload bech32 d =
      >>=-by Reading (map_err bad_payload (bech.from_base32 payload)) _
        (λ e h. let (m, bad, is) = map_err-eq-err _ _ h in rw is (no_bytes payload m d bad))
        λ b h. sized payload b _ refl d (map_err-eq-ok _ _ h)

  prefixed :
      (got : Str) (payload : List ℕ) (v : Variant) (same : Bool)
      → (got ==s hrp) ≡ same
      → bech.decode (trim s) ≡ ok (got, payload, v)
      → Reading (
          if not same
          then err (wrong_prefix hrp got)
          else if not (is_bech32 v)
          then err wrong_variant
          else (do
            b ← map_err bad_payload (bech.from_base32 payload)
            ok_or payload_not_32 (to_array 32 b)))
  prefixed got payload v true e d = varied payload v (rw (==s_sound got hrp e) at d)
  prefixed got payload v false e d =
      other_prefix got payload v d (λ is. let whole = ==s_refl hrp in cc)

  -- Whatever the text is, its reading under a prefix ends in one of these ways, with the result
  -- that is given there: the trimmed text is no bech32, or has another prefix, which the error
  -- names beside the one expected, or the variant bech32m, or a payload that is no bytes or not 32
  -- of them; otherwise the result is those 32 bytes.
  pub decode_nip19-Reading : Reading (decode_nip19 bech hrp s)
  unfolding decode_nip19
  decode_nip19-Reading =
      >>=-by Reading (map_err not_bech32 (bech.decode (trim s))) _
        (λ e h. let (m, bad, is) = map_err-eq-err _ _ h in rw is (no_bech32 m bad))
        λ t h. prefixed t.0 t.1 t.2 _ refl (map_err-eq-ok _ _ h)
