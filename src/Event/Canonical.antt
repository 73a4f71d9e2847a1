-- ===== src/Event/Canonical.antt =====
-- chat-identity/src/event.rs: the canonical serialization that an event's id is computed over.
pub mod Injective
use zkas_signer.Prelude.{
  ℕ, Bool, List, [], ◌∷◌, ◌++◌, map, arith, ◌==◌, if◌then◌else◌, codes, String,
}
use zkas_signer.Text.{Str, join, to_string}

abbrev pub Tag : Type 0
Tag = List Str

-- The seven escapes; any other character stands for itself.
unfoldable pub escape_char : ℕ → Str
escape_char c =
    if c == 0x0A
    then codes "\\n"
    else if c == b'"'
    then codes "\\\""
    else if c == b'\\'
    then codes "\\\\"
    else if c == 0x0D
    then codes "\\r"
    else if c == 0x09
    then codes "\\t"
    else if c == 0x08
    then codes "\\b"
    else if c == 0x0C
    then codes "\\f"
    else c ∷ []

unfoldable pub escape : Str → Str
unfolding escape_char
escape [] = []
escape (c ∷ s) = escape_char c ++ escape s

-- `format!("\"{}\"", escape(v))`
unfoldable pub quoted : Str → Str
unfolding escape
quoted v = b'"' ∷ (escape v ++ b'"' ∷ [])

-- `format!("[{}]", items.join(","))`
unfoldable pub bracketed : List Str → Str
unfolding join
bracketed items = b'[' ∷ (join (codes ",") items ++ b']' ∷ [])

unfoldable pub serialize_tag : Tag → Str
unfolding quoted bracketed
serialize_tag t = bracketed (map quoted t)

unfoldable pub serialize_tags : List Tag → Str
unfolding serialize_tag
serialize_tags tags = bracketed (map serialize_tag tags)

unfoldable pub canonical : Str → ℕ → ℕ → List Tag → Str → Str
canonical pubkey_hex created_at kind tags content =
    codes "[0,\""
    ++ (pubkey_hex
        ++ (codes "\","
            ++ (to_string created_at
                ++ (codes ","
                    ++ (to_string kind
                        ++ (codes ","
                            ++ (serialize_tags tags
                                ++ (codes ",\"" ++ (escape content ++ codes "\"]")))))))))
