-- ===== src/Text.antt =====
-- The operations of Rust's `str` and `u64` that the crates use. A text is its list of characters
-- (Unicode scalar values); `str_len` and `as_bytes` are the length and the bytes of its UTF-8 form.
pub mod Utf8
pub mod Words
pub mod Decimal
pub mod Trim
use zkas_signer.Prelude.{
  ℕ, zero, suc, ◌+◌, ◌-◌, ◌*◌, ◌/◌, ◌%◌, ◌≡◌, Bool, true, false, ◌&&◌, ◌||◌, List, [], ◌∷◌, ◌++◌,
  map, Option, none, some, String, arith, leb, ltb, ◌==◌, if◌then◌else◌, codes, all,
}

abbrev pub Str : Type 0
Str = List ℕ

abbrev pub Bytes : Type 0
Bytes = List ℕ

-- The range of a `u8`.
abbrev pub IsByte : ℕ → Type 0
IsByte b = leb b 255 ≡ true

-- The UTF-8 form of a character.
unfoldable pub utf8_char : ℕ → Bytes
utf8_char c =
    if ltb c 128
    then c ∷ []
    else if ltb c 2048
    then (192 + c / 64) ∷ (128 + c % 64) ∷ []
    else if ltb c 65536
    then (224 + c / 4096) ∷ (128 + c / 64 % 64) ∷ (128 + c % 64) ∷ []
    else (240 + c / 262144) ∷ (128 + c / 4096 % 64) ∷ (128 + c / 64 % 64) ∷ (128 + c % 64) ∷ []

-- `char::len_utf8`
unfoldable pub len_utf8 : ℕ → ℕ
len_utf8 c = if ltb c 128 then 1 else if ltb c 2048 then 2 else if ltb c 65536 then 3 else 4

-- `s.as_bytes()`
unfoldable pub as_bytes : Str → Bytes
as_bytes [] = []
as_bytes (c ∷ s) = utf8_char c ++ as_bytes s

-- `s.len()`
unfoldable pub str_len : Str → ℕ
str_len [] = 0
str_len (c ∷ s) = len_utf8 c + str_len s

-- `s.is_empty()`
abbrev pub is_empty {ℓ} : {A : Type ℓ} → List A → Bool
is_empty [] = true
is_empty (c ∷ s) = false

-- `&s[..n]`; `none` is the panic at an index that is no character boundary or past the end.
unfoldable pub slice_to : Str → ℕ → Option Str
slice_to s zero = some []
slice_to [] (suc n) = none
slice_to (c ∷ s) (suc n) =
    let rest = slice_to s (suc n - len_utf8 c) in
    if leb (len_utf8 c) (suc n) then elim rest [ none ↦ none | some t ↦ some (c ∷ t) ] else none

-- `char::is_ascii_hexdigit`
unfoldable pub is_ascii_hexdigit : ℕ → Bool
is_ascii_hexdigit c =
    (leb b'0' c && leb c b'9') || (leb b'a' c && leb c b'f') || (leb b'A' c && leb c b'F')

-- `char::is_whitespace`: Unicode's White_Space.
unfoldable pub is_whitespace : ℕ → Bool
is_whitespace c =
    (leb 9 c && leb c 13)
    || c == 32
    || c == 0x85
    || c == 0xA0
    || c == 0x1680
    || (leb 0x2000 c && leb c 0x200A)
    || c == 0x2028
    || c == 0x2029
    || c == 0x202F
    || c == 0x205F
    || c == 0x3000

-- `char::to_ascii_lowercase`, on a text.
unfoldable pub lower_char : ℕ → ℕ
lower_char c = if leb b'A' c && leb c b'Z' then c + 32 else c

unfoldable pub to_ascii_lowercase : Str → Str
unfolding lower_char
to_ascii_lowercase s = map lower_char s

-- `s.trim()`
unfoldable pub trim_start : Str → Str
trim_start [] = []
trim_start (c ∷ s) = if is_whitespace c then trim_start s else c ∷ s

unfoldable pub trim_end : Str → Str
trim_end [] = []
trim_end (c ∷ s) =
    let rest = trim_end s in if is_empty rest && is_whitespace c then [] else c ∷ rest

unfoldable pub trim : Str → Str
unfolding trim_start trim_end is_whitespace
trim s = trim_end (trim_start s)

-- `s.split_whitespace()`: `cur` is the word being read.
abbrev pub flush : Str → List Str → List Str
flush [] rest = rest
flush (c ∷ cur) rest = (c ∷ cur) ∷ rest

unfoldable pub words_from : Str → Str → List Str
words_from [] cur = flush cur []
words_from (c ∷ s) cur = elim (is_whitespace c) [
  | true ↦ flush cur (words_from s [])
  | false ↦ words_from s (cur ++ c ∷ [])
]

unfoldable pub split_whitespace : Str → List Str
unfolding words_from is_whitespace
split_whitespace s = words_from s []

-- `parts.join(sep)`
unfoldable pub join_rest : Str → List Str → Str
join_rest sep [] = []
join_rest sep (p ∷ ps) = sep ++ (p ++ join_rest sep ps)

unfoldable pub join : Str → List Str → Str
unfolding join_rest
join sep [] = []
join sep (p ∷ ps) = p ++ join_rest sep ps

-- `n.to_string()`: the decimal digits, the first argument bounding their number.
unfoldable pub decimal_upto : ℕ → ℕ → Str
decimal_upto zero n = []
decimal_upto (suc f) n =
    let before = decimal_upto f (n / 10) in
    if ltb n 10 then (b'0' + n) ∷ [] else before ++ (b'0' + n % 10) ∷ []

unfoldable pub to_string : ℕ → Str
unfolding decimal_upto
to_string n = decimal_upto (suc n) n
