-- ===== src/Event/Mine.antt =====
-- chat-identity/src/event.rs: `mine`, the grinding of a NIP-13 nonce.
pub mod FastPath
pub mod Loop
pub mod Outcome
pub mod Unreachable
use zkas_signer.Prelude.{
  ℕ, zero, suc, ◌+◌, ◌-◌, ◌/◌, ◌%◌, Bool, ◌&&◌, List, [], ◌∷◌, ◌++◌, Option, none, some, ltb, leb,
  ◌==◌, if◌then◌else◌, codes, Result, ok, err, map_ok, ◌>>=◌,
}
use mathlib.Core.Option
use zkas_signer.Text.{Str, Bytes, as_bytes, str_len, slice_to, to_string, is_empty}
use zkas_signer.Event.Canonical.{Tag, escape, serialize_tags}
use zkas_signer.Event.Difficulty.{leading_zero_bits}

-- How mining fails: the text of the error, or a panic.
pub data MineError : Type 0 where
  gave_up : ℕ → ℕ → MineError
  panicked : MineError

-- `&others[..others.len() - 1]` panics off a character boundary.
unfoldable pub tags_open : List Tag → Option Str
tags_open [] = some (codes "[")
tags_open (t ∷ tags) =
    let others = serialize_tags (t ∷ tags) in
    Option.map (λ cut. cut ++ codes ",") (slice_to others (str_len others - 1))

-- Everything before the nonce digits, `opened` being `tags_open`.
unfoldable pub mine_prefix : Str → ℕ → ℕ → Str → Str
mine_prefix pubkey created_at kind opened =
    codes "[0,\""
    ++ (pubkey
        ++ (codes "\","
            ++ (to_string created_at
                ++ (codes ","
                    ++ (to_string kind ++ (codes "," ++ (opened ++ codes "[\"nonce\",\"")))))))

-- Everything after them.
unfoldable pub mine_suffix : ℕ → Str → Str
mine_suffix difficulty content =
    codes "\",\"" ++ (to_string difficulty ++ (codes "\"]],\"" ++ (escape content ++ codes "\"]")))

-- The digits, written from the end of a buffer: `slots` places are left, `written` is
-- `digits[i..]`. `none` is the panic of a write before the buffer.
unfoldable pub render : ℕ → ℕ → Bytes → Option Bytes
render zero n written = none
render (suc slots) n written =
    let written' = (b'0' + n % 10) ∷ written in
    let rest = render slots (n / 10) written' in if n / 10 == 0 then some written' else rest

-- `["nonce", nonce.to_string(), difficulty.to_string()]`
unfoldable pub nonce_tag : ℕ → ℕ → Tag
nonce_tag nonce difficulty = codes "nonce" ∷ to_string nonce ∷ to_string difficulty ∷ []

-- What a call of `mine` fixes for its loop; `clock i` is the reading number `i` of `now_ms`.
pub record Job : Type 0 where
  pub sha256 : Bytes → Bytes
  pub clock : ℕ → ℕ
  pub max_ms : ℕ
  pub difficulty : ℕ
  pub tags : List Tag
  pub before : Bytes
  pub behind : Bytes

-- The id of one attempt: `buf` is cleared and filled with the three parts.
unfoldable pub attempt : Job → Bytes → Bytes
attempt j digits = j.sha256 (j.before ++ (digits ++ j.behind))

-- Whether the clock, at its reading number `reads`, says that the time is up.
unfoldable pub is_late : Job → ℕ → Bool
is_late j reads = ltb j.max_ms (j.clock reads - j.clock 0)

-- The loop over the nonces, on fuel: `none` means that it is still grinding. `reads` counts the
-- calls of `now_ms` so far; the clock is read only where the first test of the `&&` holds.
unfoldable pub grind_from : Job → ℕ → ℕ → ℕ → Option (Result (List Tag × Bytes) MineError)
grind_from j zero nonce reads = none
grind_from j (suc fuel) nonce reads = elim (render 20 nonce []) [
  | none ↦ some (err panicked)
  | some digits ↦
      let id = attempt j digits in
      let tick = nonce % 8192 == 0 in
      let rest = grind_from j fuel (nonce + 1) (if tick then reads + 1 else reads) in
      if leb j.difficulty (leading_zero_bits id)
      then some (ok (j.tags ++ nonce_tag nonce j.difficulty ∷ [], id))
      else if tick && is_late j reads
      then some (err (gave_up j.max_ms j.difficulty))
      else rest
]

unfoldable pub job : (Bytes → Bytes) → Str → ℕ → ℕ → List Tag → Str → ℕ → ℕ → (ℕ → ℕ) → Str → Job
job sha256 pubkey created_at kind tags content difficulty max_ms clock opened = record {
  sha256 = sha256;
  clock = clock;
  max_ms = max_ms;
  difficulty = difficulty;
  tags = tags;
  before = as_bytes (mine_prefix pubkey created_at kind opened);
  behind = as_bytes (mine_suffix difficulty content);
}

unfoldable pub mine :
    (Bytes → Bytes)
    → ℕ
    → Str
    → ℕ
    → ℕ
    → List Tag
    → Str
    → ℕ
    → ℕ
    → (ℕ → ℕ)
    → Option (Result (List Tag × Bytes) MineError)
mine sha256 fuel pubkey created_at kind tags content difficulty max_ms clock =
    elim (tags_open tags) [
      | none ↦ some (err panicked)
      | some opened ↦
          grind_from (job sha256 pubkey created_at kind tags content difficulty max_ms clock opened)
            fuel 0 1
    ]
