-- ===== src/Event/Mine/Loop.antt =====
-- The loop of `mine`: what it finds first, why it fails, and when it ends.
use zkas_signer.Prelude.{
  ℕ, zero, suc, ◌+◌, ◌*◌, ◌/◌, ◌%◌, ◌^◌, ◌≤◌, ◌<◌, ◌≡◌, ◌≢◌, refl, true, false, ◌&&◌, List, [], ◌∷◌,
  ◌++◌, none, some, leb, ◌==◌, if◌then◌else◌, arith, ok, err, Bool-cases, ==_iff, inl, inr,
}
use zkas_signer.Text.{Bytes, to_string}
use zkas_signer.Event.Canonical.{Tag}
use zkas_signer.Event.Difficulty.{leading_zero_bits}
use zkas_signer.Event.Mine.{MineError, gave_up, Job, attempt, is_late, nonce_tag, grind_from}
use zkas_signer.Event.Mine.FastPath.{render-u64}

-- The id of the attempt at a nonce.
abbrev pub tried : Job → ℕ → Bytes
tried j nonce = attempt j (to_string nonce)

-- One round of the loop.
grind_from-step :
    (j : Job) (fuel nonce reads : ℕ)
    → nonce < 2 ^ 64
    → grind_from j (suc fuel) nonce reads ≡ (
        if leb j.difficulty (leading_zero_bits (tried j nonce))
        then some (ok (j.tags ++ nonce_tag nonce j.difficulty ∷ [], tried j nonce))
        else if nonce % 8192 == 0 && is_late j reads
        then some (err (gave_up j.max_ms j.difficulty))
        else grind_from j fuel (nonce + 1) (if nonce % 8192 == 0 then reads + 1 else reads))
unfolding grind_from
grind_from-step j fuel nonce reads h = rw (render-u64 nonce h, grind_from) refl

-- What a found nonce is: the first from `start` on whose id meets the difficulty.
pub record Found (j : Job) (start : ℕ) (out : List Tag) (id : Bytes) : Type 0 where
  pub nonce : ℕ
  pub from_start : start ≤ nonce
  pub tagged : out ≡ j.tags ++ nonce_tag nonce j.difficulty ∷ []
  pub hashed : id ≡ tried j nonce
  pub meets : j.difficulty ≤ leading_zero_bits id
  pub first : (m : ℕ) → start ≤ m → m < nonce → leading_zero_bits (tried j m) < j.difficulty

Found-here :
    (j : Job) (fuel nonce reads : ℕ) (out : List Tag) (id : Bytes)
    → nonce < 2 ^ 64
    → grind_from j (suc fuel) nonce reads ≡ some (ok (out, id))
    → leb j.difficulty (leading_zero_bits (tried j nonce)) ≡ true
    → Found j nonce out id
Found-here j fuel nonce reads out id h e met =
    let step = grind_from-step j fuel nonce reads h in
    let hashed : id ≡ tried j nonce = ground (arith, step) in
    record {
      nonce = nonce;
      from_start = omega arith;
      tagged = ground (arith, step);
      hashed = hashed;
      meets = rw hashed (ground arith);
      first = λ m low high. absurd (omega arith);
    }

Found-later :
    (j : Job) (start : ℕ) (out : List Tag) (id : Bytes)
    → leb j.difficulty (leading_zero_bits (tried j start)) ≡ false
    → Found j (start + 1) out id
    → Found j start out id
Found-later j start out id short f = record {
  nonce = f.nonce;
  from_start = omega arith;
  tagged = f.tagged;
  hashed = f.hashed;
  meets = f.meets;
  first = λ m low high. elim (Bool-cases (m == start)) [
    | inl same ↦ rw ((==_iff m start).0 same) (ground arith)
    | inr other ↦ f.first m (ground arith) high
  ];
}

pub grind_from-Found :
    (j : Job) (fuel nonce reads : ℕ) (out : List Tag) (id : Bytes)
    → nonce + fuel ≤ 2 ^ 64
    → grind_from j fuel nonce reads ≡ some (ok (out, id))
    → Found j nonce out id
grind_from-Found j zero nonce reads out id h e = absurd (unfold grind_from in cc)
grind_from-Found j (suc fuel) nonce reads out id h e =
    elim (Bool-cases (leb j.difficulty (leading_zero_bits (tried j nonce)))) [
      | inl met ↦ Found-here j fuel nonce reads out id (omega arith) e met
      | inr short ↦ Found-later j nonce out id short (
          grind_from-Found j fuel (nonce + 1) (if nonce % 8192 == 0 then reads + 1 else reads) out
            id (omega arith) (ground (arith, grind_from-step j fuel nonce reads (omega arith))))
    ]

-- An error is the clock's: the time was up at one of its readings.
pub grind_from-late :
    (j : Job) (fuel nonce reads : ℕ) (e : MineError)
    → nonce + fuel ≤ 2 ^ 64
    → grind_from j fuel nonce reads ≡ some (err e)
    → (e ≡ gave_up j.max_ms j.difficulty) × ((i : ℕ) × (reads ≤ i) × (is_late j i ≡ true))
grind_from-late j zero nonce reads e h p = absurd (unfold grind_from in cc)
grind_from-late j (suc fuel) nonce reads e h p =
    let step = grind_from-step j fuel nonce reads (omega arith) in
    elim (Bool-cases (nonce % 8192 == 0 && is_late j reads)) [
      | inl stop ↦ (ground (arith, step), (reads, omega arith, ground arith))
      | inr on ↦
          let reads' = if nonce % 8192 == 0 then reads + 1 else reads in
          let (same, later) =
            grind_from-late j fuel (nonce + 1) reads' e (omega arith) (ground (arith, step)) in
          (same, (later.0, ground (arith, later.1), later.2))
    ]

-- The loop ends no later than at the reading `k + 1` of the clock, if that one is late.
pub grind_from-ends :
    (j : Job) (k fuel nonce reads : ℕ)
    → nonce + fuel ≤ 2 ^ 64
    → reads ≡ (nonce + 8191) / 8192 + 1
    → nonce ≤ 8192 * k
    → 8192 * k < nonce + fuel
    → is_late j (k + 1) ≡ true
    → grind_from j fuel nonce reads ≢ none
grind_from-ends j k zero nonce reads h r below enough late p = absurd (omega arith)
grind_from-ends j k (suc fuel) nonce reads h r below enough late p =
    let step = grind_from-step j fuel nonce reads (omega arith) in
    elim (Bool-cases (nonce == 8192 * k)) [
      | inl last ↦
          let reading : reads ≡ k + 1 = ground arith in
          let late' : is_late j reads ≡ true = rw reading late in
          let tick : nonce % 8192 == 0 ≡ true = ground arith in ground (arith, step)
      | inr on ↦
          let reads' = if nonce % 8192 == 0 then reads + 1 else reads in
          grind_from-ends j k fuel (nonce + 1) reads' (omega arith) (ground arith) (ground arith)
            (ground arith) late (ground (arith, step))
    ]
