-- ===== src/Event/Mine/Outcome.antt =====
-- What mining returns, that it cannot panic, and that the clock ends it.
use zkas_signer.Prelude.{
  ℕ, ◌+◌, ◌-◌, ◌*◌, ◌^◌, ◌≤◌, ◌<◌, ◌≡◌, ◌≢◌, refl, ap, ◌∙◌, List, [], ◌∷◌, ◌++◌, Option, none, some,
  ltb→lt, arith, Result, ok, err,
}
use zkas_signer.Text.{Str, Bytes, as_bytes}
use zkas_signer.Event.Canonical.{Tag}
use zkas_signer.Event.Id.{event_id}
use zkas_signer.Event.Difficulty.{leading_zero_bits}
use zkas_signer.Event.Mine.{
  MineError, gave_up, Job, attempt, is_late, nonce_tag, tags_open, grind_from, job, mine,
}
use zkas_signer.Event.Mine.Loop.{tried, grind_from-Found, grind_from-late, grind_from-ends}
use zkas_signer.Event.Mine.FastPath.{tags_open_lem, canonical_around, as_bytes-parts}

module _ (sha256 : Bytes → Bytes) (fuel : ℕ) (pubkey : Str) (created_at kind : ℕ) (tags : List Tag)
    (content : Str) (difficulty max_ms : ℕ) (clock : ℕ → ℕ) where
  -- `mine` with the arguments of the section, and the event that it makes of a nonce.
  abbrev pub mine_here : Option (Result (List Tag × Bytes) MineError)
  mine_here = mine sha256 fuel pubkey created_at kind tags content difficulty max_ms clock

  abbrev pub tags_with : ℕ → List Tag
  tags_with nonce = tags ++ nonce_tag nonce difficulty ∷ []

  abbrev pub id_with : ℕ → Bytes
  id_with nonce = event_id sha256 pubkey created_at kind (tags_with nonce) content

  -- the loop that `mine` runs
  abbrev here : Str → Job
  here = job sha256 pubkey created_at kind tags content difficulty max_ms clock

  tried-id_with :
      (opened : Str) (nonce : ℕ)
      → tags_open tags ≡ some opened
      → tried (here opened) nonce ≡ id_with nonce
  unfolding attempt job event_id
  tried-id_with opened nonce e =
      let (opened', e', row) = tags_open_lem tags (nonce_tag nonce difficulty) in
      let same : opened' ≡ opened = cc in
      let text =
        canonical_around pubkey created_at kind tags content difficulty nonce opened
          (rw same at row) in
      ap sha256 (as_bytes-parts _ _ nonce ∙ ap as_bytes text)

  mine-grind_from :
      (opened : Str) × (tags_open tags ≡ some opened)
      × (mine_here ≡ grind_from (here opened) fuel 0 1)
  unfolding mine
  mine-grind_from =
      let (opened, e, row) = tags_open_lem tags (nonce_tag 0 difficulty) in
      (opened, e, rw (e, mine) refl)

  -- If mining, with fuel for at most 2 ^ 64 nonces, returns tags and an id, then for some nonce
  -- the tags are those given and the tag of that nonce, the id is that of the event with these
  -- tags, computed by the canonical serializer, it has the difficulty asked for, and no smaller
  -- nonce has it.
  pub mine-Mined :
      (out : List Tag) (id : Bytes)
      → fuel ≤ 2 ^ 64
      → mine_here ≡ some (ok (out, id))
      → (nonce : ℕ) × (out ≡ tags_with nonce)
        × (id ≡ event_id sha256 pubkey created_at kind out content)
        × (difficulty ≤ leading_zero_bits id)
        × ((m : ℕ) → m < nonce → leading_zero_bits (id_with m) < difficulty)
  unfolding job
  mine-Mined out id h e =
      let (opened, at, run) = mine-grind_from in
      let f = grind_from-Found (here opened) fuel 0 1 out id (omega arith) (cc) in
      (
        f.nonce,
        f.tagged,
        rw f.tagged (f.hashed ∙ tried-id_with opened f.nonce at),
        f.meets,
        λ m below. rw (tried-id_with opened m at) at (f.first m (omega arith) below),
      )

  -- With fuel for at most 2 ^ 64 nonces mining never panics: it fails only because the time is up
  -- at some reading of the clock after the first.
  pub mine-late :
      (e : MineError)
      → fuel ≤ 2 ^ 64
      → mine_here ≡ some (err e)
      → (e ≡ gave_up max_ms difficulty) × ((i : ℕ) × (1 ≤ i) × (max_ms < clock i - clock 0))
  unfolding job is_late
  mine-late e h p =
      let (opened, at, run) = mine-grind_from in
      let (same, (i, positive, late)) =
        grind_from-late (here opened) fuel 0 1 e (omega arith) (cc) in
      (same, (i, positive, ltb→lt _ _ late))

  -- Mining ends: once the reading `k + 1` of the clock is more than `max_ms` after the first, no
  -- more than `8192 * k + 1` nonces are tried.
  pub mine-ends :
      (k : ℕ)
      → max_ms < clock (k + 1) - clock 0
      → 8192 * k < fuel
      → fuel ≤ 2 ^ 64
      → mine_here ≢ none
  unfolding job is_late
  mine-ends k late enough h p =
      let (opened, at, run) = mine-grind_from in
      grind_from-ends (here opened) k fuel 0 1 (omega arith) (omega arith) (omega arith)
        (omega arith) (ground arith) (cc)
