-- ===== src/Walletd/Log/Ring.antt =====
-- The ring holds the last lines that were logged, and never more than its capacity.
use zkas_signer.Prelude.{
  ℕ, zero, suc, ◌+◌, ◌-◌, ◌≤◌, ◌≡◌, ◌∙◌, refl, sym, ap, true, false, List, [], ◌∷◌, ◌++◌,
  append_assoc, append-nil, length, length-append, drop, leb, if◌then◌else◌, arith, Bool-cases, inl,
  inr,
}
use zkas_signer.Text.{Str}
use zkas_signer.Walletd.Log.{
  Level, rank, Record, Logging, make_room, push_line, format_line, enabled, ring_log, log_record,
}

-- The last `n` of a list.
abbrev pub last {ℓ} : {A : Type ℓ} → ℕ → List A → List A
last n xs = drop (length xs - n) xs

drop-step {ℓ} :
    {A : Type ℓ} (k n : ℕ) (x : A) (xs : List A) → k ≡ suc n → drop k (x ∷ xs) ≡ drop n xs
drop-step k n x xs h = rw h refl

drop-none {ℓ} : {A : Type ℓ} (k : ℕ) (xs : List A) → k ≡ 0 → drop k xs ≡ xs
drop-none k xs h = rw h refl

make_room-last : (r : List Str) → make_room r ≡ last 2999 r
unfolding make_room
make_room-last [] = refl
make_room-last (line ∷ r) = elim (Bool-cases (leb 3000 (length (line ∷ r)))) [
  | inl full ↦
      rw full (make_room-last r ∙ sym (drop-step _ (length r - 2999) line r (ground arith)))
  | inr room ↦ rw room (sym (drop-none _ (line ∷ r) (ground arith)))
]

module _ {ℓ} {A : Type ℓ} where
  pub drop_append_le :
      (k : ℕ) (xs ys : List A) → k ≤ length xs → drop k (xs ++ ys) ≡ drop k xs ++ ys
  drop_append_le zero xs ys h = refl
  drop_append_le (suc k) [] ys h = absurd (omega arith)
  drop_append_le (suc k) (x ∷ xs) ys h = drop_append_le k xs ys (omega arith)

  pub length-drop : (k : ℕ) (xs : List A) → length (drop k xs) ≡ length xs - k
  length-drop zero xs = omega arith
  length-drop (suc k) [] = omega arith
  length-drop (suc k) (x ∷ xs) = omega (arith, length-drop k xs)

  drop-nil : (n : ℕ) → ◌≡◌ {A = List A} (drop n []) []
  drop-nil zero = refl
  drop-nil (suc n) = refl

  drop-drop : (a b : ℕ) (xs : List A) → drop a (drop b xs) ≡ drop (b + a) xs
  drop-drop a zero xs = ap (λ m. drop m xs) (omega arith)
  drop-drop a (suc b) [] = drop-nil a ∙ sym (drop-nil (suc b + a))
  drop-drop a (suc b) (x ∷ xs) = drop-drop a b xs ∙ sym (drop-step _ (b + a) x xs (omega arith))

  -- Keeping the last elements at each step is keeping them at the end.
  pub last-last_append : (n : ℕ) (xs ys : List A) → last n (last n xs ++ ys) ≡ last n (xs ++ ys)
  last-last_append n xs ys =
      let k = length xs - n in
      let whole : drop k xs ++ ys ≡ drop k (xs ++ ys) =
        sym (drop_append_le k xs ys (omega arith)) in
      let size = length-drop k (xs ++ ys) in
      let total = length-append xs ys in
      let rest : k + (length (drop k (xs ++ ys)) - n) ≡ length (xs ++ ys) - n =
        omega (arith, size, total) in
      rw whole
        (drop-drop (length (drop k (xs ++ ys)) - n) k (xs ++ ys) ∙ ap (λ m. drop m (xs ++ ys)) rest)

  pub length-last : (n : ℕ) (xs : List A) → length (last n xs) ≤ n
  length-last n xs = omega (arith, length-drop (length xs - n) xs)

push_line-last : (r : List Str) (line : Str) → push_line r line ≡ last 3000 (r ++ line ∷ [])
unfolding push_line
push_line-last r line =
    let k = length r - 2999 in
    rw (make_room-last r) (
      sym (drop_append_le k r (line ∷ []) (omega arith))
      ∙ ap (λ m. drop m (r ++ line ∷ [])) (omega (arith, length-append r (line ∷ []))))

pub length-push_line : (r : List Str) (line : Str) → length (push_line r line) ≤ 3000
length-push_line r line = rw (push_line-last r line) (length-last 3000 (r ++ line ∷ []))

module _ (clock : ℕ → ℕ) where
  -- A sequence of calls of the logging macros.
  abbrev pub log_all : List Record → Logging → Logging
  log_all [] s = s
  log_all (r ∷ rs) s = log_all rs (log_record clock r s)

  -- The lines of the records that the level lets through, `reads` counting the clock's readings.
  abbrev pub shown : ℕ → Level → List Record → List Str
  shown reads level [] = []
  shown reads level (r ∷ rs) =
      let some_ = shown reads level rs in
      let next = shown (reads + 1) level rs in
      if leb (rank r.level) (rank level) then format_line (clock reads) r ∷ next else some_

  log_record-on :
      (r : Record) (s : Logging)
      → s.installed ≡ true
      → s.ring_poisoned ≡ false
      → leb (rank r.level) (rank s.max_level) ≡ true
      → log_record clock r s
        ≡ record s { reads = s.reads + 1; ring = push_line s.ring (format_line (clock s.reads) r) }
  unfolding log_record ring_log enabled
  log_record-on r s i p e = rw (i, e, p) refl

  log_record-off :
      (r : Record) (s : Logging)
      → leb (rank r.level) (rank s.max_level) ≡ false
      → log_record clock r s ≡ s
  unfolding log_record enabled
  log_record-off r s e = ground (arith, e)

  -- After any calls of the logging macros the ring is the last 3000 of its lines and the new ones,
  -- in their order: those whose level is let through, once the ring's logger is installed and as
  -- long as the ring's lock is not poisoned.
  pub log_all-last :
      (rs : List Record) (s : Logging)
      → s.installed ≡ true
      → s.ring_poisoned ≡ false
      → length s.ring ≤ 3000
      → (log_all rs s).ring ≡ last 3000 (s.ring ++ shown s.reads s.max_level rs)
  log_all-last [] s i p h =
      sym (drop-none _ (s.ring ++ []) (omega (arith, length-append s.ring [])) ∙ append-nil s.ring)
  log_all-last (r ∷ rs) s i p h = elim (Bool-cases (leb (rank r.level) (rank s.max_level))) [
    | inr e ↦ ap (λ u. (log_all rs u).ring) (log_record-off r s e) ∙ rw e (log_all-last rs s i p h)
    | inl e ↦
        let line = format_line (clock s.reads) r in
        let t : Logging = record s { reads = s.reads + 1; ring = push_line s.ring line } in
        rw e (
          ap (λ u. (log_all rs u).ring) (log_record-on r s i p e)
          ∙ log_all-last rs t i p (length-push_line s.ring line)
          ∙ ap (λ w. last 3000 (w ++ shown (s.reads + 1) s.max_level rs))
              (push_line-last s.ring line)
          ∙ last-last_append 3000 (s.ring ++ line ∷ []) (shown (s.reads + 1) s.max_level rs)
          ∙ ap (last 3000) (append_assoc s.ring (line ∷ []) (shown (s.reads + 1) s.max_level rs)))
  ]
