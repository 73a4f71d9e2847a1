-- ===== src/Event/Difficulty.antt =====
-- chat-identity/src/event.rs: NIP-13's measure of an id.
pub mod Bits
use zkas_signer.Prelude.{ℕ, ◌+◌, ◌/◌, ◌%◌, List, [], ◌∷◌, ltb, leb, ◌==◌, if◌then◌else◌}
use zkas_signer.Text.{Bytes}

-- `u8::leading_zeros`
unfoldable pub leading_zeros : ℕ → ℕ
leading_zeros b =
    if leb 128 b
    then 0
    else if leb 64 b
    then 1
    else if leb 32 b
    then 2
    else if leb 16 b
    then 3
    else if leb 8 b
    then 4
    else if leb 4 b
    then 5
    else if leb 2 b
    then 6
    else if leb 1 b
    then 7
    else 8

-- The loop over the bytes of an id, `n` being the count so far.
unfoldable pub zero_bits_from : ℕ → Bytes → ℕ
unfolding leading_zeros
zero_bits_from n [] = n
zero_bits_from n (b ∷ id) =
    let rest = zero_bits_from (n + 8) id in if b == 0 then rest else n + leading_zeros b

unfoldable pub leading_zero_bits : Bytes → ℕ
unfolding zero_bits_from
leading_zero_bits id = zero_bits_from 0 id
