-- ===== src/Walletd/Config/Residency.antt =====
-- What the memory budget allows.
use zkas_signer.Prelude.{ℕ, ◌+◌, ◌*◌, ◌≤◌, ◌<◌, ◌≡◌, ◌⊎◌, arith}
use zkas_signer.Walletd.Config.{resident_wallets}

-- At least one wallet is resident; with a reported budget the wallets' 192 MB each stay within half
-- of it, or there is one only, and one more wallet would pass the half.
pub resident_wallets-fits :
    (budget : ℕ)
    → (1 ≤ resident_wallets budget)
      × (0 < budget
          → ((resident_wallets budget ≡ 1) ⊎ (192 * resident_wallets budget * 2 ≤ budget))
            × (budget < 192 * (resident_wallets budget + 1) * 2))
unfolding resident_wallets
resident_wallets-fits budget = ground arith
