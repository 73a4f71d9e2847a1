-- ===== src/Walletd/Config.antt =====
-- walletd-mobile/src/lib.rs: the configuration that the engine is started with. `Config` and
-- `ResourceLimits` are structs of the crate `zkas_walletd`; `defaults` is its
-- `ResourceLimits::default()`.
pub mod Residency
use zkas_signer.Prelude.{
  ℕ, ◌+◌, ◌/◌, Bool, true, false, List, [], ◌∷◌, Option, none, some, ltb, leb, if◌then◌else◌, codes,
}
use zkas_signer.Text.{Str}

pub record ResourceLimits : Type 0 where
  pub page_decode_threads : ℕ
  pub sync_wallets : ℕ
  pub load_wallets : ℕ
  pub max_resident_wallets : ℕ
  pub warm_wallets : ℕ
  pub prefetch_depth : ℕ
  pub page_cache_ttl_secs : ℕ
  pub page_cache_entries : ℕ
  pub max_full_scan_blocks : Option ℕ

-- The address is 127.0.0.1; `tls`, `require_bearer`, `auto_consolidate` and `idle_timeout` are
-- always `None` and have no field here.
pub record Config : Type 0 where
  pub rpc_server : Str
  pub listen_port : ℕ
  pub wallet_dir : Str
  pub network : Str
  pub allow_origin : List Str
  pub allow_default_token : Bool
  pub enable_multiparty : Bool
  pub wallet_secret : Option Str
  pub allow_custodial : Bool
  pub max_concurrent_proves : ℕ
  pub build_shared_tree : Bool
  pub resources : ResourceLimits
  pub node_socks_proxy : Option Str

-- `a.max(b)`
abbrev pub max : ℕ → ℕ → ℕ
max a b = if leb a b then b else a

-- The cap on resident wallets from the app's memory budget in MB.
unfoldable pub resident_wallets : ℕ → ℕ
resident_wallets budget = if ltb 0 budget then max (budget / 2 / 192) 1 else 2

unfoldable pub resources : ResourceLimits → ℕ → ℕ → ResourceLimits
resources defaults cores budget = record defaults {
  page_decode_threads = max cores 1;
  sync_wallets = 1;
  load_wallets = 1;
  max_resident_wallets = resident_wallets budget;
  warm_wallets = 1;
  prefetch_depth = 8;
  page_cache_ttl_secs = 60;
  page_cache_entries = 8 + 2;
  max_full_scan_blocks = some 1500000;
}

-- The arguments of `start`.
pub record StartArgs : Type 0 where
  pub node_addr : Str
  pub wallet_dir : Str
  pub secret : Option Str
  pub socks : Option Str

unfoldable pub config : StartArgs → ℕ → ResourceLimits → Config
config a port limits = record {
  rpc_server = a.node_addr;
  listen_port = port;
  wallet_dir = a.wallet_dir;
  network = codes "mainnet";
  allow_origin =
      codes "http://localhost" ∷ codes "https://localhost" ∷ codes "capacitor://localhost" ∷ [];
  allow_default_token = false;
  enable_multiparty = false;
  wallet_secret = a.secret;
  allow_custodial = true;
  max_concurrent_proves = 1;
  build_shared_tree = false;
  resources = limits;
  node_socks_proxy = a.socks;
}
