-- ===== src/Walletd/Log.antt =====
-- walletd-mobile/src/lib.rs: the ring of log lines, the logger and its level.
pub mod Ring
use zkas_signer.Prelude.{
  ℕ, ◌+◌, Bool, true, false, ◌&&◌, not, List, [], ◌∷◌, ◌++◌, length, leb, if◌then◌else◌, codes,
}
use zkas_signer.Text.{Str, to_string, join}

-- `log::Level`, and `log::LevelFilter` with its `Off`.
pub data Level : Type 0 where
  off error_ warn info debug trace : Level

abbrev pub rank : Level → ℕ
rank off = 0
rank error_ = 1
rank warn = 2
rank info = 3
rank debug = 4
rank trace = 5

abbrev pub level_name : Level → Str
level_name off = codes "OFF"
level_name error_ = codes "ERROR"
level_name warn = codes "WARN"
level_name info = codes "INFO"
level_name debug = codes "DEBUG"
level_name trace = codes "TRACE"

-- A record of the `log` facade.
pub record Record : Type 0 where
  pub level : Level
  pub target : Str
  pub args : Str

-- The statics that logging reads and writes: `LOG_RING` and whether its lock is poisoned,
-- `LOGGER_SET`, whether `RingLogger` is the facade's logger, the facade's maximal level, and how
-- many times the clock was read.
pub record Logging : Type 0 where
  pub ring : List Str
  pub ring_poisoned : Bool
  pub logger_set : Bool
  pub installed : Bool
  pub max_level : Level
  pub reads : ℕ

abbrev pub log_ring_cap : ℕ
log_ring_cap = 3000

-- `while r.len() >= LOG_RING_CAP { r.pop_front(); }`
unfoldable pub make_room : List Str → List Str
make_room [] = []
make_room (line ∷ r) =
    let rest = make_room r in if leb log_ring_cap (length (line ∷ r)) then rest else line ∷ r

unfoldable pub push_line : List Str → Str → List Str
push_line r line = make_room r ++ line ∷ []

-- `format!("{secs} [{}] {}: {}", …)`
unfoldable pub format_line : ℕ → Record → Str
format_line secs r =
    to_string secs
    ++ (codes " [" ++ (level_name r.level ++ (codes "] " ++ (r.target ++ (codes ": " ++ r.args)))))

unfoldable pub enabled : Logging → Level → Bool
enabled s level = leb (rank level) (rank s.max_level)

-- `set_boxed_logger` fails, which is not looked at, if the app has a logger already; `free` says
-- that it has none.
unfoldable pub install_logger : Bool → Logging → Logging
install_logger free s =
    if s.logger_set then s else record s { logger_set = true; installed = free; max_level = info }

unfoldable pub logs : Logging → Str
logs s = if s.ring_poisoned then [] else join (codes "\n") s.ring

unfoldable pub set_debug_logs : Bool → Logging → Logging
set_debug_logs on s = record s { max_level = if on then debug else info }

-- `clock i` is the reading number `i` of the seconds since the epoch.
module _ (clock : ℕ → ℕ) where
  unfoldable pub ring_log : Record → Logging → Logging
  ring_log r s = if not (enabled s r.level) then s else record s {
    reads = s.reads + 1;
    ring = if s.ring_poisoned then s.ring else push_line s.ring (format_line (clock s.reads) r);
  }

  -- A call of a logging macro: it looks at the maximal level first.
  unfoldable pub log_record : Record → Logging → Logging
  log_record r s = if s.installed && enabled s r.level then ring_log r s else s
