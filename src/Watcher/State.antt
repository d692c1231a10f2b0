-- ===== src/Watcher/State.antt =====
-- What the loop of src/bin/malkuth/watcher.rs keeps, and what one pass meets: the times it reads (milliseconds,
-- which do not run over), the outcome of each watch and stat, what the event channel yields, and whether
-- somebody still receives.
use malkuth.Prelude.{ℕ_key, string_key, Dict, ℕ, Bool, Option, List}
use malkuth.Watcher.Paths.{FilePath, path_key}

abbrev pub default_debounce : ℕ
default_debounce = 3000

abbrev pub watch_retry_delay : ℕ
watch_retry_delay = 5000

abbrev pub poll_interval : ℕ
poll_interval = 5000

pub data RecursiveMode : Type 0 where
  recursive non_recursive : RecursiveMode

pub record FileIdentity : Type 0 where
  pub inode : ℕ
  pub size : ℕ
  pub modified : Option ℕ

-- What `EventKind` tells apart here.
pub data EventKind : Type 0 where
  create modify modify_name remove other : EventKind

pub record Event : Type 0 where
  pub kind : EventKind
  pub paths : List FilePath

-- What `recv_timeout` yields.
pub data Received : Type 0 where
  event : Event → Received
  watch_error timeout disconnected : Received

-- What one pass meets: `later` is the clock where the pass reads it again.
pub record Turn : Type 0 where
  pub now : ℕ
  pub later : ℕ
  pub arm_watch : FilePath → RecursiveMode → Bool
  pub file_identity : FilePath → Option FileIdentity
  pub received : Received
  pub receiver_open : Bool

pub record Failed : Type 0 where
  pub path : FilePath
  pub mode : RecursiveMode
  pub at : ℕ

pub record Watch : Type 0 where
  pub pending : List FilePath
  pub window_end : Option ℕ
  pub failed : List Failed
  pub identity : Dict FilePath (Option FileIdentity)
  pub next_poll : ℕ

-- How a pass ends: the loop goes on, with the batch it delivered if any, or it breaks.
pub data Outcome : Type 0 where
  goes_on : Option (List FilePath) → Watch → Outcome
  breaks : Outcome
