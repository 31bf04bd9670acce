-- ===== src/Settings.antt =====
-- settings.go: the settings of a Kharon, their builders and their normalisation.
-- Counts are Go ints and durations are nanoseconds, both as integers.
pub mod Normal
pub mod OnlyTubes
use lymbo.Base.{
  ℕ, ◌*◌, String, ℤ, pos, ltb_ℤ, leb_ℤ, List, [], Bool, true, false, ◌==◌, not, if◌then◌else◌,
  select, is_empty,
}
use lymbo.Base.Order.{sort, compact}
use lymbo.Ticket.{Floats}

pub record Settings : Type 0 where
  pub process_time : ℤ
  pub max_backoff_delay : ℤ
  pub backoff_base : ℕ
  pub max_reaction_delay : ℤ
  pub min_reaction_delay : ℤ
  pub batch_size : ℤ
  pub workers : ℤ
  pub enable_expiration : Bool
  pub expiration_interval : ℤ
  pub shutdown_flush_timeout : ℤ
  pub flush_interval : ℤ
  pub tubes : List String
  pub tubes_on : Bool

abbrev pub millisecond : ℕ
millisecond = 1_000_000

abbrev pub min_poll_interval_default : ℤ
min_poll_interval_default = pos (10 * millisecond)

abbrev pub max_poll_interval_default : ℤ
max_poll_interval_default = pos (15_000 * millisecond)

abbrev pub flush_interval_default : ℤ
flush_interval_default = pos (100 * millisecond)

-- 1.5 as a float64, and 0.
abbrev pub default_backoff_base : ℕ
default_backoff_base = 0x3ff8_0000_0000_0000

abbrev pub float_zero : ℕ
float_zero = 0

abbrev pub default_settings : Settings
default_settings = record {
  process_time = pos (30_000 * millisecond);
  max_backoff_delay = pos (15_000 * millisecond);
  backoff_base = default_backoff_base;
  max_reaction_delay = max_poll_interval_default;
  min_reaction_delay = min_poll_interval_default;
  batch_size = pos 4;
  workers = pos 4;
  enable_expiration = true;
  expiration_interval = max_poll_interval_default;
  shutdown_flush_timeout = pos (5_000 * millisecond);
  flush_interval = flush_interval_default;
  tubes = [];
  tubes_on = false;
}

-- The builders that set one field.
unfoldable pub with_workers : ℤ → Settings → Settings
with_workers n s = record s { workers = n }

unfoldable pub with_batch_size : ℤ → Settings → Settings
with_batch_size n s = record s { batch_size = n }

unfoldable pub with_process_time : ℤ → Settings → Settings
with_process_time d s = record s { process_time = d }

unfoldable pub with_backoff_base : ℕ → Settings → Settings
with_backoff_base b s = record s { backoff_base = b }

unfoldable pub with_max_reaction_delay : ℤ → Settings → Settings
with_max_reaction_delay d s = record s { max_reaction_delay = d }

unfoldable pub with_min_reaction_delay : ℤ → Settings → Settings
with_min_reaction_delay d s = record s { min_reaction_delay = d }

unfoldable pub with_flush_interval : ℤ → Settings → Settings
with_flush_interval d s = record s { flush_interval = d }

unfoldable pub with_shutdown_flush_timeout : ℤ → Settings → Settings
with_shutdown_flush_timeout d s = record s { shutdown_flush_timeout = d }

unfoldable pub with_expiration : Settings → Settings
with_expiration s = record s { enable_expiration = true }

unfoldable pub without_expiration : Settings → Settings
without_expiration s = record s { enable_expiration = false }

unfoldable pub with_expiration_interval : ℤ → Settings → Settings
with_expiration_interval d s = record s { expiration_interval = d }

-- WithOnlyTubes: the names that are not empty, sorted and without repetition.
unfoldable pub with_only_tubes : List String → Settings → Settings
with_only_tubes names s =
    let kept = compact (sort (select (λ t. not (t == "")) names)) in
    record s { tubes = kept; tubes_on = not (is_empty kept) }

unfoldable pub enable_tubes : Settings → Settings
enable_tubes s = record s { tubes_on = true }

-- if x <= 0 { x = d }
abbrev pub positive_or : ℤ → ℤ → ℤ
positive_or d x = if leb_ℤ x (pos 0) then d else x

-- normalize, in the order of its assignments
unfoldable pub normalize : Floats → Settings → Settings
normalize fl s =
    let workers = positive_or (pos 1) s.workers in
    let longest = positive_or max_poll_interval_default s.max_reaction_delay in
    let shortest = positive_or min_poll_interval_default s.min_reaction_delay in
    let batch = positive_or (pos 1) s.batch_size in
    record s {
      workers = workers;
      min_reaction_delay = shortest;
      max_reaction_delay = if ltb_ℤ longest shortest then shortest else longest;
      batch_size = if ltb_ℤ workers batch then workers else batch;
      backoff_base =
          if fl.le s.backoff_base float_zero then default_backoff_base else s.backoff_base;
      flush_interval = positive_or flush_interval_default s.flush_interval;
      tubes_on = if is_empty s.tubes then s.tubes_on else true;
    }
