-- ===== src/Settings/Normal.antt =====
-- What `normalize` of settings.go establishes, and that it leaves normal settings alone.
use lymbo.Base.{◌≡◌, pos, ◌≤ℤ◌, true, false, ◌||◌, arith, is_empty}
use lymbo.Ticket.{Floats}
use lymbo.Settings.{Settings, normalize, float_zero, default_backoff_base}

-- The constraints that the rest of the program relies on.
pub record IsNormal (fl : Floats) (s : Settings) : Type 0 where
  pub some_worker : pos 1 ≤ℤ s.workers
  pub some_batch : pos 1 ≤ℤ s.batch_size
  pub batch_fits : s.batch_size ≤ℤ s.workers
  pub some_delay : pos 1 ≤ℤ s.min_reaction_delay
  pub delays_ordered : s.min_reaction_delay ≤ℤ s.max_reaction_delay
  pub some_interval : pos 1 ≤ℤ s.flush_interval
  pub base_positive : fl.le s.backoff_base float_zero ≡ false
  pub tubes_enabled : (is_empty s.tubes || s.tubes_on) ≡ true

-- Where 1.5 is not at most 0, `normalize` makes any settings normal: at least one worker, a batch of
-- at least one ticket and at most one for each worker, positive delays in order, a positive flush
-- interval and backoff base, and tubes on if any are named.
pub normalize-IsNormal :
    (fl : Floats) (s : Settings)
    → fl.le default_backoff_base float_zero ≡ false
    → IsNormal fl (normalize fl s)
unfolding normalize
normalize-IsNormal fl s h = record {
  some_worker = ground arith;
  some_batch = ground arith;
  batch_fits = ground arith;
  some_delay = ground arith;
  delays_ordered = ground arith;
  some_interval = ground arith;
  base_positive = ground arith;
  tubes_enabled = ground arith;
}

-- `normalize` changes nothing in normal settings.
pub normalize_of_IsNormal : (fl : Floats) (s : Settings) → IsNormal fl s → normalize fl s ≡ s
unfolding normalize
normalize_of_IsNormal fl s n = ground arith
