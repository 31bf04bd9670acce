-- ===== src/Stats/Counting.antt =====
-- The counters of stats/stats.go, read by their key.
use lymbo.Base.{
  ℕ, ◌≡◌, ap, ℤ, pos, add64, List, [], ◌∷◌, Bool, true, false, ◌&&◌, arith, nat_eq, if◌then◌else◌,
}
use lymbo.Stats.{
  Metric, Key, same_key, Measurers, new_measurers, inc, Stats, change_at, at, same_key_iff,
  by_key_inc,
}

pub at-change_at {ℓ} :
    {V : Type ℓ} (fresh : V) (k j : Key) (f : V → V) (ms : List (Key × V))
    → at fresh j (change_at fresh k f ms)
      ≡ (if same_key k j then f (at fresh j ms) else at fresh j ms)
unfolding at change_at
at-change_at fresh k j f [] = ground arith
at-change_at fresh k j f ((i, m) ∷ rest) =
    ground
      (arith, same_key_iff i k, same_key_iff i j, same_key_iff k j, at-change_at fresh k j f rest)

-- The counter of a metric; the metrics without one read as zero.
abbrev pub counter : Metric → Measurers → ℤ
counter Metric.add m = m.added
counter Metric.poll m = m.polled
counter Metric.ack m = m.acked
counter Metric.fail m = m.failed
counter Metric.done m = m.finished
counter Metric.retry m = m.retried
counter Metric.cancel m = m.canceled
counter Metric.delete m = m.deleted
counter Metric.expire m = m.expired
counter Metric.process m = m.processed
counter Metric.workers m = pos 0
counter Metric.task_process_duration m = pos 0

-- Whether the metric has a counter.
abbrev pub is_counted : Metric → Bool
is_counted Metric.workers = false
is_counted Metric.task_process_duration = false
is_counted _ = true

-- The value of the constant in Go.
abbrev pub metric_code : Metric → ℕ
metric_code Metric.add = 0
metric_code Metric.poll = 1
metric_code Metric.ack = 2
metric_code Metric.fail = 3
metric_code Metric.done = 4
metric_code Metric.retry = 5
metric_code Metric.cancel = 6
metric_code Metric.delete = 7
metric_code Metric.expire = 8
metric_code Metric.process = 9
metric_code Metric.workers = 10
metric_code Metric.task_process_duration = 11

counter-inc :
    (a b : Metric) (m : Measurers)
    → counter b (inc a m) ≡ (
        if nat_eq (metric_code a) (metric_code b) && is_counted a
        then add64 (counter b m) (pos 1)
        else counter b m)
unfolding inc
counter-inc Metric.add b m = ground arith
counter-inc Metric.poll b m = ground arith
counter-inc Metric.ack b m = ground arith
counter-inc Metric.fail b m = ground arith
counter-inc Metric.done b m = ground arith
counter-inc Metric.retry b m = ground arith
counter-inc Metric.cancel b m = ground arith
counter-inc Metric.delete b m = ground arith
counter-inc Metric.expire b m = ground arith
counter-inc Metric.process b m = ground arith
counter-inc Metric.workers b m = ground arith
counter-inc Metric.task_process_duration b m = ground arith

-- To count a metric for a key adds one to that counter of that key, and changes no other counter of
-- any key; the metrics that have no counter change nothing.
pub counter-by_key_inc :
    (k j : Key) (a b : Metric) (s : Stats)
    → counter b (at new_measurers j (by_key_inc k a s).by_key) ≡ (
        if same_key k j && nat_eq (metric_code a) (metric_code b) && is_counted a
        then add64 (counter b (at new_measurers j s.by_key)) (pos 1)
        else counter b (at new_measurers j s.by_key))
unfolding by_key_inc
counter-by_key_inc k j a b s = ground (
  arith,
  ap (counter b) (at-change_at new_measurers k j (inc a) s.by_key),
  counter-inc a b (at new_measurers j s.by_key),
)
