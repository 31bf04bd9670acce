-- ===== src/Stats.antt =====
-- stats/stats.go and stats/counter.go: the counters of each pair of a ticket type and a tube. The
-- locks make each method atomic; a counter is an int64.
pub mod Histogram
pub mod Native
pub mod Counting
use lymbo.Base.{
  ℕ, String, ℤ, pos, negsuc, add64, List, [], ◌∷◌, map, Bool, true, ◌&&◌, ◌==◌, if◌then◌else◌, ◌≡◌,
  ◌↔◌, arith, eq_iff,
}
use lymbo.Ticket.{Floats}
use Histogram.{Hist, new_hist, record_duration}

pub data Metric : Type 0 where
  add poll ack fail done retry cancel delete expire process workers : Metric
  task_process_duration : Metric

pub record Key : Type 0 where
  pub type : String
  pub tube : String

unfoldable pub same_key : Key → Key → Bool
same_key k j = k.type == j.type && k.tube == j.tube

pub same_key_iff : (k j : Key) → (same_key k j ≡ true) ↔ (k ≡ j)
unfolding same_key
same_key_iff k j = (
  λ h. ground (arith, eq_iff k.type j.type, eq_iff k.tube j.tube),
  λ h. ground (arith, eq_iff k.type j.type, eq_iff k.tube j.tube),
)

pub record Measurers : Type 0 where
  pub added : ℤ
  pub polled : ℤ
  pub acked : ℤ
  pub failed : ℤ
  pub finished : ℤ  -- the field done
  pub retried : ℤ
  pub canceled : ℤ
  pub deleted : ℤ
  pub expired : ℤ
  pub processed : ℤ
  pub process_duration : Hist
  pub queue_wait_duration : Hist

abbrev pub new_measurers : Measurers
new_measurers = record {
  added = pos 0;
  polled = pos 0;
  acked = pos 0;
  failed = pos 0;
  finished = pos 0;
  retried = pos 0;
  canceled = pos 0;
  deleted = pos 0;
  expired = pos 0;
  processed = pos 0;
  process_duration = new_hist (pos 2);
  queue_wait_duration = new_hist (pos 2);
}

-- Inc, with the switch of `lookup` on the metric; the last two metrics have no counter.
unfoldable pub inc : Metric → Measurers → Measurers
inc add m = record m { added = add64 m.added (pos 1) }
inc poll m = record m { polled = add64 m.polled (pos 1) }
inc ack m = record m { acked = add64 m.acked (pos 1) }
inc fail m = record m { failed = add64 m.failed (pos 1) }
inc done m = record m { finished = add64 m.finished (pos 1) }
inc retry m = record m { retried = add64 m.retried (pos 1) }
inc cancel m = record m { canceled = add64 m.canceled (pos 1) }
inc delete m = record m { deleted = add64 m.deleted (pos 1) }
inc expire m = record m { expired = add64 m.expired (pos 1) }
inc process m = record m { processed = add64 m.processed (pos 1) }
inc workers m = m
inc task_process_duration m = m

pub record Stats : Type 0 where
  pub running_workers : ℤ
  pub by_key : List (Key × Measurers)

abbrev pub new_stats : Stats
new_stats = record { running_workers = pos 0; by_key = [] }

-- ByKey, and a change of what it returns: the entry of a key is made at the first use. The two are one
-- step here; in Go a Reset between them drops the change.
unfoldable pub change_at {ℓ} : {V : Type ℓ} → V → Key → (V → V) → List (Key × V) → List (Key × V)
change_at fresh k f [] = (k, f fresh) ∷ []
change_at fresh k f ((j, v) ∷ rest) =
    let rest' = change_at fresh k f rest in if same_key j k then (j, f v) ∷ rest else (j, v) ∷ rest'

-- The value of a key; the fresh one where there is none yet.
unfoldable pub at {ℓ} : {V : Type ℓ} → V → Key → List (Key × V) → V
at fresh k [] = fresh
at fresh k ((j, v) ∷ rest) = let rest' = at fresh k rest in if same_key j k then v else rest'

unfoldable pub by_key_inc : Key → Metric → Stats → Stats
by_key_inc k metric s = record s { by_key = change_at new_measurers k (inc metric) s.by_key }

unfoldable pub inc_workers : Stats → Stats
inc_workers s = record s { running_workers = add64 s.running_workers (pos 1) }

unfoldable pub dec_workers : Stats → Stats
dec_workers s = record s { running_workers = add64 s.running_workers (negsuc 0) }

-- ObserveQueueWaitDuration and ObserveTaskProcessDuration
unfoldable pub observe_queue_wait : Floats → Key → ℤ → Stats → Stats
observe_queue_wait fl k d s = record s {
  by_key =
      change_at new_measurers k
        (λ m. record m { queue_wait_duration = record_duration fl d m.queue_wait_duration })
        s.by_key;
}

unfoldable pub observe_process : Floats → Key → ℤ → Stats → Stats
observe_process fl k d s = record s {
  by_key =
      change_at new_measurers k
        (λ m. record m { process_duration = record_duration fl d m.process_duration }) s.by_key;
}

-- Reset: the workers go on.
unfoldable pub reset : Stats → Stats
reset s = record s { by_key = [] }

-- The counters of a snapshot.
pub record Measurements : Type 0 where
  pub added : ℤ
  pub polled : ℤ
  pub acked : ℤ
  pub failed : ℤ
  pub finished : ℤ
  pub retried : ℤ
  pub canceled : ℤ
  pub deleted : ℤ
  pub expired : ℤ
  pub processed : ℤ

unfoldable pub snapshot : Measurers → Measurements
snapshot m = record {
  added = m.added;
  polled = m.polled;
  acked = m.acked;
  failed = m.failed;
  finished = m.finished;
  retried = m.retried;
  canceled = m.canceled;
  deleted = m.deleted;
  expired = m.expired;
  processed = m.processed;
}

-- One round of Total.
unfoldable pub add_measurements : Measurements → Measurements → Measurements
add_measurements t m = record {
  added = add64 t.added m.added;
  polled = add64 t.polled m.polled;
  acked = add64 t.acked m.acked;
  failed = add64 t.failed m.failed;
  finished = add64 t.finished m.finished;
  retried = add64 t.retried m.retried;
  canceled = add64 t.canceled m.canceled;
  deleted = add64 t.deleted m.deleted;
  expired = add64 t.expired m.expired;
  processed = add64 t.processed m.processed;
}

abbrev pub no_measurements : Measurements
no_measurements = record {
  added = pos 0;
  polled = pos 0;
  acked = pos 0;
  failed = pos 0;
  finished = pos 0;
  retried = pos 0;
  canceled = pos 0;
  deleted = pos 0;
  expired = pos 0;
  processed = pos 0;
}

-- Total, from the totals so far.
unfoldable pub total_from : Measurements → List (Key × Measurers) → Measurements
total_from t [] = t
total_from t ((_, m) ∷ rest) = total_from (add_measurements t (snapshot m)) rest

unfoldable pub total : Stats → Measurements
total s = total_from no_measurements s.by_key
