-- ===== src/Collector.antt =====
-- prometheus/prometheus.go: the samples that a scrape collects. The descriptions and the encoding of a
-- sample are the client library's; a bucket map has floats as keys, which `==` of Go compares.
pub mod Cumulative
use lymbo.Base.{
  ℕ, suc, ◌+◌, ◌%◌, ◌^◌, String, ℤ, pos, ◌+ℤ◌, eqb_ℤ, wrap32, nat_eq, List, [], ◌∷◌, ◌++◌, Bool,
  true, false, if◌then◌else◌,
}
use lymbo.Ticket.{Floats}
use lymbo.Stats.{Key, Measurers, Measurements, Stats, snapshot}
use lymbo.Stats.Histogram.{Hist}

-- map[float64]uint64
abbrev pub Buckets : Type 0
Buckets = List (ℕ × ℕ)

pub data Duration : Type 0 where
  process queue_wait : Duration

pub data Sample : Type 0 where
  counter : ℕ → String → Key → Sample
  histogram : Duration → Key → ℕ → ℕ → Buckets → Sample
  workers : ℕ → Sample

-- operationCounters
abbrev pub operation_counters : List (String × (Measurements → ℤ))
operation_counters =
    ("added", λ m. m.added)
    ∷ ("polled", λ m. m.polled)
    ∷ ("acked", λ m. m.acked)
    ∷ ("failed", λ m. m.failed)
    ∷ ("done", λ m. m.finished)
    ∷ ("retried", λ m. m.retried)
    ∷ ("canceled", λ m. m.canceled)
    ∷ ("deleted", λ m. m.deleted)
    ∷ ("expired", λ m. m.expired)
    ∷ ("processed", λ m. m.processed)
    ∷ []

module _ (fl : Floats) where
  -- buckets[bound] = cumulative
  unfoldable pub put_bucket : ℕ → ℕ → Buckets → Buckets
  put_bucket bound total [] = (bound, total) ∷ []
  put_bucket bound total ((b, c) ∷ buckets) =
      if fl.eq b bound then (b, total) ∷ buckets else (b, c) ∷ put_bucket bound total buckets

  -- math.Exp2(float64(idx+1) / math.Exp2(float64(hs.Scale)))
  unfoldable pub upper_bound : ℤ → ℤ → ℕ → ℕ
  upper_bound scale offset i =
      let idx = wrap32 (offset +ℤ wrap32 (pos i)) in
      fl.exponential2
        (fl.over (fl.of_int (wrap32 (idx +ℤ pos 1))) (fl.exponential2 (fl.of_int scale)))

  -- The loop over the counts, from the i-th on.
  unfoldable pub fill_buckets : ℤ → ℤ → ℕ → ℕ → List ℕ → Buckets → Buckets
  unfolding put_bucket upper_bound
  fill_buckets scale offset i cumulative [] buckets = buckets
  fill_buckets scale offset i cumulative (c ∷ counts) buckets =
      let total = (cumulative + c) % 2 ^ 64 in
      fill_buckets scale offset (suc i) total counts
        (put_bucket (upper_bound scale offset i) total buckets)

  -- emitHistogram
  unfoldable pub emit_histogram : Duration → Key → Hist → List Sample
  unfolding fill_buckets
  emit_histogram d key h =
      if nat_eq h.count 0
      then []
      else histogram d key h.count h.sum_sec (fill_buckets h.scale h.offset 0 0 h.counts []) ∷ []

  -- The loop over the operations.
  unfoldable pub emit_counters :
      List (String × (Measurements → ℤ)) → Key → Measurements → List Sample
  emit_counters [] key m = []
  emit_counters ((label, get) ∷ operations) key m =
      let rest = emit_counters operations key m in
      if eqb_ℤ (get m) (pos 0) then rest else counter (fl.of_int (get m)) label key ∷ rest

  unfoldable pub emit_all : List (Key × Measurers) → List Sample
  unfolding emit_histogram emit_counters
  emit_all [] = []
  emit_all ((key, m) ∷ rest) =
      (emit_counters operation_counters key (snapshot m)
        ++ (emit_histogram process key m.process_duration
            ++ emit_histogram queue_wait key m.queue_wait_duration))
      ++ emit_all rest

  -- Collect
  unfoldable pub collect : Stats → List Sample
  unfolding emit_all
  collect st = emit_all st.by_key ++ workers (fl.of_int st.running_workers) ∷ []
