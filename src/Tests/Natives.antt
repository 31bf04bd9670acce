-- ===== src/Tests/Natives.antt =====
-- A snapshot of a histogram as a native histogram.
use lymbo.Base.{◌≡◌, pos, negsuc, [], ◌∷◌, arith}
use lymbo.Errors.{ok}
use lymbo.Stats.Native.{HistogramSnapshot, PromNativeHistogram, to_prom_native}
use lymbo.Stats.Native.RoundTrip.{Holds, to_prom_native_lem}

-- Buckets with gaps, of which one is longer than one bucket.
abbrev gaps : HistogramSnapshot
gaps = record {
  count = 9;
  sum_sec = 3;
  min_sec = 0;
  max_sec = 2;
  zero_count = 1;
  scale = pos 2;
  offset = negsuc 3;
  counts = 2 ∷ 3 ∷ 0 ∷ 0 ∷ 1 ∷ 0 ∷ 2 ∷ [];
  start = pos 1;
  end = pos 5;
}

to_prom_native_lem_example :
    (out : PromNativeHistogram) × (to_prom_native gaps ≡ ok out) × Holds gaps out
to_prom_native_lem_example = to_prom_native_lem gaps (omega arith) (omega arith) (omega arith)
