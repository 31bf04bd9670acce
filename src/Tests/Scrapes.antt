-- ===== src/Tests/Scrapes.antt =====
-- A histogram as a scrape collects it.
use lymbo.Base.{get_elem?, zero, suc, ◌≡◌, refl, pos, [], ◌∷◌, some, arith, ◌+ℤ◌, wrap32, length}
use lymbo.Stats.{Key}
use lymbo.Stats.Histogram.{Hist}
use lymbo.Collector.{Buckets, process, histogram, upper_bound, emit_histogram}
use lymbo.Collector.Cumulative.{Apart, sum_first, emit_histogram-cumulative}
use lymbo.Tests.Fixtures.{floats}

-- Four durations of zero and seven others.
abbrev recorded : Hist
recorded = record {
  scale = pos 0;
  count = 11;
  sum_sec = 30;
  min_sec = 0;
  max_sec = 7;
  zero_count = 4;
  offset = pos 0;
  counts = 2 ∷ 0 ∷ 5 ∷ [];
}

abbrev key : Key
key = record { type = "mail"; tube = "slow" }

recorded-Apart : Apart floats (pos 0) (pos 0) 3
unfolding ◌+ℤ◌ upper_bound wrap32
recorded-Apart zero zero lt below = ground arith
recorded-Apart zero (suc zero) lt below = refl
recorded-Apart zero (suc (suc zero)) lt below = refl
recorded-Apart (suc zero) zero lt below = ground arith
recorded-Apart (suc zero) (suc zero) lt below = ground arith
recorded-Apart (suc zero) (suc (suc zero)) lt below = refl
recorded-Apart (suc (suc j)) k lt below = ground arith
recorded-Apart j (suc (suc (suc k))) lt below = ground arith

emit_histogram-cumulative_example :
    (buckets : Buckets) × (emit_histogram floats process key recorded
      ≡ histogram process key 11 30 buckets ∷ [])
    × (length buckets ≡ 3)
    × (get_elem? buckets 2 ≡ some (8, 7))
unfolding ◌+ℤ◌ upper_bound wrap32 sum_first
emit_histogram-cumulative_example =
    emit_histogram-cumulative floats process key recorded 2 (omega arith) recorded-Apart
      (omega arith)
