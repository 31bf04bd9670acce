-- ===== src/Stats/Histogram.antt =====
-- stats/hist.go: an exponential histogram of durations. Counts are uint64 and indices int32, with
-- their wrap-around; the sums and bounds in seconds are float64.
pub mod Buckets
use lymbo.Base.{
  ℕ, zero, suc, ◌+◌, ◌%◌, ◌^◌, ℤ, pos, pos_part, ◌-ℤ◌, ◌+ℤ◌, wrap32, ltb_ℤ, List, [], ◌∷◌, ◌++◌,
  Bool, true, false, if◌then◌else◌, length,
}
use lymbo.Ticket.{Floats}

pub record Hist : Type 0 where
  pub scale : ℤ
  pub count : ℕ
  pub sum_sec : ℕ
  pub min_sec : ℕ
  pub max_sec : ℕ
  pub zero_count : ℕ
  pub offset : ℤ
  pub counts : List ℕ

-- c++ on a uint64
abbrev pub inc64 : ℕ → ℕ
inc64 c = (c + 1) % 2 ^ 64

-- make([]uint64, n)
abbrev pub zeros : ℕ → List ℕ
zeros zero = []
zeros (suc n) = 0 ∷ zeros n

-- counts[i]++, where i is in range
unfoldable pub inc_at : ℕ → List ℕ → List ℕ
inc_at i [] = []
inc_at zero (c ∷ cs) = inc64 c ∷ cs
inc_at (suc i) (c ∷ cs) = c ∷ inc_at i cs

-- counts[0] = 1
abbrev pub set_first : List ℕ → List ℕ
set_first [] = []
set_first (c ∷ cs) = 1 ∷ cs

-- The index of the last bucket.
unfoldable pub last_index : Hist → ℤ
last_index h = wrap32 (wrap32 (h.offset +ℤ pos (length h.counts)) -ℤ pos 1)

-- The switch of incBucket, where there are buckets: new ones in front, new ones behind, or none.
unfoldable pub place : ℤ → Hist → Hist
place idx h =
    let end = last_index h in
    if ltb_ℤ idx h.offset
    then record h {
      offset = idx;
      counts = set_first (zeros (pos_part (wrap32 (h.offset -ℤ idx))) ++ h.counts);
    }
    else if ltb_ℤ end idx
    then record h {
      counts =
          inc_at (pos_part (wrap32 (idx -ℤ h.offset)))
            (h.counts ++ zeros (pos_part (wrap32 (idx -ℤ end))));
    }
    else record h { counts = inc_at (pos_part (wrap32 (idx -ℤ h.offset))) h.counts }

-- incBucket
unfoldable pub inc_bucket : ℤ → Hist → Hist
unfolding place
inc_bucket idx h = elim h.counts [
  | [] ↦ record h { offset = idx; counts = 1 ∷ [] }
  | _ ∷ _ ↦ place idx h
]

-- math.Inf(1), math.Inf(-1) and 0.0
abbrev pub infinity : ℕ
infinity = 0x7ff0_0000_0000_0000

abbrev pub minus_infinity : ℕ
minus_infinity = 0xfff0_0000_0000_0000

abbrev pub float_zero : ℕ
float_zero = 0

abbrev pub new_hist : ℤ → Hist
new_hist scale = record {
  scale = scale;
  count = 0;
  sum_sec = float_zero;
  min_sec = infinity;
  max_sec = minus_infinity;
  zero_count = 0;
  offset = pos 0;
  counts = [];
}

-- mapToIndex, at a scale that is not negative: float64(int64(1) << scale) is a power of two.
unfoldable pub map_to_index : Floats → ℕ → ℤ → ℤ
map_to_index fl x scale =
    fl.to_int32 (fl.floor (fl.times (fl.logarithm2 x) (fl.of_int (pos (2 ^ pos_part scale)))))

-- The count, the sum and the bounds with one more duration of x seconds.
unfoldable pub observe : Floats → ℕ → Hist → Hist
observe fl x h = record h {
  count = inc64 h.count;
  sum_sec = fl.plus h.sum_sec x;
  min_sec = if fl.lt x h.min_sec then x else h.min_sec;
  max_sec = if fl.lt h.max_sec x then x else h.max_sec;
}

-- RecordDuration
unfoldable pub record_duration : Floats → ℤ → Hist → Hist
unfolding observe
record_duration fl d h =
    let x = fl.seconds d in
    let h' = observe fl x h in
    if fl.lt x float_zero
    then h
    else if fl.eq x float_zero
    then record h' { zero_count = inc64 h'.zero_count }
    else inc_bucket (map_to_index fl x h'.scale) h'
