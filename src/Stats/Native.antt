-- ===== src/Stats/Native.antt =====
-- Snapshot and ToPromNative of stats/hist.go: a histogram as the spans and the deltas of a native
-- histogram of Prometheus. Indices are int32, counts uint64 and deltas int64, with their wrap-around.
pub mod Deltas
pub mod Spans
pub mod Decode
pub mod RoundTrip
use lymbo.Base.{
  ℕ, zero, suc, ◌+◌, ◌%◌, ◌^◌, ℤ, pos, negsuc, ◌+ℤ◌, ◌-ℤ◌, leb_ℤ, ltb_ℤ, eqb_ℤ, wrap32, signed64,
  word64, nat_eq, List, [], ◌∷◌, ◌++◌, Option, none, some, Bool, true, false, ◌&&◌, ◌||◌,
  if◌then◌else◌, length, is_empty,
}
use lymbo.Errors.{Result, ok, err, scale_out_of_range}
use lymbo.Stats.Histogram.{Hist}
use lymbo.Ticket.{zero_time}

pub record HistogramSnapshot : Type 0 where
  pub count : ℕ
  pub sum_sec : ℕ
  pub min_sec : ℕ
  pub max_sec : ℕ
  pub zero_count : ℕ
  pub scale : ℤ
  pub offset : ℤ
  pub counts : List ℕ
  pub start : ℤ
  pub end : ℤ

pub record PromBucketSpan : Type 0 where
  pub offset : ℤ
  pub length : ℕ

pub record PromNativeHistogram : Type 0 where
  pub schema : ℤ
  pub count : ℕ
  pub sum : ℕ
  pub zero_threshold : ℕ
  pub zero_count : ℕ
  pub positive_spans : List PromBucketSpan
  pub positive_deltas : List ℤ
  pub created : Option ℤ
  pub time : ℤ

-- a - b on int64
unfoldable pub sub64 : ℤ → ℤ → ℤ
sub64 a b = signed64 (word64 (a -ℤ b))

-- The buckets that are not empty, from the i-th on, under the index of their upper bound.
unfoldable pub nonzero : ℤ → ℕ → List ℕ → List (ℤ × ℕ)
nonzero offset i [] = []
nonzero offset i (c ∷ cs) =
    let rest = nonzero offset (suc i) cs in
    if nat_eq c 0 then rest else (wrap32 (wrap32 (offset +ℤ wrap32 (pos i)) +ℤ pos 1), c) ∷ rest

-- The buckets that continue a span behind the index `prev`, and the others.
unfoldable pub span_run : ℤ → List (ℤ × ℕ) → List (ℤ × ℕ) × List (ℤ × ℕ)
span_run prev [] = ([], [])
span_run prev (b ∷ bs) =
    let (run, rest) = span_run b.0 bs in
    if eqb_ℤ b.0 (wrap32 (prev +ℤ pos 1)) then (b ∷ run, rest) else ([], b ∷ bs)

-- The deltas of the buckets of a span, and the last count.
unfoldable pub deltas : ℕ → List (ℤ × ℕ) → List ℤ × ℕ
unfolding sub64
deltas prev [] = ([], prev)
deltas prev (b ∷ bs) =
    let (ds, last) = deltas b.1 bs in (sub64 (signed64 b.1) (signed64 prev) ∷ ds, last)

-- The index of the last bucket of a span that begins at `prev`.
unfoldable pub last_of : ℤ → List (ℤ × ℕ) → ℤ
last_of prev [] = prev
last_of prev (b ∷ bs) = last_of b.0 bs

-- The outer loop, a span in each round; the first argument bounds the number of rounds.
unfoldable pub span_loop : ℕ → Bool → ℤ → ℕ → List (ℤ × ℕ) → List PromBucketSpan × List ℤ
span_loop zero first prev_end prev_abs bs = ([], [])
span_loop (suc n) first prev_end prev_abs [] = ([], [])
span_loop (suc n) first prev_end prev_abs (b ∷ bs) =
    let (run, rest) = span_run b.0 bs in
    let (ds, last) = deltas prev_abs (b ∷ run) in
    let (spans, more) = span_loop n false (last_of b.0 run) last rest in
    (
      record {
        offset = if first then b.0 else wrap32 (b.0 -ℤ wrap32 (prev_end +ℤ pos 1));
        length = suc (length run) % 2 ^ 32;
      }
          ∷ spans,
      ds ++ more,
    )

abbrev pub no_span : PromBucketSpan
no_span = record { offset = pos 0; length = 0 }

-- ToPromNative
unfoldable pub to_prom_native : HistogramSnapshot → Result PromNativeHistogram
unfolding nonzero span_loop
to_prom_native s =
    let nz = nonzero s.offset 0 s.counts in
    let (spans, ds) = span_loop (length nz) true (pos 0) 0 nz in
    let out : PromNativeHistogram = record {
      schema = s.scale;
      count = s.count;
      sum = s.sum_sec;
      zero_threshold = 0;
      zero_count = s.zero_count;
      positive_spans = [];
      positive_deltas = [];
      created = if eqb_ℤ s.start zero_time then none else some s.start;
      time = s.end;
    } in
    if ltb_ℤ s.scale (negsuc 3) || ltb_ℤ (pos 8) s.scale
    then err scale_out_of_range
    else if nat_eq s.count 0 && nat_eq s.zero_count 0 && is_empty s.counts || is_empty nz
    then ok (record out { positive_spans = no_span ∷ [] })
    else ok (record out { positive_spans = spans; positive_deltas = ds })

-- Snapshot, of a histogram that was made at `start`, at the time `now`.
unfoldable pub snapshot_at : ℤ → ℤ → Hist → HistogramSnapshot
snapshot_at start now h = record {
  count = h.count;
  sum_sec = h.sum_sec;
  min_sec = h.min_sec;
  max_sec = h.max_sec;
  zero_count = h.zero_count;
  scale = h.scale;
  offset = h.offset;
  counts = h.counts;
  start = start;
  end = now;
}
