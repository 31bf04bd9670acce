-- ===== src/Collector/Cumulative.antt =====
-- The cumulative buckets of prometheus/prometheus.go.
use lymbo.Base.{
  get_elem?, ℕ, zero, suc, ◌+◌, ◌%◌, ◌^◌, ◌<◌, ◌≤◌, ◌≡◌, refl, ap, sym, ◌∙◌, ℤ, List, [], ◌∷◌, ◌++◌,
  some, true, false, not, arith, all, all-append, length,
}
use mathlib.Core.List.{append-nil, append_assoc}
use lymbo.Ticket.{Floats}
use lymbo.Stats.{Key}
use lymbo.Stats.Histogram.{Hist}
use lymbo.Collector.{
  Buckets, Duration, histogram, put_bucket, upper_bound, fill_buckets, emit_histogram,
}

-- The buckets one by one, each with the count of all up to it.
running : Floats → ℤ → ℤ → ℕ → ℕ → List ℕ → Buckets
running fl scale offset i cumulative [] = []
running fl scale offset i cumulative (c ∷ counts) =
    let total = (cumulative + c) % 2 ^ 64 in
    (upper_bound fl scale offset i, total) ∷ running fl scale offset (suc i) total counts

module _ (fl : Floats) (scale offset : ℤ) where
  -- None of the bounds of the buckets from the i-th on stands in the map already.
  abbrev Fresh : ℕ → ℕ → Buckets → Type 0
  Fresh i n buckets =
      (k : ℕ)
      → i ≤ k
      → k < n
      → all (λ b. not (fl.eq b.0 (upper_bound fl scale offset k))) buckets ≡ true

  put_bucket_new :
      (bound total : ℕ) (buckets : Buckets)
      → all (λ b. not (fl.eq b.0 bound)) buckets ≡ true
      → put_bucket fl bound total buckets ≡ buckets ++ (bound, total) ∷ []
  unfolding put_bucket all
  put_bucket_new bound total [] h = refl
  put_bucket_new bound total (b ∷ buckets) h = ground (arith, put_bucket_new bound total buckets)

  -- The bounds of the buckets below the n-th are different floats.
  abbrev pub Apart : ℕ → Type 0
  Apart n =
      (j k : ℕ)
      → j < k
      → k < n
      → fl.eq (upper_bound fl scale offset j) (upper_bound fl scale offset k) ≡ false

  append-Fresh :
      (i n total : ℕ) (buckets : Buckets)
      → Apart n
      → Fresh i n buckets
      → Fresh (suc i) n (buckets ++ (upper_bound fl scale offset i, total) ∷ [])
  unfolding all
  append-Fresh i n total buckets apart fresh k le lt = ground (
    arith,
    all-append (λ b. not (fl.eq b.0 (upper_bound fl scale offset k))) buckets
        ((upper_bound fl scale offset i, total) ∷ []),
    fresh k (omega arith) lt,
    apart i k (omega arith) lt,
  )

  fill_buckets-running :
      (n i cumulative : ℕ) (counts : List ℕ) (buckets : Buckets)
      → Apart n
      → i + length counts ≡ n
      → Fresh i n buckets
      → fill_buckets fl scale offset i cumulative counts buckets
        ≡ buckets ++ running fl scale offset i cumulative counts
  unfolding fill_buckets running
  fill_buckets-running n i cumulative [] buckets apart e fresh = sym (append-nil buckets)
  fill_buckets-running n i cumulative (c ∷ counts) buckets apart e fresh =
      let total = (cumulative + c) % 2 ^ 64 in
      let bound = upper_bound fl scale offset i in
      ap (fill_buckets fl scale offset (suc i) total counts)
        (put_bucket_new bound total buckets (fresh i (omega arith) (omega arith)))
      ∙ fill_buckets-running n (suc i) total counts (buckets ++ (bound, total) ∷ []) apart
          (omega arith) (append-Fresh i n total buckets apart fresh)
      ∙ append_assoc buckets ((bound, total) ∷ []) (running fl scale offset (suc i) total counts)

-- The sum of the first n counts.
unfoldable pub sum_first : ℕ → List ℕ → ℕ
sum_first n [] = 0
sum_first zero (c ∷ counts) = 0
sum_first (suc n) (c ∷ counts) = c + sum_first n counts

sum_zero : (c : ℕ) (counts : List ℕ) → c ≡ c + sum_first 0 counts
unfolding sum_first
sum_zero c [] = omega arith
sum_zero c (d ∷ counts) = omega arith

both : {a b c d : ℕ} → a ≡ b → c ≡ d → ◌≡◌ {A = ℕ × ℕ} (a, c) (b, d)
both e f = λ i. (e i, f i)

running-get_elem? :
    (fl : Floats) (scale offset : ℤ) (i cumulative k : ℕ) (counts : List ℕ)
    → k < length counts
    → get_elem? (running fl scale offset i cumulative counts) k
      ≡ some (upper_bound fl scale offset (i + k), (cumulative + sum_first (suc k) counts) % 2 ^ 64)
unfolding running get_elem? sum_first
running-get_elem? fl scale offset i cumulative k [] h = ground arith
running-get_elem? fl scale offset i cumulative zero (c ∷ counts) h =
    ap (λ p. some (upper_bound fl scale offset p.0, (cumulative + p.1) % 2 ^ 64))
      (both (omega arith) (sum_zero c counts))
running-get_elem? fl scale offset i cumulative (suc k) (c ∷ counts) h =
    running-get_elem? fl scale offset (suc i) ((cumulative + c) % 2 ^ 64) k counts (omega arith)
    ∙ ap (λ p. some (upper_bound fl scale offset p.0, p.1)) (both (omega arith) (omega arith))

from_start :
    (fl : Floats) (scale offset : ℤ) (k : ℕ) (counts : List ℕ)
    → k < length counts
    → get_elem? (running fl scale offset 0 0 counts) k
      ≡ some (upper_bound fl scale offset k, sum_first (suc k) counts % 2 ^ 64)
from_start fl scale offset k counts lt =
    running-get_elem? fl scale offset 0 0 k counts lt
    ∙ ap (λ p. some (upper_bound fl scale offset p.0, p.1 % 2 ^ 64))
        (both (omega arith) (omega arith))

length-running :
    (fl : Floats) (scale offset : ℤ) (i cumulative : ℕ) (counts : List ℕ)
    → length (running fl scale offset i cumulative counts) ≡ length counts
unfolding running
length-running fl scale offset i cumulative [] = refl
length-running fl scale offset i cumulative (c ∷ counts) =
    ap suc (length-running fl scale offset (suc i) ((cumulative + c) % 2 ^ 64) counts)

-- Where a histogram has recorded anything and the bounds of its buckets are different floats, it is
-- emitted as one sample with its count and its sum, whose buckets are as many as its counts, and of
-- which the k-th has the k-th bound and the sum of the first k + 1 counts as a uint64, whatever the
-- zero count is.
pub emit_histogram-cumulative :
    (fl : Floats) (d : Duration) (key : Key) (h : Hist) (k : ℕ)
    → 0 < h.count
    → Apart fl h.scale h.offset (length h.counts)
    → k < length h.counts
    → (buckets : Buckets) × (emit_histogram fl d key h
        ≡ histogram d key h.count h.sum_sec buckets ∷ [])
      × (length buckets ≡ length h.counts)
      × (get_elem? buckets k
          ≡ some (upper_bound fl h.scale h.offset k, sum_first (suc k) h.counts % 2 ^ 64))
unfolding all emit_histogram
emit_histogram-cumulative fl d key h k recorded apart lt =
    let e =
      fill_buckets-running fl h.scale h.offset (length h.counts) 0 0 h.counts [] apart (omega arith)
        (λ _ _ _. refl) in
    (
      fill_buckets fl h.scale h.offset 0 0 h.counts [],
      ground (arith, recorded),
      ap length e ∙ length-running fl h.scale h.offset 0 0 h.counts,
      ap (λ b. get_elem? b k) e ∙ from_start fl h.scale h.offset k h.counts lt,
    )
