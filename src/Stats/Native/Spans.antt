-- ===== src/Stats/Native/Spans.antt =====
-- How the spans of stats/hist.go are read, and how a span is cut from the buckets.
use lymbo.Base.{
  ℕ, zero, suc, ◌^◌, ◌<◌, ◌≡◌, refl, sym, ℤ, pos, negsuc, ◌+ℤ◌, ◌≤ℤ◌, +ℤ_parts, eq_of_parts, wrap32,
  wrap32_lem, eqb_ℤ, nat_eq, List, [], ◌∷◌, ◌++◌, map, true, arith, if◌then◌else◌, length,
}
use lymbo.Stats.Native.{PromBucketSpan, span_run, last_of}
use lymbo.Stats.Native.Deltas.{add_delta}

-- The reading of a native histogram: an offset is the gap behind the span before, or the index of the
-- first bucket.
abbrev pub indices_from : ℤ → ℕ → List ℤ
indices_from i zero = []
indices_from i (suc n) = i ∷ indices_from (i +ℤ pos 1) n

unfoldable pub read_spans : ℤ → List PromBucketSpan → List ℤ
read_spans next [] = []
read_spans next (span ∷ spans) =
    let first = next +ℤ span.offset in
    indices_from first span.length ++ read_spans (first +ℤ pos span.length) spans

unfoldable pub read_deltas : ℕ → List ℤ → List ℕ
read_deltas prev [] = []
read_deltas prev (d ∷ ds) = let c = add_delta prev d in c ∷ read_deltas c ds

-- The buckets as they are meant: from index `i` on, those with a count.
unfoldable pub filled : ℤ → List ℕ → List (ℤ × ℕ)
filled i [] = []
filled i (c ∷ cs) = let rest = filled (i +ℤ pos 1) cs in if nat_eq c 0 then rest else (i, c) ∷ rest

-- Where nothing wraps around.
abbrev pub InBounds : ℤ → Type 0
InBounds i = (negsuc (2 ^ 29) ≤ℤ i) × (i ≤ℤ pos (2 ^ 29))

abbrev pub AllGood : List (ℤ × ℕ) → Type 0
AllGood [] = Unit {0}
AllGood (b ∷ bs) = InBounds b.0 × (b.1 < 2 ^ 64) × AllGood bs

pub next_wrap : (i : ℤ) → InBounds i → wrap32 (i +ℤ pos 1) ≡ i +ℤ pos 1
next_wrap i h =
    wrap32_lem (i +ℤ pos 1) (omega (arith, +ℤ_parts i (pos 1))) (omega (arith, +ℤ_parts i (pos 1)))

pub add_none : (a : ℤ) → a +ℤ pos 0 ≡ a
add_none a = eq_of_parts (a +ℤ pos 0) a (omega (arith, +ℤ_parts a (pos 0)))

pub add_step : (a : ℤ) (n : ℕ) → (a +ℤ pos 1) +ℤ pos n ≡ a +ℤ pos (suc n)
add_step a n =
    eq_of_parts ((a +ℤ pos 1) +ℤ pos n) (a +ℤ pos (suc n))
      (omega (arith, +ℤ_parts a (pos 1), +ℤ_parts (a +ℤ pos 1) (pos n), +ℤ_parts a (pos (suc n))))

eq_of_eqb : (a b : ℤ) → eqb_ℤ a b ≡ true → a ≡ b
eq_of_eqb a b h = eq_of_parts a b (ground arith)

-- A span with its rest is the list that it was cut from.
pub span_run-append :
    (prev : ℤ) (bs : List (ℤ × ℕ)) → (span_run prev bs).0 ++ (span_run prev bs).1 ≡ bs
unfolding span_run
span_run-append prev [] = refl
span_run-append prev (b ∷ bs) = ground (arith, span_run-append b.0 bs)

-- Its indices follow each other.
pub span_run-indices :
    (prev : ℤ) (bs : List (ℤ × ℕ))
    → InBounds prev
    → AllGood bs
    → map (λ b. b.0) (span_run prev bs).0
      ≡ indices_from (prev +ℤ pos 1) (length (span_run prev bs).0)
unfolding span_run
span_run-indices prev [] h g = refl
span_run-indices prev (b ∷ bs) h g = ground (
  arith,
  next_wrap prev h,
  eq_of_eqb b.0 (wrap32 (prev +ℤ pos 1)),
  span_run-indices b.0 bs g.0 g.2,
)

-- They end at the last one.
pub span_run-last :
    (prev : ℤ) (bs : List (ℤ × ℕ))
    → InBounds prev
    → AllGood bs
    → last_of prev (span_run prev bs).0 ≡ prev +ℤ pos (length (span_run prev bs).0)
unfolding span_run last_of
span_run-last prev [] h g = sym (add_none prev)
span_run-last prev (b ∷ bs) h g = ground (
  arith,
  next_wrap prev h,
  eq_of_eqb b.0 (wrap32 (prev +ℤ pos 1)),
  span_run-last b.0 bs g.0 g.2,
  add_none prev,
  add_step prev (length (span_run b.0 bs).0),
)
