-- ===== src/Stats/Native/RoundTrip.antt =====
-- That a native histogram of stats/hist.go holds the buckets of its snapshot that are not empty.
use lymbo.Base.{
  ℕ, suc, ◌+◌, ◌^◌, ◌<◌, ◌≤◌, ◌≡◌, refl, sym, ap, ◌∙◌, ℤ, pos, negsuc, ◌+ℤ◌, ◌≤ℤ◌, +ℤ_parts, wrap32,
  wrap32_lem, eqb_ℤ, nat_eq, List, [], ◌∷◌, map, Bool, true, ◌&&◌, ◌||◌, arith, if◌then◌else◌,
  length, inl, inr, Bool-cases, none, some, is_empty,
}
use lymbo.Errors.{ok}
use lymbo.Ticket.{zero_time}
use lymbo.Stats.Native.{
  HistogramSnapshot, PromNativeHistogram, nonzero, span_loop, to_prom_native, no_span,
}
use lymbo.Stats.Native.Spans.{read_spans, read_deltas, filled, AllGood}
use lymbo.Stats.Native.Decode.{next_of, span_loop-spans, span_loop-deltas}

abbrev pub AllWords : List ℕ → Type 0
AllWords [] = Unit {0}
AllWords (c ∷ cs) = (c < 2 ^ 64) × AllWords cs

position :
    (offset : ℤ) (i : ℕ)
    → negsuc (2 ^ 28) ≤ℤ offset
    → offset ≤ℤ pos (2 ^ 28)
    → i < 2 ^ 28
    → wrap32 (wrap32 (offset +ℤ wrap32 (pos i)) +ℤ pos 1) ≡ offset +ℤ pos (suc i)
position offset i h k r =
    let there : wrap32 (pos i) ≡ pos i = wrap32_lem (pos i) (omega arith) (omega arith) in
    let near : wrap32 (offset +ℤ pos i) ≡ offset +ℤ pos i =
      wrap32_lem (offset +ℤ pos i) (omega (arith, +ℤ_parts offset (pos i)))
        (omega (arith, +ℤ_parts offset (pos i))) in
    let next : wrap32 ((offset +ℤ pos i) +ℤ pos 1) ≡ (offset +ℤ pos i) +ℤ pos 1 =
      wrap32_lem ((offset +ℤ pos i) +ℤ pos 1)
        (omega (arith, +ℤ_parts offset (pos i), +ℤ_parts (offset +ℤ pos i) (pos 1)))
        (omega (arith, +ℤ_parts offset (pos i), +ℤ_parts (offset +ℤ pos i) (pos 1))) in
    rw (there, near, next) (next_of offset i)

-- The buckets that are not empty are found, under the index of their upper bound.
nonzero-filled :
    (offset : ℤ) (i : ℕ) (cs : List ℕ)
    → negsuc (2 ^ 28) ≤ℤ offset
    → offset ≤ℤ pos (2 ^ 28)
    → i + length cs ≤ 2 ^ 28
    → nonzero offset i cs ≡ filled (offset +ℤ pos (suc i)) cs
unfolding nonzero filled
nonzero-filled offset i [] h k r = refl
nonzero-filled offset i (c ∷ cs) h k r = rw (
  position offset i h k (omega arith),
  next_of offset (suc i),
  nonzero-filled offset (suc i) cs h k (omega arith),
)

AllGood-filled :
    (i : ℤ) (cs : List ℕ)
    → negsuc (2 ^ 29) ≤ℤ i
    → i +ℤ pos (length cs) ≤ℤ pos (2 ^ 29 + 1)
    → AllWords cs
    → AllGood (filled i cs)
unfolding filled
AllGood-filled i [] h k w = tt
AllGood-filled i (c ∷ cs) h k w = ground (
  arith,
  +ℤ_parts i (pos (suc (length cs))),
  +ℤ_parts i (pos 1),
  +ℤ_parts (i +ℤ pos 1) (pos (length cs)),
  AllGood-filled (i +ℤ pos 1) cs,
)

length-filled : (i : ℤ) (cs : List ℕ) → length (filled i cs) ≤ length cs
unfolding filled
length-filled i [] = omega arith
length-filled i (c ∷ cs) = ground (arith, length-filled (i +ℤ pos 1) cs)

nonzero_none :
    (b : Bool) (offset : ℤ) (cs : List ℕ)
    → b && is_empty cs || is_empty (nonzero offset 0 cs) ≡ true
    → nonzero offset 0 cs ≡ []
unfolding nonzero
nonzero_none b offset [] h = refl
nonzero_none b offset (c ∷ cs) h = ground arith

module _ (s : HistogramSnapshot) where
  abbrev pub IsSmall : Type 0
  IsSmall =
      (negsuc (2 ^ 28) ≤ℤ s.offset)
      × (s.offset ≤ℤ pos (2 ^ 28))
      × (length s.counts ≤ 2 ^ 28)
      × AllWords s.counts

  -- What the exported spans and deltas hold is what the snapshot counts.
  abbrev pub Holds : PromNativeHistogram → Type 0
  Holds out =
      (read_spans (pos 0) out.positive_spans ≡ map (λ b. b.0) (filled (s.offset +ℤ pos 1) s.counts))
      × (read_deltas 0 out.positive_deltas ≡ map (λ b. b.1) (filled (s.offset +ℤ pos 1) s.counts))
      × (out.schema ≡ s.scale)
      × (out.count ≡ s.count)
      × (out.zero_count ≡ s.zero_count)

  -- The native histogram of a snapshot holds what the snapshot counts: read from its spans and its
  -- deltas, the indices and the counts of the buckets are those of the buckets that are not empty,
  -- and the schema and the two counts are the snapshot's. The snapshot's scale is in -4..8, its
  -- offset within 2^28 of zero, and it has at most 2^28 buckets with counts below 2^64.
  pub to_prom_native_lem :
      IsSmall
      → negsuc 3 ≤ℤ s.scale
      → s.scale ≤ℤ pos 8
      → (out : PromNativeHistogram) × (to_prom_native s ≡ ok out) × Holds out
  unfolding to_prom_native read_spans read_deltas
  to_prom_native_lem small lo hi =
      let nz = nonzero s.offset 0 s.counts in
      let same : nz ≡ filled (s.offset +ℤ pos 1) s.counts =
        nonzero-filled s.offset 0 s.counts small.0 small.1 (omega arith) in
      let good : AllGood (filled (s.offset +ℤ pos 1) s.counts) =
        AllGood-filled (s.offset +ℤ pos 1) s.counts (omega (arith, +ℤ_parts s.offset (pos 1)))
          (omega (
            arith,
            +ℤ_parts s.offset (pos 1),
            +ℤ_parts (s.offset +ℤ pos 1) (pos (length s.counts)),
          ))
          small.3 in
      let sound : AllGood nz = rw same good in
      let few : length nz < 2 ^ 32 =
        rw same (omega (arith, length-filled (s.offset +ℤ pos 1) s.counts)) in
      let spans = span_loop (length nz) true (pos 0) 0 nz in
      let out : PromNativeHistogram = record {
        schema = s.scale;
        count = s.count;
        sum = s.sum_sec;
        zero_threshold = 0;
        zero_count = s.zero_count;
        positive_spans = [];
        positive_deltas = [];
        created = if eqb_ℤ s.start zero_time then none else some s.start;
        time = s.end;
      } in
      elim (Bool-cases
        (nat_eq s.count 0 && nat_eq s.zero_count 0 && is_empty s.counts || is_empty nz)) [
          | inl e ↦ (
            record out { positive_spans = no_span ∷ [] },
            ground (arith, e),
            (
              ap (map (λ b. b.0)) (sym (nonzero_none _ s.offset s.counts e) ∙ same),
              ap (map (λ b. b.1)) (sym (nonzero_none _ s.offset s.counts e) ∙ same),
              refl,
              refl,
              refl,
            ),
          )
          | inr e ↦ (
            record out { positive_spans = spans.0; positive_deltas = spans.1 },
            ground (arith, e),
            (
              span_loop-spans (length nz) true (pos 0) 0 nz (omega arith) few (omega arith) sound
                  ∙ ap (map (λ b. b.0)) same,
              span_loop-deltas (length nz) true (pos 0) 0 nz (omega arith) (omega arith) sound
                  ∙ ap (map (λ b. b.1)) same,
              refl,
              refl,
              refl,
            ),
          )
        ]
