-- ===== src/Stats/Native/Decode.antt =====
-- That the outer loop of stats/hist.go yields spans and deltas from which the buckets are read.
use lymbo.Base.{
  ℕ, zero, suc, ◌+◌, ◌%◌, ◌^◌, ◌<◌, ◌≤◌, ◌≡◌, refl, sym, ap, ◌∙◌, ℤ, pos, ◌+ℤ◌, ◌-ℤ◌, +ℤ_parts,
  -ℤ_parts, eq_of_parts, wrap32, wrap32_lem, List, [], ◌∷◌, ◌++◌, map, Bool, true, false, arith,
  if◌then◌else◌, length, length-append,
}
use mathlib.Core.List.{map-append}
use lymbo.Stats.Native.{span_run, deltas, last_of, span_loop}
use lymbo.Stats.Native.Deltas.{add_delta-sub64}
use lymbo.Stats.Native.Spans.{
  read_spans, read_deltas, InBounds, AllGood, next_wrap, span_run-append, span_run-indices,
  span_run-last,
}

AllGood-run : (prev : ℤ) (bs : List (ℤ × ℕ)) → AllGood bs → AllGood (span_run prev bs).0
unfolding span_run
AllGood-run prev [] g = tt
AllGood-run prev (b ∷ bs) g = ground (arith, AllGood-run b.0 bs g.2)

AllGood-rest : (prev : ℤ) (bs : List (ℤ × ℕ)) → AllGood bs → AllGood (span_run prev bs).1
unfolding span_run
AllGood-rest prev [] g = tt
AllGood-rest prev (b ∷ bs) g = ground (arith, AllGood-rest b.0 bs g.2)

InBounds-last :
    (prev : ℤ) (bs : List (ℤ × ℕ)) → InBounds prev → AllGood bs → InBounds (last_of prev bs)
unfolding last_of
InBounds-last prev [] h g = h
InBounds-last prev (b ∷ bs) h g = InBounds-last b.0 bs g.0 g.2

length-run :
    (prev : ℤ) (bs : List (ℤ × ℕ))
    → length (span_run prev bs).0 + length (span_run prev bs).1 ≡ length bs
length-run prev bs =
    sym (length-append (span_run prev bs).0 (span_run prev bs).1)
    ∙ ap length (span_run-append prev bs)

deltas-lt :
    (prev : ℕ) (bs : List (ℤ × ℕ)) → prev < 2 ^ 64 → AllGood bs → (deltas prev bs).1 < 2 ^ 64
unfolding deltas
deltas-lt prev [] h g = h
deltas-lt prev (b ∷ bs) h g = deltas-lt b.1 bs g.1 g.2

-- The deltas of a span give its counts back.
read_deltas-deltas :
    (prev : ℕ) (bs : List (ℤ × ℕ)) (more : List ℤ)
    → prev < 2 ^ 64
    → AllGood bs
    → read_deltas prev ((deltas prev bs).0 ++ more)
      ≡ map (λ b. b.1) bs ++ read_deltas (deltas prev bs).1 more
unfolding deltas read_deltas
read_deltas-deltas prev [] more h g = refl
read_deltas-deltas prev (b ∷ bs) more h g =
    rw (add_delta-sub64 prev b.1 h g.1) (ap (λ l. b.1 ∷ l) (read_deltas-deltas b.1 bs more g.1 g.2))

pub next_of : (a : ℤ) (n : ℕ) → (a +ℤ pos n) +ℤ pos 1 ≡ a +ℤ pos (suc n)
next_of a n =
    eq_of_parts ((a +ℤ pos n) +ℤ pos 1) (a +ℤ pos (suc n))
      (omega (arith, +ℤ_parts a (pos n), +ℤ_parts (a +ℤ pos n) (pos 1), +ℤ_parts a (pos (suc n))))

offset_gap :
    (i j : ℤ) → InBounds i → InBounds j → (j +ℤ pos 1) +ℤ wrap32 (i -ℤ wrap32 (j +ℤ pos 1)) ≡ i
offset_gap i j h k =
    let next = j +ℤ pos 1 in
    let gap = i -ℤ next in
    let whole : wrap32 gap ≡ gap =
      wrap32_lem gap (omega (arith, +ℤ_parts j (pos 1), -ℤ_parts i (j +ℤ pos 1)))
        (omega (arith, +ℤ_parts j (pos 1), -ℤ_parts i (j +ℤ pos 1))) in
    rw (next_wrap j k)
      (rw whole (eq_of_parts (next +ℤ gap) i (omega (arith, +ℤ_parts next gap, -ℤ_parts i next))))

abbrev pub start_at : Bool → ℤ → ℤ
start_at true prev_end = pos 0
start_at false prev_end = prev_end +ℤ pos 1

first_index :
    (first : Bool) (i prev_end : ℤ)
    → InBounds i
    → InBounds prev_end
    → start_at first prev_end +ℤ (if first then i else wrap32 (i -ℤ wrap32 (prev_end +ℤ pos 1))) ≡ i
first_index true i prev_end h k = eq_of_parts (pos 0 +ℤ i) i (omega (arith, +ℤ_parts (pos 0) i))
first_index false i prev_end h k = offset_gap i prev_end h k

next_index :
    (b : ℤ × ℕ) (bs : List (ℤ × ℕ))
    → AllGood (b ∷ bs)
    → b.0 +ℤ pos (suc (length (span_run b.0 bs).0)) ≡ last_of b.0 (span_run b.0 bs).0 +ℤ pos 1
next_index b bs g =
    let n = length (span_run b.0 bs).0 in rw (span_run-last b.0 bs g.0 g.2) (sym (next_of b.0 n))

map-run {ℓ} :
    {A : Type ℓ} (f : ℤ × ℕ → A) (b : ℤ × ℕ) (bs : List (ℤ × ℕ))
    → map f (b ∷ (span_run b.0 bs).0) ++ map f (span_run b.0 bs).1 ≡ map f (b ∷ bs)
map-run f b bs =
    ap (λ l. f b ∷ l)
      (sym (map-append f (span_run b.0 bs).0 (span_run b.0 bs).1)
        ∙ ap (map f) (span_run-append b.0 bs))

small_mod : (n : ℕ) → n < 2 ^ 32 → n % 2 ^ 32 ≡ n
small_mod n h = omega arith

pub span_loop-spans :
    (n : ℕ) (first : Bool) (prev_end : ℤ) (prev_abs : ℕ) (bs : List (ℤ × ℕ))
    → length bs ≤ n
    → n < 2 ^ 32
    → InBounds prev_end
    → AllGood bs
    → read_spans (start_at first prev_end) (span_loop n first prev_end prev_abs bs).0
      ≡ map (λ b. b.0) bs
unfolding span_loop read_spans
span_loop-spans zero first prev_end prev_abs [] small room h g = refl
span_loop-spans zero first prev_end prev_abs (b ∷ bs) small room h g = absurd (omega arith)
span_loop-spans (suc n) first prev_end prev_abs [] small room h g = refl
span_loop-spans (suc n) first prev_end prev_abs (b ∷ bs) small room h g =
    let run = span_run b.0 bs in
    let last = last_of b.0 run.0 in
    let fits : length run.1 ≤ n = omega (arith, length-run b.0 bs) in
    rw
      (
        first_index first b.0 prev_end g.0 h,
        small_mod (suc (length run.0)) (omega (arith, length-run b.0 bs)),
        next_index b bs g,
        sym (span_run-indices b.0 bs g.0 g.2),
        span_loop-spans n false last (deltas prev_abs (b ∷ run.0)).1 run.1 fits (omega arith)
            (InBounds-last b.0 run.0 g.0 (AllGood-run b.0 bs g.2)) (AllGood-rest b.0 bs g.2),
      )
      (map-run (λ x. x.0) b bs)

pub span_loop-deltas :
    (n : ℕ) (first : Bool) (prev_end : ℤ) (prev_abs : ℕ) (bs : List (ℤ × ℕ))
    → length bs ≤ n
    → prev_abs < 2 ^ 64
    → AllGood bs
    → read_deltas prev_abs (span_loop n first prev_end prev_abs bs).1 ≡ map (λ b. b.1) bs
unfolding span_loop read_deltas
span_loop-deltas zero first prev_end prev_abs [] small h g = refl
span_loop-deltas zero first prev_end prev_abs (b ∷ bs) small h g = absurd (omega arith)
span_loop-deltas (suc n) first prev_end prev_abs [] small h g = refl
span_loop-deltas (suc n) first prev_end prev_abs (b ∷ bs) small h g =
    let run = span_run b.0 bs in
    let good : AllGood (b ∷ run.0) = (g.0, g.1, AllGood-run b.0 bs g.2) in
    let last = (deltas prev_abs (b ∷ run.0)).1 in
    let more = (span_loop n false (last_of b.0 run.0) last run.1).1 in
    let fits : length run.1 ≤ n = omega (arith, length-run b.0 bs) in
    read_deltas-deltas prev_abs (b ∷ run.0) more h good
    ∙ ap (λ l. map (λ x. x.1) (b ∷ run.0) ++ l)
        (span_loop-deltas n false (last_of b.0 run.0) last run.1 fits
          (deltas-lt prev_abs (b ∷ run.0) h good) (AllGood-rest b.0 bs g.2))
    ∙ map-run (λ x. x.1) b bs
