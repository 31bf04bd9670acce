-- ===== src/Stats/Histogram/Buckets.antt =====
-- The buckets of a histogram of stats/hist.go, read by their index.
use lymbo.Base.{
  ℕ, zero, suc, ◌-◌, ◌^◌, ◌≤◌, ◌<◌, ◌≡◌, refl, ap, ◌∙◌, ℤ, pos, negsuc, pos_part, ◌-ℤ◌, ◌+ℤ◌, ◌≤ℤ◌,
  ◌<ℤ◌, +ℤ_parts, -ℤ_parts, wrap32, wrap32_lem, ltb_ℤ, eqb_ℤ, nat_eq, ltb, List, [], ◌∷◌, ◌++◌,
  true, false, arith, if◌then◌else◌, length, length-append, inl, inr, Bool-cases,
}
use lymbo.Stats.Histogram.{Hist, inc64, zeros, inc_at, set_first, last_index, place, inc_bucket}

abbrev pub get_or_zero : List ℕ → ℕ → ℕ
get_or_zero [] i = 0
get_or_zero (c ∷ cs) zero = c
get_or_zero (c ∷ cs) (suc i) = get_or_zero cs i

-- The count of the bucket with an index; a bucket that is not kept counts nothing.
abbrev pub bucket : ℤ → Hist → ℕ
bucket j h = if ltb_ℤ j h.offset then 0 else get_or_zero h.counts (pos_part (j -ℤ h.offset))

length-zeros : (n : ℕ) → length (zeros n) ≡ n
length-zeros zero = refl
length-zeros (suc n) = ap suc (length-zeros n)

get-zeros : (n i : ℕ) → get_or_zero (zeros n) i ≡ 0
get-zeros zero i = refl
get-zeros (suc n) zero = refl
get-zeros (suc n) (suc i) = get-zeros n i

get-append :
    (xs ys : List ℕ) (i : ℕ)
    → get_or_zero (xs ++ ys) i
      ≡ (if ltb i (length xs) then get_or_zero xs i else get_or_zero ys (i - length xs))
get-append [] ys i = ground arith
get-append (x ∷ xs) ys zero = ground arith
get-append (x ∷ xs) ys (suc i) = ground (arith, get-append xs ys i)

get-beyond : (xs : List ℕ) (i : ℕ) → length xs ≤ i → get_or_zero xs i ≡ 0
get-beyond [] i h = refl
get-beyond (x ∷ xs) zero h = absurd (omega arith)
get-beyond (x ∷ xs) (suc i) h = get-beyond xs i (omega arith)

get-inc_at :
    (i j : ℕ) (xs : List ℕ)
    → i < length xs
    → get_or_zero (inc_at i xs) j
      ≡ (if nat_eq i j then inc64 (get_or_zero xs j) else get_or_zero xs j)
unfolding inc_at
get-inc_at i j [] h = absurd (omega arith)
get-inc_at zero zero (c ∷ cs) h = ground arith
get-inc_at zero (suc j) (c ∷ cs) h = ground arith
get-inc_at (suc i) zero (c ∷ cs) h = ground arith
get-inc_at (suc i) (suc j) (c ∷ cs) h = ground (arith, get-inc_at i j cs)

get-set_first :
    (n j : ℕ) (xs : List ℕ)
    → 0 < n
    → get_or_zero (set_first (zeros n ++ xs)) j
      ≡ (if nat_eq j 0 then 1 else if ltb j n then 0 else get_or_zero xs (j - n))
get-set_first zero j xs h = absurd (omega arith)
get-set_first (suc n) zero xs h = ground arith
get-set_first (suc n) (suc j) xs h =
    ground (arith, get-append (zeros n) xs j, length-zeros n, get-zeros n j)

-- The range in which no int32 of `inc_bucket` wraps around.
pub record InRange (idx : ℤ) (h : Hist) : Type 0 where
  pub low : negsuc (2 ^ 29) ≤ℤ idx
  pub high : idx ≤ℤ pos (2 ^ 29)
  pub offset_low : negsuc (2 ^ 29) ≤ℤ h.offset
  pub last_high : h.offset +ℤ pos (length h.counts) ≤ℤ pos (2 ^ 29)

module _ (idx j off : ℤ) (cs : List ℕ) where
  abbrev get_bucket : ℤ → ℤ → List ℕ → ℕ
  get_bucket i o xs = if ltb_ℤ i o then 0 else get_or_zero xs (pos_part (i -ℤ o))

  below_case :
      idx <ℤ off
      → get_bucket j idx (set_first (zeros (pos_part (off -ℤ idx)) ++ cs))
        ≡ (if eqb_ℤ idx j then inc64 (get_bucket j off cs) else get_bucket j off cs)
  below_case h = ground (
    arith,
    get-set_first (pos_part (off -ℤ idx)) (pos_part (j -ℤ idx)) cs,
    -ℤ_parts off idx,
    -ℤ_parts j idx,
    -ℤ_parts j off,
  )

  within_case :
      (xs : List ℕ)
      → off ≤ℤ idx
      → idx <ℤ off +ℤ pos (length xs)
      → get_bucket j off (inc_at (pos_part (idx -ℤ off)) xs)
        ≡ (if eqb_ℤ idx j then inc64 (get_bucket j off xs) else get_bucket j off xs)
  within_case xs h k = ground (
    arith,
    get-inc_at (pos_part (idx -ℤ off)) (pos_part (j -ℤ off)) xs,
    +ℤ_parts off (pos (length xs)),
    -ℤ_parts idx off,
    -ℤ_parts j off,
  )

  padded : (n : ℕ) → get_bucket j off (cs ++ zeros n) ≡ get_bucket j off cs
  padded n = ground (
    arith,
    get-append cs (zeros n) (pos_part (j -ℤ off)),
    get-zeros n (pos_part (j -ℤ off) - length cs),
    get-beyond cs (pos_part (j -ℤ off)),
  )

last_index_lem :
    (idx : ℤ) (h : Hist) → InRange idx h → last_index h ≡ h.offset +ℤ pos (length h.counts) -ℤ pos 1
unfolding last_index
last_index_lem idx h r =
    let o = h.offset +ℤ pos (length h.counts) in
    let e : wrap32 o ≡ o =
      wrap32_lem o (omega (arith, r, +ℤ_parts h.offset (pos (length h.counts))))
        (omega (arith, r)) in
    rw e (
      wrap32_lem (o -ℤ pos 1)
        (omega (arith, r, +ℤ_parts h.offset (pos (length h.counts)), -ℤ_parts o (pos 1)))
        (omega (arith, r, -ℤ_parts o (pos 1))))

-- What `place` does to the count of a bucket.
abbrev Counts : ℤ → ℤ → Hist → Hist → Type 0
Counts idx j h h' = bucket j h' ≡ (if eqb_ℤ idx j then inc64 (bucket j h) else bucket j h)

module _ (idx j : ℤ) (h : Hist) (r : InRange idx h) where
  open h use {offset, counts}

  place_below : ltb_ℤ idx offset ≡ true → Counts idx j h (place idx h)
  unfolding place
  place_below below =
      let e : wrap32 (offset -ℤ idx) ≡ offset -ℤ idx =
        wrap32_lem (offset -ℤ idx) (ground (arith, r, -ℤ_parts offset idx))
          (ground (arith, r, -ℤ_parts offset idx, +ℤ_parts offset (pos (length counts)))) in
      rw (below, e) (below_case idx j offset counts (ground arith))

  inside : ltb_ℤ idx offset ≡ false → wrap32 (idx -ℤ offset) ≡ idx -ℤ offset
  inside above =
      wrap32_lem (idx -ℤ offset) (ground (arith, r, -ℤ_parts idx offset))
        (ground (arith, r, -ℤ_parts idx offset))

  place_within :
      ltb_ℤ idx offset ≡ false → ltb_ℤ (last_index h) idx ≡ false → Counts idx j h (place idx h)
  unfolding place
  place_within above below =
      rw (above, below, inside above)
        (within_case idx j offset counts counts (ground arith) (
          ground (
            arith,
            ap (λ z. ltb_ℤ z idx) (last_index_lem idx h r),
            -ℤ_parts (offset +ℤ pos (length counts)) (pos 1),
          )))

  place_above :
      ltb_ℤ idx offset ≡ false → ltb_ℤ (last_index h) idx ≡ true → Counts idx j h (place idx h)
  unfolding place
  place_above above beyond =
      let n = pos_part (wrap32 (idx -ℤ last_index h)) in
      rw (above, beyond, inside above)
        (within_case idx j offset counts (counts ++ zeros n) (ground arith) long_enough
          ∙ (if_same n))
    where
      long_enough :
          idx <ℤ offset +ℤ pos (length (counts ++ zeros (pos_part (wrap32 (idx -ℤ last_index h)))))
      long_enough =
          let n = idx -ℤ last_index h in
          let e : wrap32 n ≡ n =
            wrap32_lem n
              (ground (
                arith,
                r,
                last_index_lem idx h r,
                -ℤ_parts idx (last_index h),
                -ℤ_parts (offset +ℤ pos (length counts)) (pos 1),
              ))
              (ground (
                arith,
                r,
                last_index_lem idx h r,
                -ℤ_parts idx (last_index h),
                -ℤ_parts (offset +ℤ pos (length counts)) (pos 1),
                +ℤ_parts offset (pos (length counts)),
              )) in
          ground (
            arith,
            ap pos_part e,
            last_index_lem idx h r,
            -ℤ_parts idx (last_index h),
            -ℤ_parts (offset +ℤ pos (length counts)) (pos 1),
            +ℤ_parts offset (pos (length counts)),
            length-append counts (zeros (pos_part (wrap32 n))),
            length-zeros (pos_part (wrap32 n)),
            +ℤ_parts offset (pos (length (counts ++ zeros (pos_part (wrap32 n))))),
          )

      if_same :
          (n : ℕ)
          → (if eqb_ℤ idx j
              then inc64 (get_bucket idx j offset counts j offset (counts ++ zeros n))
              else get_bucket idx j offset counts j offset (counts ++ zeros n))
            ≡ (if eqb_ℤ idx j then inc64 (bucket j h) else bucket j h)
      if_same n = ap (λ b. if eqb_ℤ idx j then inc64 b else b) (padded idx j offset counts n)

  place-Counts : Counts idx j h (place idx h)
  place-Counts = elim (Bool-cases (ltb_ℤ idx offset)) [
    | inl below ↦ place_below below
    | inr above ↦ elim (Bool-cases (ltb_ℤ (last_index h) idx)) [
      | inl beyond ↦ place_above above beyond
      | inr within ↦ place_within above within
    ]
  ]

-- Where no int32 wraps around, incBucket counts one more in the bucket of its index, and changes
-- the count of no other bucket, also where it moves the offset or makes new buckets.
pub bucket-inc_bucket :
    (idx j : ℤ) (h : Hist)
    → InRange idx h
    → bucket j (inc_bucket idx h) ≡ (if eqb_ℤ idx j then inc64 (bucket j h) else bucket j h)
unfolding inc_bucket
bucket-inc_bucket idx j h r = by_counts h.counts refl
  where
    by_counts : (cs : List ℕ) → h.counts ≡ cs → Counts idx j h (inc_bucket idx h)
    by_counts [] e =
        rw (e, inc_bucket)
          (ground (arith, -ℤ_parts j idx, get-beyond [] (pos_part (j -ℤ h.offset))))
    by_counts (c ∷ cs) e = ground (arith, place-Counts idx j h r)
