-- ===== src/Pusher/Held.antt =====
-- What the pusher of kharon.go holds, and that its steps hand over to the store what they stop to hold.
use lymbo.Base.{
  ℕ, ◌+◌, String, ◌≡◌, refl, ap, List, [], ◌∷◌, ◌++◌, map, none, some, Bool, false, arith, ◌==◌,
  count, count-append,
}
use lymbo.Base.Members.{count-map}
use lymbo.Ticket.{UpdateSet}
use lymbo.Kharon.{Kharon, Msg}
use lymbo.Pusher.Logged.{Logged, logged, do_deletes-log, do_updates-log}
use lymbo.Pusher.{BatchOps, Flush, split, do_deletes, do_updates, Pusher, flush, receive}

-- A message that asks to delete the ticket.
abbrev pub is_deletion_of : String → Msg → Bool
is_deletion_of tid m = elim m.upd [ none ↦ m.tid == tid | some _ ↦ false ]

-- A message with an update set that a test accepts.
abbrev pub is_update_with : (UpdateSet → Bool) → Msg → Bool
is_update_with q m = elim m.upd [ none ↦ false | some us ↦ q us ]

-- A number of each flush, added up.
unfoldable pub in_flights : (Flush → ℕ) → List Flush → ℕ
in_flights f [] = 0
in_flights f (x ∷ xs) = f x + in_flights f xs

in_flights-append :
    (f : Flush → ℕ) (xs ys : List Flush)
    → in_flights f (xs ++ ys) ≡ in_flights f xs + in_flights f ys
unfolding in_flights
in_flights-append f [] ys = omega arith
in_flights-append f (x ∷ xs) ys = omega (arith, in_flights-append f xs ys)

abbrev dels_of : String → Flush → ℕ
dels_of tid f = count (λ d. d.0 == tid) f.dels

abbrev upds_with : (UpdateSet → Bool) → Flush → ℕ
upds_with q f = count (λ u. q u.0) f.upds

dels_of-split :
    (tid : String) (ms : List Msg) → dels_of tid (split ms) ≡ count (is_deletion_of tid) ms
unfolding split count
dels_of-split tid [] = refl
dels_of-split tid (m ∷ ms) = ground (arith, dels_of-split tid ms)

upds_with-split :
    (q : UpdateSet → Bool) (ms : List Msg) → upds_with q (split ms) ≡ count (is_update_with q) ms
unfolding split count
upds_with-split q [] = refl
upds_with-split q (m ∷ ms) = ground (arith, upds_with-split q ms)

module _ {S : Type 0} where
  -- The deletions of a ticket that the pusher holds.
  abbrev pub held_dels : String → Pusher S → ℕ
  held_dels tid p = count (is_deletion_of tid) p.batch + in_flights (dels_of tid) p.flights

  abbrev pub held_upds : (UpdateSet → Bool) → Pusher S → ℕ
  held_upds q p = count (is_update_with q) p.batch + in_flights (upds_with q) p.flights

  held_dels-flush : (tid : String) (p : Pusher S) → held_dels tid (flush p) ≡ held_dels tid p
  unfolding flush in_flights count
  held_dels-flush tid p = ground (
    arith,
    dels_of-split tid p.batch,
    in_flights-append (dels_of tid) p.flights (split p.batch ∷ []),
  )

  held_upds-flush : (q : UpdateSet → Bool) (p : Pusher S) → held_upds q (flush p) ≡ held_upds q p
  unfolding flush in_flights count
  held_upds-flush q p = ground (
    arith,
    upds_with-split q p.batch,
    in_flights-append (upds_with q) p.flights (split p.batch ∷ []),
  )

abbrev pub total_dels : {S : Type 0} → String → Pusher (Logged S) → ℕ
total_dels tid p = count (λ d. d == tid) p.kharon.store.deleted + held_dels tid p

abbrev pub total_upds : {S : Type 0} → (UpdateSet → Bool) → Pusher (Logged S) → ℕ
total_upds q p = count q p.kharon.store.updated + held_upds q p

module _ {S : Type 0} (ops : BatchOps S) where
  -- What the pusher does by itself: a flush, and the two parts of doflush.
  pub data Step : Pusher (Logged S) → Pusher (Logged S) → Type 0 where
    ticked : (p : Pusher (Logged S)) → Step p (flush p)
    deleted :
        (p : Pusher (Logged S)) (before after : List Flush) (f : Flush)
        → p.flights ≡ before ++ f ∷ after
        → Step p (record p {
          flights = before ++ record f { dels = [] } ∷ after;
          kharon = do_deletes (logged ops) f.dels p.kharon;
        })
    updated :
        (p : Pusher (Logged S)) (before after : List Flush) (f : Flush) (k : Kharon (Logged S))
        → p.flights ≡ before ++ f ∷ after
        → f.dels ≡ []
        → do_updates (logged ops) f.upds p.kharon ≡ some k
        → Step p (record p { flights = before ++ after; kharon = k })

  flights_after :
      (g : Flush → ℕ) (before after fs : List Flush) (f : Flush)
      → fs ≡ before ++ f ∷ after
      → in_flights g fs ≡ in_flights g before + (g f + in_flights g after)
  unfolding in_flights
  flights_after g before after fs f e = rw e (in_flights-append g before (f ∷ after))

  pub Step-dels :
      (tid : String) {p p' : Pusher (Logged S)} → Step p p' → total_dels tid p' ≡ total_dels tid p
  unfolding in_flights count flush
  Step-dels tid (Step.ticked p) = ground (arith, held_dels-flush tid p)
  Step-dels tid (Step.deleted p before after f e) = omega (
    arith,
    flights_after (dels_of tid) before after p.flights f e,
    in_flights-append (dels_of tid) before (record f { dels = [] } ∷ after),
    ap (count (λ d. d == tid)) (do_deletes-log ops f.dels p.kharon).0,
    count-append (λ d. d == tid) p.kharon.store.deleted (map (λ d. d.0) f.dels),
    count-map (λ d. d == tid) (λ d. d.0) f.dels,
  )
  Step-dels tid (Step.updated p before after f k e none_left h) = omega (
    arith,
    flights_after (dels_of tid) before after p.flights f e,
    in_flights-append (dels_of tid) before after,
    ap (count (λ d. d.0 == tid)) none_left,
    ap (count (λ d. d == tid)) (do_updates-log ops f.upds p.kharon k h).1,
  )

  pub Step-upds :
      (q : UpdateSet → Bool) {p p' : Pusher (Logged S)}
      → Step p p'
      → total_upds q p' ≡ total_upds q p
  unfolding in_flights count flush
  Step-upds q (Step.ticked p) = ground (arith, held_upds-flush q p)
  Step-upds q (Step.deleted p before after f e) = omega (
    arith,
    flights_after (upds_with q) before after p.flights f e,
    in_flights-append (upds_with q) before (record f { dels = [] } ∷ after),
    ap (count q) (do_deletes-log ops f.dels p.kharon).1,
  )
  Step-upds q (Step.updated p before after f k e none_left h) = omega (
    arith,
    flights_after (upds_with q) before after p.flights f e,
    in_flights-append (upds_with q) before after,
    ap (count q) (do_updates-log ops f.upds p.kharon k h).0,
    count-append q p.kharon.store.updated (map (λ u. u.0) f.upds),
    count-map q (λ u. u.0) f.upds,
  )

module _ {S : Type 0} (capacity : ℕ) (m : Msg) (ms : List Msg) (p : Pusher (Logged S)) where
  pub receive-dels :
      (tid : String)
      → count (is_deletion_of tid) ms ≡ total_dels tid p
      → count (is_deletion_of tid) (ms ++ m ∷ []) ≡ total_dels tid (receive capacity m p)
  unfolding receive count flush
  receive-dels tid h = ground (
    arith,
    h,
    count-append (is_deletion_of tid) ms (m ∷ []),
    count-append (is_deletion_of tid) p.batch (m ∷ []),
    held_dels-flush tid (record p { batch = p.batch ++ m ∷ [] }),
  )

  pub receive-upds :
      (q : UpdateSet → Bool)
      → count (is_update_with q) ms ≡ total_upds q p
      → count (is_update_with q) (ms ++ m ∷ []) ≡ total_upds q (receive capacity m p)
  unfolding receive count flush
  receive-upds q h = ground (
    arith,
    h,
    count-append (is_update_with q) ms (m ∷ []),
    count-append (is_update_with q) p.batch (m ∷ []),
    held_upds-flush q (record p { batch = p.batch ++ m ∷ [] }),
  )
