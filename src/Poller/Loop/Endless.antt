-- ===== src/Poller/Loop/Endless.antt =====
-- The poller of kharon.go over the in-memory store.
use lymbo.Base.{
  ltb, length, ℕ, ◌≡◌, ◌≢◌, ◌||◌, ◌&&◌, nat_eq, refl, ap, sym, ◌∙◌, subst, inl, inr, ℤ, pos, List,
  [], ◌∷◌, map, Option, none, some, Bool, true, false, arith, if◌then◌else◌, Bool-cases,
  Option-cases, all, any, Perm,
}
use lymbo.Errors.{Result, ok, err}
use lymbo.Ticket.{Floats, Ticket, UpdateSet}
use lymbo.Settings.{Settings}
use lymbo.Settings.Normal.{IsNormal}
use lymbo.Tubes.{Subscriptions, tubes_of}
use lymbo.Kharon.{Kharon}
use lymbo.Memory
use lymbo.Memory.{Store, Tickets}
use lymbo.Memory.Invariant.{Inv}
use lymbo.Memory.Sorted.{IsSortSlice}
use lymbo.Memory.Preserve.{sets_known, update_batch-Inv}
use lymbo.Memory.Poll.{poll_pending}
use lymbo.Memory.History.{poll_pending-Inv}
use lymbo.Poller.{
  PollOps, Round, put_all_back, sort_out, request_of, distribute, poll_round, backs_off, idles,
  dispatches,
}
use lymbo.Poller.Rounds.{memory_poll_ops, poll_round_succeeds}
use lymbo.Poller.Loop.{Turn, Polled, follow, poll, run_poller}

-- Whether a cancellation comes in the dispatch of a turn, or anywhere in it.
abbrev pub cut_short : Option ℕ → Bool
cut_short none = false
cut_short (some m) = true

abbrev pub interrupted : Turn → Bool
interrupted t = t.cancelled || t.limited || cut_short t.sends

known_back :
    (now : ℤ) (tubes : List _) (ts : List Ticket)
    → all (λ (u : ℤ × UpdateSet). sets_known u.1) (map (λ us. (now, us)) (sort_out tubes ts).1)
      ≡ true
unfolding sort_out all
known_back now tubes [] = refl
known_back now tubes (t ∷ ts) = ground (arith, known_back now tubes ts)

if-Inv :
    (b : Bool) (x y : Kharon Store × Round)
    → Inv x.0.store
    → Inv y.0.store
    → Inv (if b then x else y).0.store
if-Inv true x y v w = v
if-Inv false x y v w = w

module _ (fl : Floats) (now : ℤ) (store : Store) (v : Inv store) where
  abbrev answering : Result (List Ticket) → PollOps Store
  answering r = record {
    poll_pending = λ _ _. (store, r);
    update_batch = λ sets s. Memory.update_batch fl (map (λ us. (now, us)) sets) s;
  }

  put_all_back-Inv :
      (r : Result (List Ticket)) (sets : List UpdateSet)
      → all (λ (u : ℤ × UpdateSet). sets_known u.1) (map (λ us. (now, us)) sets) ≡ true
      → Inv (put_all_back (answering r) sets store)
  unfolding put_all_back
  put_all_back-Inv r [] known = v
  put_all_back-Inv r (us ∷ sets) known =
      update_batch-Inv fl (map (λ us. (now, us)) (us ∷ sets)) store known v

  answered-Inv :
      (settings : Settings) (time : ℤ) (before after : Subscriptions) (slowdown : ℕ)
      (k : Kharon Store) (r : Result (List Ticket))
      → Inv (poll_round (answering r) settings time before after slowdown k).0.store
  unfolding poll_round distribute
  answered-Inv settings time before after slowdown k (err e) = v
  answered-Inv settings time before after slowdown k (ok []) = v
  answered-Inv settings time before after slowdown k (ok (t ∷ ts)) =
      if-Inv after.tubeson _ _
        (put_all_back-Inv (ok (t ∷ ts)) (sort_out (tubes_of after) (t ∷ ts)).1
          (known_back now (tubes_of after) (t ∷ ts)))
        v

module _ (fl : Floats) (sort_slice : (Ticket → Ticket → Bool) → List Ticket → List Ticket)
    (range : Tickets → Tickets) (sorting : IsSortSlice sort_slice)
    (shuffle : (m : Tickets) → Perm (range m) m) (now : ℤ) (s : Settings)
    (normal : IsNormal fl s) where
  abbrev ops : PollOps Store
  ops = memory_poll_ops fl sort_slice range now

  poll_round-Inv :
      (time : ℤ) (before after : Subscriptions) (slowdown : ℕ) (k : Kharon Store)
      → Inv k.store
      → Inv (poll_round ops s time before after slowdown k).0.store
  unfolding poll_round distribute
  poll_round-Inv time before after slowdown k v =
      let req = request_of s time (tubes_of before) in
      let r = poll_pending fl sort_slice range req k.store in
      answered-Inv fl now r.0 (poll_pending-Inv fl sort_slice sorting range req k.store shuffle v) s
        time before after slowdown k r.1

  -- The store keeps the invariant, and nothing but a cancellation ends the loop.
  abbrev Holds : Polled Store → Type 0
  Holds p = Inv p.kharon.store × ((d : ℤ) → p.returned ≡ some d → d ≡ pos 0)

  Holds-follow :
      (sends : Option ℕ) (k : Kharon Store) (round : Round) (next : ℕ → Polled Store)
      → Inv k.store
      → ((d : ℤ) → round ≢ backs_off d)
      → ((n : ℕ) → Holds (next n))
      → Holds (follow sends k round next)
  unfolding follow
  Holds-follow sends k (backs_off d) next v going h = absurd (going d refl)
  Holds-follow sends k (idles n) next v going h = h n
  Holds-follow (some m) k (dispatches n ts) next v going h = elim (Bool-cases (ltb m (length ts))) [
    | inl cut ↦ rw cut (v, λ d e. ground (arith, e))
    | inr sent ↦ rw sent (h n)
  ]
  Holds-follow none k (dispatches n ts) next v going h = h n

  Holds-poll :
      (turns : List Turn) (slowdown : ℕ) (k : Kharon Store)
      → Inv k.store
      → Holds (poll ops s turns slowdown k)
  unfolding poll
  Holds-poll [] slowdown k v = (v, λ d e. ground (arith, e))
  Holds-poll (t ∷ turns) slowdown k v =
      elim (Bool-cases (t.cancelled || nat_eq slowdown 0 && t.limited)) [
        | inl ends ↦ rw ends (v, λ d e. ground (arith, e))
        | inr goes ↦
            let r = poll_round ops s t.time t.subscribed t.now_subscribed slowdown k in
            let v' = poll_round-Inv t.time t.subscribed t.now_subscribed slowdown k v in
            rw goes (
              Holds-follow t.sends r.0 r.1 (λ n. poll ops s turns n r.0) v'
                (λ d.
                  poll_round_succeeds fl sort_slice range sorting shuffle now s t.time t.subscribed
                    t.now_subscribed slowdown k d normal v)
                (λ n. Holds-poll turns n r.0 v'))
      ]

  follow_busy :
      (sends : Option ℕ) (k : Kharon Store) (round : Round) (next : ℕ → Polled Store)
      → cut_short sends ≡ false
      → ((d : ℤ) → round ≢ backs_off d)
      → ((n : ℕ) → (next n).returned ≡ none)
      → (follow sends k round next).returned ≡ none
  unfolding follow
  follow_busy sends k (backs_off d) next whole going h = absurd (going d refl)
  follow_busy sends k (idles n) next whole going h = h n
  follow_busy (some m) k (dispatches n ts) next whole going h = absurd (ground (arith, whole))
  follow_busy none k (dispatches n ts) next whole going h = h n

  poll_busy :
      (turns : List Turn) (slowdown : ℕ) (k : Kharon Store)
      → Inv k.store
      → any interrupted turns ≡ false
      → (poll ops s turns slowdown k).returned ≡ none
  unfolding poll any
  poll_busy [] slowdown k v h = refl
  poll_busy (t ∷ turns) slowdown k v h =
      let goes : (t.cancelled || nat_eq slowdown 0 && t.limited) ≡ false = ground (arith, h) in
      let r = poll_round ops s t.time t.subscribed t.now_subscribed slowdown k in
      let v' = poll_round-Inv t.time t.subscribed t.now_subscribed slowdown k v in
      rw goes (
        follow_busy t.sends r.0 r.1 (λ n. poll ops s turns n r.0) (ground (arith, h))
          (λ d.
            poll_round_succeeds fl sort_slice range sorting shuffle now s t.time t.subscribed
              t.now_subscribed slowdown k d normal v)
          (λ n. poll_busy turns n r.0 v' (ground (arith, h))))

  same_call :
      (turns : List Turn) (calls : List (List Turn)) (k : Kharon Store)
      → Inv k.store
      → run_poller ops s (turns ∷ calls) k ≡ poll ops s turns 0 k
  unfolding run_poller
  same_call turns calls k v = elim (Option-cases (poll ops s turns 0 k).returned) [
    | inl busy ↦ rw (busy, run_poller) refl
    | inr (d, e) ↦ rw (e, (Holds-poll turns 0 k v).1 d e, run_poller) refl
  ]

  -- With normal settings, over an in-memory store with the invariant, where `sort.Slice` sorts and
  -- loops visit each entry once: the poller calls poll only once, keeps the invariant, goes on as
  -- long as no turn is interrupted by a cancellation, and returns with no delay but 0.
  pub poller_goes_on :
      (turns : List Turn) (calls : List (List Turn)) (k : Kharon Store)
      → Inv k.store
      → let p = run_poller ops s (turns ∷ calls) k in
        (p ≡ poll ops s turns 0 k)
        × Inv p.kharon.store
        × (any interrupted turns ≡ false → p.returned ≡ none)
        × ((d : ℤ) → p.returned ≡ some d → d ≡ pos 0)
  poller_goes_on turns calls k v =
      let same = same_call turns calls k v in
      let (kept, ends) = Holds-poll turns 0 k v in
      (
        same,
        subst (λ (p : Polled Store). Inv p.kharon.store) (sym same) kept,
        λ h. ap (λ p. p.returned) same ∙ poll_busy turns 0 k v h,
        λ d e. ends d (sym (ap (λ p. p.returned) same) ∙ e),
      )
