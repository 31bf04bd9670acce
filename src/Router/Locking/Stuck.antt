-- ===== src/Router/Locking/Stuck.antt =====
-- That a ticket without a route and a registration can stop a router of router.go for good.
use lymbo.Base.{
  get_elem?, set, total, total-set, le-total, get_elem?-set, ℕ, ◌+◌, ◌<◌, ◌≤◌, ◌≡◌, refl, String,
  List, [], ◌∷◌, some, Bool, true, false, arith, nat_eq, all,
}
use lymbo.Router.{Router}
use lymbo.Router.Locking.{
  RwMutex, IsRwMutex, Pc, handler_called, looking, not_found_called, not_found_reads, resolving,
  resolved, register_called, locking, registering, registered, System, Move, Steps,
}

-- The read locks that a call holds.
abbrev holds : {H : Type 0} → Pc H → ℕ
holds (looking t) = 1
holds not_found_called = 1
holds not_found_reads = 2
holds (resolving d) = 1
holds _ = 0

abbrev asks : {H : Type 0} → Pc H → ℕ
asks (locking route h) = 1
asks _ = 0

-- Whether a call can go on only once it has got the lock.
abbrev pub needs_lock : {H : Type 0} → Pc H → Bool
needs_lock (handler_called t) = true
needs_lock not_found_called = true
needs_lock (locking route h) = true
needs_lock _ = false

-- Whether a call has not begun yet.
abbrev pub is_start : {H : Type 0} → Pc H → Bool
is_start (handler_called t) = true
is_start (register_called route h) = true
is_start _ = false

total-start :
    {H : Type 0} (calls : List (Pc H))
    → all is_start calls ≡ true
    → (total holds calls ≡ 0) × (total asks calls ≡ 0)
unfolding total all
total-start [] h = (refl, refl)
total-start (handler_called t ∷ calls) h = ground (arith, total-start calls h)
total-start (register_called route x ∷ calls) h = ground (arith, total-start calls h)
total-start (looking t ∷ calls) h = cc
total-start (not_found_called ∷ calls) h = cc
total-start (not_found_reads ∷ calls) h = cc
total-start (resolving d ∷ calls) h = cc
total-start (resolved d ∷ calls) h = cc
total-start (locking route x ∷ calls) h = cc
total-start (registering route x ∷ calls) h = cc
total-start (registered ∷ calls) h = cc

module _ {H L : Type 0} (m : RwMutex L) (lawful : IsRwMutex m) where
  -- The mutex agrees with the calls on who holds it and who waits.
  record Agrees (s : System H L) : Type 0 where
    reading : m.readers s.mutex ≡ total holds s.calls
    asking : m.waiting s.mutex ≡ total asks s.calls

  Move-Agrees :
      {l' : L} {r' : Router H} {p q : Pc H} (l : L) (r : Router H) (calls : List (Pc H)) (i : ℕ)
      → get_elem? calls i ≡ some p
      → Move m l r p l' r' q
      → m.readers l ≡ total holds calls
      → m.waiting l ≡ total asks calls
      → (m.readers l' ≡ total holds (set calls i q)) × (m.waiting l' ≡ total asks (set calls i q))
  Move-Agrees {p = p} {q = q} l r calls i at mv reading asking =
      let a = total-set holds calls i p q at in
      let b = total-set asks calls i p q at in
      let c = le-total holds calls i p at in let d = le-total asks calls i p at in effect mv a b c d
    where
      effect :
          {l' : L} {r' : Router H} {p q : Pc H} {hs as' : ℕ}
          → Move m l r p l' r' q
          → hs + holds p ≡ total holds calls + holds q
          → as' + asks p ≡ total asks calls + asks q
          → holds p ≤ total holds calls
          → asks p ≤ total asks calls
          → (m.readers l' ≡ hs) × (m.waiting l' ≡ as')
      effect (Move.enters t ok) a b c d =
          omega (arith, lawful.readers-r_lock l, lawful.waiting-r_lock l)
      effect (Move.finds t h e) a b c d = omega arith
      effect (Move.misses t e) a b c d = omega arith
      effect (Move.nests ok) a b c d =
          omega (arith, lawful.readers-r_lock l, lawful.waiting-r_lock l)
      effect Move.falls_back a b c d =
          omega (arith, lawful.readers-r_unlock l, lawful.waiting-r_unlock l)
      effect (Move.leaves x) a b c d =
          omega (arith, lawful.readers-r_unlock l, lawful.waiting-r_unlock l)
      effect (Move.calls_lock route h) a b c d =
          omega (arith, lawful.readers-lock_calls l, lawful.waiting-lock_calls l)
      effect (Move.gets_lock route h ok) a b c d =
          omega (arith, lawful.readers-lock_returns l, lawful.waiting-lock_returns l)
      effect (Move.registers route h) a b c d =
          omega (arith, lawful.readers-unlock l, lawful.waiting-unlock l)

  start-Agrees :
      (s : System H L)
      → m.readers s.mutex ≡ 0
      → m.waiting s.mutex ≡ 0
      → all is_start s.calls ≡ true
      → Agrees s
  start-Agrees s unread unasked begins =
      let z = total-start s.calls begins in
      record { reading = omega (arith, z.0); asking = omega (arith, z.1) }

  steps-Agrees : {s s' : System H L} → Agrees s → Steps m s s' → Agrees s'
  steps-Agrees a Steps.none_yet = a
  steps-Agrees a (Steps.next {s = s} i before at mv) =
      let v = steps-Agrees a before in
      let w = Move-Agrees s.mutex s.router s.calls i at mv v.reading v.asking in
      record { reading = w.0; asking = w.1 }

  -- Where a reader and a writer wait, whoever needs the lock stays.
  module _ {s : System H L} (v : Agrees s) (i j : ℕ) (route : String) (h : H)
      (nested : get_elem? s.calls i ≡ some not_found_called)
      (waits : get_elem? s.calls j ≡ some (locking route h)) where
    shut : (m.can_read s.mutex ≡ false) × (m.can_write s.mutex ≡ false)
    shut =
        let a = le-total holds s.calls i not_found_called nested in
        let b = le-total asks s.calls j (locking route h) waits in
        let c : 0 < m.readers s.mutex = omega (arith, v.reading, a) in
        let d : 0 < m.waiting s.mutex = omega (arith, v.asking, b) in
        (lawful.readers_wait s.mutex d c, lawful.writers_wait s.mutex c)

    moves_free :
        {l : L} {r : Router H} {p q : Pc H} → Move m s.mutex s.router p l r q → needs_lock p ≡ false
    moves_free (Move.enters t ok) = absurd (cc (shut.0, ok))
    moves_free (Move.finds t x e) = refl
    moves_free (Move.misses t e) = refl
    moves_free (Move.nests ok) = absurd (cc (shut.0, ok))
    moves_free Move.falls_back = refl
    moves_free (Move.leaves d) = refl
    moves_free (Move.calls_lock a x) = refl
    moves_free (Move.gets_lock a x ok) = absurd (cc (shut.1, ok))
    moves_free (Move.registers a x) = refl

    stays_once :
        {l : L} {r : Router H} {p q : Pc H} (k n : ℕ) (w : Pc H)
        → get_elem? s.calls n ≡ some p
        → Move m s.mutex s.router p l r q
        → get_elem? s.calls k ≡ some w
        → needs_lock w ≡ true
        → get_elem? (set s.calls n q) k ≡ some w
    stays_once {p = p} {q = q} k n w at mv e needs =
        ground (arith, get_elem?-set s.calls n k p w q at e, moves_free mv, same)
      where
        same : nat_eq n k ≡ true → n ≡ k
        same t = ground arith

  frozen :
      {s s' : System H L} (i j : ℕ) (route : String) (h : H)
      → Agrees s
      → get_elem? s.calls i ≡ some not_found_called
      → get_elem? s.calls j ≡ some (locking route h)
      → Steps m s s'
      → (k : ℕ) (w : Pc H) → get_elem? s.calls k ≡ some w
      → needs_lock w ≡ true
      → get_elem? s'.calls k ≡ some w
  frozen i j route h a nested waits Steps.none_yet k w e needs = e
  frozen i j route h a nested waits (Steps.next {s = t} n before at mv) k w e needs =
      let still = frozen i j route h a nested waits before in
      stays_once (steps-Agrees a before) i j route h (still i not_found_called nested refl)
        (still j (locking route h) waits refl) k n w at mv (still k w e needs) needs

  -- Let the calls of a router begin with its mutex free, and let them reach a state in which a call
  -- of Handler has found no route and has yet to call RLock a second time, while a call of register
  -- waits in Lock. Then, whatever steps follow, each call that needs the mutex then, these two
  -- included, stays where it is for good.
  pub handler_stops_router :
      {start s s' : System H L} (i j k : ℕ) (route : String) (h : H) (w : Pc H)
      → m.readers start.mutex ≡ 0
      → m.waiting start.mutex ≡ 0
      → all is_start start.calls ≡ true
      → Steps m start s
      → get_elem? s.calls i ≡ some not_found_called
      → get_elem? s.calls j ≡ some (locking route h)
      → Steps m s s'
      → get_elem? s.calls k ≡ some w
      → needs_lock w ≡ true
      → get_elem? s'.calls k ≡ some w
  handler_stops_router {start = start} i j k route h w unread unasked begins reached nested waits on
        e needs =
      frozen i j route h (steps-Agrees (start-Agrees start unread unasked begins) reached) nested
        waits on k w e needs
