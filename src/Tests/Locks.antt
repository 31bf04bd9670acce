-- ===== src/Tests/Locks.antt =====
-- A router whose mutex is held by a worker that asks for it again.
use lymbo.Base.{
  get_elem?, set, ℕ, ◌+◌, ◌-◌, ◌≡◌, refl, [], ◌∷◌, some, arith, nat_eq, ◌&&◌, lookup, all,
}
use lymbo.Router.{new_router}
use lymbo.Router.Locking.{
  RwMutex, IsRwMutex, handler_called, not_found_called, register_called, locking, System, Move,
  Steps,
}
use lymbo.Router.Locking.Stuck.{handler_stops_router}
use lymbo.Tests.Fixtures.{member}

-- Readers, writers that wait, and writers in the section.
abbrev Mutex : Type 0
Mutex = ℕ × ℕ × ℕ

abbrev mutex : RwMutex Mutex
mutex = record {
  readers = λ l. l.0;
  waiting = λ l. l.1;
  can_read = λ l. nat_eq l.1 0 && nat_eq l.2 0;
  can_write = λ l. nat_eq l.0 0 && nat_eq l.2 0;
  r_lock = λ l. (l.0 + 1, l.1, l.2);
  r_unlock = λ l. (l.0 - 1, l.1, l.2);
  lock_calls = λ l. (l.0, l.1 + 1, l.2);
  lock_returns = λ l. (l.0, l.1 - 1, l.2 + 1);
  unlock = λ l. (l.0, l.1, l.2 - 1);
}

mutex-IsRwMutex : IsRwMutex mutex
mutex-IsRwMutex = record {
  readers_wait = λ l h k. ground arith;
  writers_wait = λ l h. ground arith;
  readers-r_lock = λ l. refl;
  readers-r_unlock = λ l. refl;
  readers-lock_calls = λ l. refl;
  readers-lock_returns = λ l. refl;
  readers-unlock = λ l. refl;
  waiting-r_lock = λ l. refl;
  waiting-r_unlock = λ l. refl;
  waiting-lock_calls = λ l. refl;
  waiting-lock_returns = λ l. refl;
  waiting-unlock = λ l. refl;
}

-- Two workers and two registrations.
abbrev four : System ℕ Mutex
four = record {
  mutex = (0, 0, 0);
  router = new_router;
  calls =
      handler_called member
      ∷ handler_called member
      ∷ register_called "a" 1
      ∷ register_called "b" 2
      ∷ [];
}

-- The first worker has found no route, and the first registration waits.
abbrev halted : System ℕ Mutex
halted = record {
  mutex = (1, 1, 0);
  router = new_router;
  calls = not_found_called ∷ handler_called member ∷ locking "a" 1 ∷ register_called "b" 2 ∷ [];
}

-- The second registration waits too.
abbrev later : System ℕ Mutex
later = record {
  mutex = (1, 2, 0);
  router = new_router;
  calls = not_found_called ∷ handler_called member ∷ locking "a" 1 ∷ locking "b" 2 ∷ [];
}

halts : Steps mutex four halted
unfolding set get_elem? lookup
halts =
    Steps.next 2
      (Steps.next 0 (Steps.next 0 Steps.none_yet refl (Move.enters member refl)) refl
        (Move.misses member refl))
      refl (Move.calls_lock "a" 1)

goes_on : Steps mutex halted later
unfolding set get_elem? lookup
goes_on = Steps.next 3 Steps.none_yet refl (Move.calls_lock "b" 2)

handler_stops_router_example : get_elem? later.calls 1 ≡ some (handler_called member)
unfolding get_elem? all
handler_stops_router_example =
    handler_stops_router mutex mutex-IsRwMutex 0 2 1 "a" 1 (handler_called member) refl refl refl
      halts refl refl goes_on refl refl
