-- ===== src/Router/Locking.antt =====
-- The lock of router.go: the methods of a router as the single steps of threads that share it.
-- sync.RWMutex is a library's, and so a parameter: `RwMutex` has its calls, where a call that may have
-- to wait is a test and a change, and `IsRwMutex` what its documentation promises of them.
pub mod Stuck
use lymbo.Base.{
  get_elem?, set, ℕ, zero, suc, ◌+◌, ◌-◌, ◌<◌, ◌≡◌, String, List, [], ◌∷◌, Option, none, some, Bool,
  true, false, ◌==◌, lookup,
}
use lymbo.Ticket.{Ticket}
use lymbo.Router.{Router, Handler, usable, Resolved, handler, register, router_not_found}

pub record RwMutex (L : Type 0) : Type 0 where
  pub readers : L → ℕ  -- the calls of RLock that have returned, less those of RUnlock
  pub waiting : L → ℕ  -- the calls of Lock that have not returned
  pub can_read : L → Bool  -- whether a call of RLock may return
  pub can_write : L → Bool  -- whether a call of Lock that waits may return
  pub r_lock : L → L
  pub r_unlock : L → L
  pub lock_calls : L → L
  pub lock_returns : L → L
  pub unlock : L → L

pub record IsRwMutex {L : Type 0} (m : RwMutex L) : Type 0 where
  -- A Lock that waits lets no new reader in, and a reader lets no writer in.
  pub readers_wait : (l : L) → 0 < m.waiting l → 0 < m.readers l → m.can_read l ≡ false
  pub writers_wait : (l : L) → 0 < m.readers l → m.can_write l ≡ false
  pub readers-r_lock : (l : L) → m.readers (m.r_lock l) ≡ m.readers l + 1
  pub readers-r_unlock : (l : L) → m.readers (m.r_unlock l) ≡ m.readers l - 1
  pub readers-lock_calls : (l : L) → m.readers (m.lock_calls l) ≡ m.readers l
  pub readers-lock_returns : (l : L) → m.readers (m.lock_returns l) ≡ m.readers l
  pub readers-unlock : (l : L) → m.readers (m.unlock l) ≡ m.readers l
  pub waiting-r_lock : (l : L) → m.waiting (m.r_lock l) ≡ m.waiting l
  pub waiting-r_unlock : (l : L) → m.waiting (m.r_unlock l) ≡ m.waiting l
  pub waiting-lock_calls : (l : L) → m.waiting (m.lock_calls l) ≡ m.waiting l + 1
  pub waiting-lock_returns : (l : L) → m.waiting (m.lock_returns l) ≡ m.waiting l - 1
  pub waiting-unlock : (l : L) → m.waiting (m.unlock l) ≡ m.waiting l

-- Where a call of Handler or of register stands. The checks of register before its Lock are done.
pub data Pc (H : Type 0) : Type 0 where
  handler_called : Ticket → Pc H  -- before the RLock of Handler
  looking : Ticket → Pc H  -- behind it
  not_found_called : Pc H  -- before the RLock of NotFoundHandler
  not_found_reads : Pc H  -- behind it
  resolving : Resolved H → Pc H  -- before the RUnlock of Handler
  resolved : Resolved H → Pc H
  register_called : String → H → Pc H  -- before the Lock of register
  locking : String → H → Pc H  -- in it
  registering : String → H → Pc H  -- behind it
  registered : Pc H

-- The calls of one router.
pub record System (H L : Type 0) : Type 0 where
  pub mutex : L
  pub router : Router H
  pub calls : List (Pc H)

-- One step of one call.
pub data Move {H L : Type 0} (m : RwMutex L) (l : L) (r : Router H)
    : Pc H → L → Router H → Pc H → Type 0 where
  enters :
      (t : Ticket) → m.can_read l ≡ true → Move m l r (handler_called t) (m.r_lock l) r (looking t)
  finds :
      (t : Ticket) (h : H)
      → lookup t.type r.routing_table ≡ some h
      → Move m l r (looking t) l r (resolving (handler (usable h)))
  misses :
      (t : Ticket)
      → lookup t.type r.routing_table ≡ none
      → Move m l r (looking t) l r not_found_called
  nests : m.can_read l ≡ true → Move m l r not_found_called (m.r_lock l) r not_found_reads
  falls_back :
      Move m l r not_found_reads (m.r_unlock l) r (resolving (router_not_found r.not_found_handler))
  leaves : (d : Resolved H) → Move m l r (resolving d) (m.r_unlock l) r (resolved d)
  calls_lock :
      (route : String) (h : H)
      → Move m l r (register_called route h) (m.lock_calls l) r (locking route h)
  gets_lock :
      (route : String) (h : H)
      → m.can_write l ≡ true
      → Move m l r (locking route h) (m.lock_returns l) r (registering route h)
  registers :
      (route : String) (h : H)
      → Move m l r (registering route h) (m.unlock l) (register route (usable h) r).0 registered

-- Any call may make the next step.
pub data Steps {H L : Type 0} (m : RwMutex L) (start : System H L) : System H L → Type 0 where
  none_yet : Steps m start start
  next :
      {s : System H L} {l : L} {r : Router H} {p q : Pc H} (i : ℕ)
      → Steps m start s
      → get_elem? s.calls i ≡ some p
      → Move m s.mutex s.router p l r q
      → Steps m start (record { mutex = l; router = r; calls = set s.calls i q })
