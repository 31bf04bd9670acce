-- ===== src/Worker/Deadlines.antt =====
-- The deadlines of the handlers of kharon.go where the tickets come from the in-memory store.
use mathlib.Core.List.{Mem}
use lymbo.Base.{◌≡◌, ℤ, ◌≤ℤ◌, List, Bool, arith, Perm}
use lymbo.Errors.{ok}
use lymbo.Ticket.{Floats, Ticket, PollRequest}
use lymbo.Memory.{Tickets, Store}
use lymbo.Memory.Poll.{poll_pending}
use lymbo.Memory.Invariant.{Inv}
use lymbo.Memory.Sorted.{IsSortSlice}
use lymbo.Memory.Handout.{poll_returns_due}
use lymbo.Worker.{deadline}

module _ (fl : Floats) (sort_slice : (Ticket → Ticket → Bool) → List Ticket → List Ticket)
    (range : Tickets → Tickets) (sorting : IsSortSlice sort_slice)
    (shuffle : (m : Tickets) → Perm (range m) m) where
  -- Where the in-memory store has the invariant, `sort.Slice` sorts and loops visit each entry once: the
  -- handler of a polled ticket that starts at or after the time of the poll is given a deadline that is
  -- not after its start.
  pub deadline_passed :
      (req : PollRequest) (s s' : Store) (ts : List Ticket) (t : Ticket) (start : ℤ)
      → Inv s
      → poll_pending fl sort_slice range req s ≡ (s', ok ts)
      → Mem t ts
      → req.now ≤ℤ start
      → deadline t ≤ℤ start
  unfolding deadline
  deadline_passed req s s' ts t start v polled m late =
      let h = poll_returns_due fl sort_slice range sorting shuffle req s s' ts v polled t m in
      ground arith
