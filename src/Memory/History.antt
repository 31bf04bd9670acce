-- ===== src/Memory/History.antt =====
-- Histories of the in-memory store: any sequence of calls, by any number of clients, since the
-- mutex lets each call run alone.
use lymbo.Base.{
  String, ◌≡◌, sym, ap, subst, inl, inr, ℤ, pos, leb_ℤ, List, Bool, true, arith, Bool-cases, all,
  Perm,
}
use lymbo.Base.Members.{all_of_mem}
use lymbo.Errors.{Result}
use lymbo.Status.{pending, is}
use lymbo.Ticket.{Floats, Ticket, UpdateSet, PollRequest}
use lymbo.Memory
use lymbo.Memory.{Tickets, Store, new_store}
use lymbo.Memory.Poll.{chosen, lease_all, poll_pending}
use lymbo.Memory.Invariant.{Inv, new_store-Inv}
use lymbo.Memory.Preserve.{
  put-Inv, put_after_group-Inv, delete-Inv, delete_batch-Inv, update_batch-Inv, update-Inv,
  sets_known, UpdateFits,
}
use lymbo.Memory.Expire.{expire_tickets-Inv}
use lymbo.Memory.Sorted.{IsSortSlice}
use lymbo.Memory.Polling.{is_due, chosen_stored}
use lymbo.Memory.Leases.{lease_all-Inv}
use lymbo.Memory.Handout.{poll_eq, poll_low}

-- A call that may change the store. A call that loops over the map comes with the order in which
-- the loop visits it, and updates with the times at which they are made.
pub data Call : Type 0 where
  put : Ticket → Call
  put_after_group : (Tickets → Tickets) → Ticket → String → Call
  delete : String → Call
  delete_batch : List String → Call
  update_batch : List (ℤ × UpdateSet) → Call
  update : String → (Ticket → Result Ticket) → Call
  poll : (Tickets → Tickets) → PollRequest → Call
  expire : (Tickets → Tickets) → ℤ → ℤ → Call

abbrev pub IsRange : (Tickets → Tickets) → Type 0
IsRange range = (m : Tickets) → Perm (range m) m

-- Loops visit each entry once, updates set defined statuses, and a function that is handed to Update
-- keeps the id, sets a defined status and does not end a ticket that a finalizer waits for.
abbrev pub IsFit : Call → Store → Type 0
IsFit (put t) s = Unit {0}
IsFit (put_after_group range t group) s = IsRange range
IsFit (delete id) s = Unit {0}
IsFit (delete_batch ids) s = Unit {0}
IsFit (update_batch updates) s = all (λ u. sets_known u.1) updates ≡ true
IsFit (update tid fn) s = UpdateFits tid fn s
IsFit (poll range req) s = IsRange range
IsFit (expire range limit now) s = IsRange range

module _ (fl : Floats) (sort_slice : (Ticket → Ticket → Bool) → List Ticket → List Ticket) where
  unfoldable pub step : Call → Store → Store
  step (put t) s = (Memory.put t s).0
  step (put_after_group range t group) s = (Memory.put_after_group range t group s).0
  step (delete id) s = (Memory.delete id s).0
  step (delete_batch ids) s = (Memory.delete_batch ids s).0
  step (update_batch updates) s = (Memory.update_batch fl updates s).0
  step (update tid fn) s = (Memory.update tid fn s).0
  step (poll range req) s = (poll_pending fl sort_slice range req s).0
  step (expire range limit now) s = (Memory.expire_tickets range limit now s).0

  -- The stores that fit calls lead to from the new store.
  pub data Reachable : Store → Type 0 where
    fresh : Reachable new_store
    next : {s : Store} (c : Call) → Reachable s → IsFit c s → Reachable (step c s)

  module _ (sorting : IsSortSlice sort_slice) where
    leases-Inv :
        (range : Tickets → Tickets) (req : PollRequest) (s : Store)
        → IsRange range
        → Inv s
        → Inv (record s { entries = lease_all fl req (chosen fl sort_slice range req s) s.entries })
    leases-Inv range req s shuffle v =
        lease_all-Inv fl req (chosen fl sort_slice range req s) s
          (all_of_mem (λ t. is t.status pending) (chosen fl sort_slice range req s)
            (λ t m.
              pending_of_due req s t
                (chosen_stored fl sort_slice range sorting shuffle req s v t m).1))
          v
      where
        pending_of_due :
            (req : PollRequest) (s : Store) (t : Ticket)
            → is_due req s t ≡ true
            → is t.status pending ≡ true
        pending_of_due req s t h = ground arith

    pub poll_pending-Inv :
        (range : Tickets → Tickets) (req : PollRequest) (s : Store)
        → IsRange range
        → Inv s
        → Inv (poll_pending fl sort_slice range req s).0
    poll_pending-Inv range req s shuffle v = elim (Bool-cases (leb_ℤ req.limit (pos 0))) [
      | inl low ↦
          subst Inv (sym (ap (λ r. r.0) (poll_low fl sort_slice range sorting shuffle req s low))) v
      | inr positive ↦
          subst Inv
            (sym (ap (λ r. r.0) (poll_eq fl sort_slice range sorting shuffle req s v positive)))
            (leases-Inv range req s shuffle v)
    ]

    pub step-Inv : (c : Call) (s : Store) → IsFit c s → Inv s → Inv (step c s)
    unfolding step
    step-Inv (put t) s f v = put-Inv t s v
    step-Inv (put_after_group range t group) s f v = put_after_group-Inv range t group s f v
    step-Inv (delete id) s f v = delete-Inv id s v
    step-Inv (delete_batch ids) s f v = delete_batch-Inv ids s v
    step-Inv (update_batch updates) s f v = update_batch-Inv fl updates s f v
    step-Inv (update tid fn) s f v = update-Inv tid fn s f v
    step-Inv (poll range req) s f v = poll_pending-Inv range req s f v
    step-Inv (expire range limit now) s f v = expire_tickets-Inv range f limit now s v

    -- Where `sort.Slice` sorts: after any sequence of calls on the new store in which loops visit each
    -- entry once, updates set defined statuses, and the functions given to Update keep the id, set
    -- defined statuses and do not end a ticket that a finalizer waits for at that time, no key stands twice, each ticket stands under its id and has a defined status, and each ticket that
    -- a finalizer waits for is stored and pending.
    pub Reachable-Inv : {s : Store} → Reachable s → Inv s
    Reachable-Inv fresh = new_store-Inv
    Reachable-Inv (next {s = s} c r f) = step-Inv c s f (Reachable-Inv r)
