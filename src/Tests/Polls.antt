-- ===== src/Tests/Polls.antt =====
-- Polls of the in-memory store, of which the first takes the member of a group while its finalizer waits.
use mathlib.Core.Option
use mathlib.Core.List.{Mem, Memᴰ}
use lymbo.Base.{
  ◌≡◌, refl, pos, ◌+ℤ◌, List, [], ◌∷◌, none, some, true, false, not, arith, ◌==◌, if◌then◌else◌,
  min, all, any, count, length, lookup, insert, contains, select, add64,
}
use lymbo.Base.Order.{sort, compact, binary_search, str_lt}
use lymbo.Errors.{Result, ok}
use lymbo.Ticket.{Ticket, PollRequest, backoff}
use lymbo.Memory.{Store, new_store, put, put_after_group, blockers, is_pending_member, wire, with}
use lymbo.Memory.Poll.{
  poll_pending, chosen, ready, is_ready, precedes, leased, lease_all, lease_time, with_ready_at,
}
use lymbo.Memory.Polling.{is_due}
use lymbo.Memory.Invariant.{Inv}
use lymbo.Memory.History.{Call, Reachable, step, Reachable-Inv, poll_pending-Inv}
use lymbo.Memory.Handout.{
  with_lease, is_before, poll_returns_due, poll_again, poll_leases, poll_count, poll_takes_first,
}
use lymbo.Memory.Redelivery.{redelivered}
use lymbo.Memory.Preserve.{put-Inv}
use lymbo.Tests.Fixtures.{
  floats, sort_slice, sort_by, sort_slice-IsSortSlice, in_order, in_order-perm, ticket, member,
  finalizer, one, two, one-Inv, two-Inv, request,
}

abbrev pub poll : PollRequest → Store → Store × Result (List Ticket)
poll = poll_pending floats sort_slice in_order

-- The poll at the time 10 leases the member and returns it; its finalizer waits.
abbrev pub handed : List Ticket
handed = with_ready_at member ∷ []

abbrev pub after : Store
after = (poll (request (pos 10)) two).0

pub polled : poll (request (pos 10)) two ≡ (after, ok handed)
unfolding poll_pending chosen ready is_ready precedes leased lease_all lease_time backoff put
    put_after_group wire with blockers is_pending_member lookup insert contains select sort_by sort
    compact binary_search str_lt ◌+ℤ◌ add64
polled = refl

after-Inv : Inv after
after-Inv =
    poll_pending-Inv floats sort_slice sort_slice-IsSortSlice in_order (request (pos 10)) two
      in_order-perm two-Inv

stored : lookup "m" two.entries ≡ some member
unfolding put put_after_group lookup insert
stored = refl

-- A poll at the time 12 finds the member leased until 18.
polled_again : poll (request (pos 12)) after ≡ ((poll (request (pos 12)) after).0, ok [])
unfolding poll_pending chosen ready is_ready precedes leased lease_all lease_time backoff put
    put_after_group wire with blockers is_pending_member lookup insert contains select sort_by sort
    compact binary_search str_lt ◌+ℤ◌ add64
polled_again = refl

-- The member is put, then its finalizer, and the member is polled and deleted.
abbrev steps : Store → Store
steps s = step floats sort_slice (Call.delete "m") (
    step floats sort_slice (Call.poll in_order (request (pos 10))) (
      step floats sort_slice (Call.put_after_group in_order finalizer "g")
        (step floats sort_slice (Call.put member) s)))

Reachable-Inv_example : Inv (steps new_store)
Reachable-Inv_example = Reachable-Inv floats sort_slice sort_slice-IsSortSlice (
    Reachable.next (Call.delete "m")
      (Reachable.next (Call.poll in_order (request (pos 10)))
        (Reachable.next (Call.put_after_group in_order finalizer "g")
          (Reachable.next (Call.put member) Reachable.fresh tt) in_order-perm)
        in_order-perm)
      tt)

poll_returns_due_example :
    (Option.map with_ready_at (lookup "m" two.entries) ≡ some (with_ready_at member))
    × (is_due (request (pos 10)) two (with_ready_at member) ≡ true)
poll_returns_due_example =
    poll_returns_due floats sort_slice in_order sort_slice-IsSortSlice in_order-perm
      (request (pos 10)) two after handed two-Inv polled (with_ready_at member) ∣ Memᴰ.head refl ∣₁

poll_again_example : any {A = Ticket} (λ t. t.id == "m") [] ≡ false
unfolding any ◌+ℤ◌ lease_time backoff add64
poll_again_example =
    poll_again floats sort_slice in_order sort_slice-IsSortSlice in_order-perm (request (pos 10))
      (request (pos 12)) two after after (poll (request (pos 12)) after).0 handed [] "m" member
      two-Inv after-Inv polled refl polled_again refl stored (omega arith)

poll_leases_example : lookup "m" after.entries ≡ (
    if any (λ t. t.id == "m") handed
    then Option.map (with_lease floats (request (pos 10))) (lookup "m" two.entries)
    else lookup "m" two.entries)
poll_leases_example =
    poll_leases floats sort_slice in_order sort_slice-IsSortSlice in_order-perm (request (pos 10))
      two after handed two-Inv polled "m"

poll_count_example :
    length handed ≡ min 4 (count (λ e. is_due (request (pos 10)) two e.1) two.entries)
poll_count_example =
    poll_count floats sort_slice in_order sort_slice-IsSortSlice in_order-perm (request (pos 10))
      two after handed two-Inv polled

-- A poll of one ticket, where a second one is due later.
abbrev small : PollRequest
small = record (request (pos 10)) { limit = pos 1 }

abbrev later : Ticket
later = ticket "n" none (pos 6)

abbrev pair : Store
pair = (put later one).0

pair-Inv : Inv pair
pair-Inv = put-Inv later one one-Inv

polled_small : poll small pair ≡ ((poll small pair).0, ok handed)
unfolding poll_pending chosen ready is_ready precedes leased lease_all lease_time backoff put
    put_after_group wire with blockers is_pending_member lookup insert contains select sort_by sort
    compact binary_search str_lt ◌+ℤ◌ add64
polled_small = refl

poll_takes_first_example : all (λ t. not (is_before later t)) handed ≡ true
unfolding put lookup insert blockers contains any
poll_takes_first_example =
    poll_takes_first floats sort_slice in_order sort_slice-IsSortSlice in_order-perm small pair
      (poll small pair).0 handed pair-Inv polled_small "n" later refl refl refl

-- A poll at the time 20, at which the lease of the member has ended.
abbrev again : List Ticket
again = with_ready_at (leased floats (request (pos 10)) member) ∷ []

polled_late : poll (request (pos 20)) after ≡ ((poll (request (pos 20)) after).0, ok again)
unfolding poll_pending chosen ready is_ready precedes leased lease_all lease_time backoff put
    put_after_group wire with blockers is_pending_member lookup insert contains select sort_by sort
    compact binary_search str_lt ◌+ℤ◌ add64
polled_late = refl

redelivered_example :
    Mem (record member { runat = pos 17; attempts = pos 1; ready_at = pos 17 }) again
unfolding any ◌+ℤ◌ lease_time backoff add64 contains
redelivered_example =
    redelivered floats sort_slice in_order sort_slice-IsSortSlice in_order-perm (request (pos 10))
      (request (pos 20)) two after after (poll (request (pos 20)) after).0 handed again "m" member
      two-Inv after-Inv polled refl refl polled_late refl stored (omega arith) refl (omega arith)
