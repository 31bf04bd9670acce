-- ===== src/Memory/Redelivery.antt =====
-- PollPending of store/memory/memory.go, again: what becomes of a ticket whose lease has ended.
use mathlib.Core.List.{Mem}
use mathlib.Core.Logic.{∥∥₁_elim}
use lymbo.Base.{
  add64, pos, String, ◌≡◌, sym, ap, subst, ◌∙◌, ◌<◌, ◌≤ℤ◌, ◌+ℤ◌, pos_part, List, some, Bool, true,
  arith, ◌==◌, eq_iff, length, any, contains, lookup, Perm,
}
use lymbo.Base.Members.{witness, Memᴰ-map, length-map}
use lymbo.Errors.{ok}
use lymbo.Ticket.{Floats, Ticket, PollRequest, backoff}
use lymbo.Memory.{Tickets, Store, blockers}
use lymbo.Memory.Poll.{with_ready_at, chosen, poll_pending}
use lymbo.Memory.Invariant.{Inv}
use lymbo.Memory.Sorted.{IsSortSlice}
use lymbo.Memory.Polling.{is_due, chosen_stored, chosen_all}
use lymbo.Memory.Handout.{with_lease, poll_ok, taken_ids, poll_leases}

module _ (fl : Floats) (sort_slice : (Ticket → Ticket → Bool) → List Ticket → List Ticket)
    (range : Tickets → Tickets) (sorting : IsSortSlice sort_slice)
    (shuffle : (m : Tickets) → Perm (range m) m) where
  -- What is taken by a poll is due in any store that holds it as the poll left it, with no waits but
  -- those that it had, as soon as its lease has ended.
  due_again :
      (req req' : PollRequest) (s s' s₂ : Store) (ts : List Ticket) (k : String) (u : Ticket)
      → Inv s
      → poll_pending fl sort_slice range req s ≡ (s', ok ts)
      → blockers k s₂.deps ≡ blockers k s'.deps
      → any (λ t. t.id == k) ts ≡ true
      → lookup k s.entries ≡ some u
      → (with_lease fl req u).runat ≤ℤ req'.now
      → contains u.tube req'.request_tubes ≡ true
      → is_due req' s₂ (with_lease fl req u) ≡ true
  due_again req req' s s' s₂ ts k u v first waits returned stored ended asked =
      let taken_first =
        sym (taken_ids fl sort_slice range sorting shuffle req s s' ts v first k) ∙ returned in
      let (t, m, q) = witness (λ t. t.id == k) (chosen fl sort_slice range req s) taken_first in
      let (at, due) = chosen_stored fl sort_slice range sorting shuffle req s v t ∣ m ∣₁ in
      let deps = (poll_ok fl sort_slice range sorting shuffle req s s' ts v first).1 in
      ground (arith, eq_iff t.id k, at, due, waits ∙ ap (blockers k) deps, stored, ended, asked)

  -- As long as a ticket that a poll returned stands in the store as that poll left it, and waits for
  -- nobody but whom it then waited for, whatever else has changed, it is returned again by every poll
  -- that asks for its tube at or after the end of its lease and returns fewer tickets than its limit:
  -- with one attempt more, and the end of the lease as its Runat and ReadyAt. Both stores have the
  -- invariant, `sort.Slice` sorts and loops visit each entry once.
  pub redelivered :
      (req req' : PollRequest) (s s' s₂ s₃ : Store) (ts ts' : List Ticket) (k : String) (u : Ticket)
      → Inv s
      → Inv s₂
      → poll_pending fl sort_slice range req s ≡ (s', ok ts)
      → lookup k s₂.entries ≡ lookup k s'.entries
      → blockers k s₂.deps ≡ blockers k s'.deps
      → poll_pending fl sort_slice range req' s₂ ≡ (s₃, ok ts')
      → any (λ t. t.id == k) ts ≡ true
      → lookup k s.entries ≡ some u
      → let lease =
          req.now +ℤ add64 (backoff fl req.backoff_base req.max_backoff_delay u.attempts) req.ttr in
        lease ≤ℤ req'.now
        → contains u.tube req'.request_tubes ≡ true
        → length ts' < pos_part req'.limit
        → Mem
            (record u { runat = lease; attempts = add64 u.attempts (pos 1); ready_at = lease })
            ts'
  redelivered req req' s s' s₂ s₃ ts ts' k u v v' first kept waits second returned stored ended
        asked room =
      let at : lookup k s₂.entries ≡ some (with_lease fl req u) =
        kept
        ∙ ground (arith, poll_leases fl sort_slice range sorting shuffle req s s' ts v first k) in
      let due = due_again req req' s s' s₂ ts k u v first waits returned stored ended asked in
      let same = (poll_ok fl sort_slice range sorting shuffle req' s₂ s₃ ts' v' second).2 in
      let m =
        chosen_all fl sort_slice range sorting shuffle req' s₂ v' k (with_lease fl req u) at due (
          omega (
            arith,
            room,
            ap length same,
            length-map with_ready_at (chosen fl sort_slice range req' s₂),
          )) in
      subst (Mem (with_ready_at (with_lease fl req u))) (sym same)
        (∥∥₁_elim m (hlevel) (λ d. ∣ Memᴰ-map with_ready_at d ∣₁))
