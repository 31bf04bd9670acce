-- ===== src/Memory/Poll.antt =====
-- PollPending of store/memory/memory.go.
-- `sort.Slice` is not stable: the order of tickets that neither precedes is not defined, and the
-- sort is an argument, of which the theorems assume `IsSortSlice`.
use lymbo.Base.{
  String, ℤ, pos, ◌+ℤ◌, add64, ltb_ℤ, leb_ℤ, eqb_ℤ, List, [], ◌∷◌, map, Bool, ◌&&◌, if◌then◌else◌,
  pos_part, min, nat_eq, length, take, select, insert,
}
use lymbo.Base.Order.{sort, compact, binary_search}
use lymbo.Errors.{Result, ok, err, limit_invalid}
use lymbo.Status.{pending, is}
use lymbo.Ticket.{Floats, Ticket, PollRequest, backoff}
use lymbo.Memory.{Tickets, Deps, Store, blockers}

-- The tests of the scan, in its order. `tubes` is sorted and compacted.
unfoldable pub is_ready : ℤ → List String → Deps → Ticket → Bool
is_ready now tubes deps t =
    is t.status pending
    && leb_ℤ t.runat now
    && binary_search tubes t.tube
    && nat_eq (length (blockers t.id deps)) 0

-- The first of two tickets by Runat, then by Nice.
unfoldable pub precedes : Ticket → Ticket → Bool
precedes t u = if eqb_ℤ t.runat u.runat then ltb_ℤ t.nice u.nice else ltb_ℤ t.runat u.runat

-- ready[i].ReadyAt = ready[i].Runat
abbrev pub with_ready_at : Ticket → Ticket
with_ready_at t = record t { ready_at = t.runat }

-- The time from the poll until the stored ticket is due again.
unfoldable pub lease_time : Floats → PollRequest → Ticket → ℤ
lease_time fl req t = add64 (backoff fl req.backoff_base req.max_backoff_delay t.attempts) req.ttr

-- The ticket that is stored for one that is handed out.
unfoldable pub leased : Floats → PollRequest → Ticket → Ticket
leased fl req t = record t {
  runat = req.now +ℤ lease_time fl req t;
  attempts = add64 t.attempts (pos 1);
  ready_at = t.runat;
}

unfoldable pub lease_all : Floats → PollRequest → List Ticket → Tickets → Tickets
lease_all fl req [] entries = entries
lease_all fl req (t ∷ ts) entries = lease_all fl req ts (insert t.id (leased fl req t) entries)

-- The tickets that the scan collects.
unfoldable pub ready : ℤ → List String → Deps → Tickets → List Ticket
ready now tubes deps entries = select (is_ready now tubes deps) (map (λ e. e.1) entries)

module _ (fl : Floats) (sort_slice : (Ticket → Ticket → Bool) → List Ticket → List Ticket)
    (range : Tickets → Tickets) where
  -- The tickets that a poll takes: the first ones of the sorted ready ones.
  unfoldable pub chosen : PollRequest → Store → List Ticket
  chosen req s =
      let found = ready req.now (compact (sort req.request_tubes)) s.deps (range s.entries) in
      take (min (pos_part req.limit) (length found)) (sort_slice precedes found)

  unfoldable pub poll_pending : PollRequest → Store → Store × Result (List Ticket)
  unfolding chosen
  poll_pending req s =
      if leb_ℤ req.limit (pos 0) then (s, err limit_invalid) else elim req.request_tubes [
        | [] ↦ (s, ok [])
        | _ ∷ _ ↦
            let taken = chosen req s in
            (record s { entries = lease_all fl req taken s.entries }, ok (map with_ready_at taken))
      ]
