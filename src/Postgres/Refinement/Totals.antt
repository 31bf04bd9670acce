-- ===== src/Postgres/Refinement/Totals.antt =====
-- How many tickets the operations of store/postgres count and hand out, beside store/memory.
use lymbo.Base.{
  ℤ, suc, String, ◌≡◌, refl, ap, sym, ◌∙◌, pos, ◌+ℤ◌, ◌≤ℤ◌, ◌-◌, ◌^◌, wrap32, wrap32_lem, List, [],
  ◌∷◌, map, Option, some, none, Bool, true, false, arith, ◌==◌, ltb, all, all-perm, all-take,
  select, count, count-perm, take, length, length-perm, length-take, length-select, min, pos_part,
  lookup, insert, contains, Perm,
}
use mathlib.Core.List.{Mem, mem-cons_self, mem-cons_of_mem}
use lymbo.Base.Members.{length-map}
use lymbo.Base.Counts.{passes_at, count-maps}
use lymbo.Errors.{ok}
use lymbo.Status.{pending, from_string}
use lymbo.Ticket.{Floats, Ticket, PollRequest}
use lymbo.Memory.{Tickets, Store, is_pending_member}
use lymbo.Memory
use lymbo.Memory.Polling.{is_due}
use lymbo.Postgres.{Columns, Row, PollArgs, Polled, Rows, ticket_of}
use lymbo.Postgres
use lymbo.Postgres.Polling.{args_of, tickets_of, rows_read, poll_pending}
use lymbo.Postgres.Sql.{Table, Db, Server, in_group, taken, touched, sql_count}
use lymbo.Postgres.Sql.Poll.{
  is_candidate, candidates, sooner, sooner_ready, polled_runat, poll_rows, sql_poll, sql,
}
use lymbo.Postgres.View.{Refines, in_group-member}
use lymbo.Postgres.Refinement.Due.{is_candidate-is_due}
use lymbo.Postgres.Refinement.Handout.{set_tubes_lem}

module _ (fl : Floats) (sv : Server) (db : Db) (s : Store) (v : Refines db s)
    (scan : (t : Table) → Perm (sv.scan t) t) where
  -- Where the tables stand for an in-memory store, and the server and the loop over the store visit each
  -- entry once, CountPendingInGroup returns the same number for both.
  pub count_pending_in_group-Refines :
      (range : Tickets → Tickets) (group : String)
      → ((m : Tickets) → Perm (range m) m)
      → Postgres.count_pending_in_group (λ _. none) (sql fl sv) group db
        ≡ ok (Memory.count_pending_in_group range group s)
  unfolding Postgres.count_pending_in_group sql_count Memory.count_pending_in_group
  count_pending_in_group-Refines range group shuffle = ap ok (
      count-perm (λ e. in_group group e.1) (scan db.table)
      ∙ count-maps (λ k r. in_group group r) (λ k t. is_pending_member group t) db.table s.entries
          v.table_map v.inv.entries_map (λ k. in_group-member group k db s v)
      ∙ sym (count-perm (λ e. is_pending_member group e.1) (shuffle s.entries)))

  module _ (req : PollRequest) where
    same_due :
        (k : String) (o : Option Row) (p : Option Ticket)
        → lookup k db.table ≡ o
        → lookup k s.entries ≡ p
        → passes_at k (is_candidate req.now req.request_tubes db.deps) db.table
          ≡ passes_at k (λ _ t. is_due req s t) s.entries
    same_due k none p e f = ground (arith, v.same k, e, f)
    same_due k (some r) none e f = ground (arith, v.same k, e, f)
    same_due k (some r) (some t) e f =
        ground (arith, e, f, is_candidate-is_due req db s k r t v e f)

    -- There are as many candidates as due tickets.
    pub due_count :
        count (λ e. is_candidate req.now req.request_tubes db.deps e.0 e.1) db.table
        ≡ count (λ e. is_due req s e.1) s.entries
    due_count =
        count-maps (is_candidate req.now req.request_tubes db.deps) (λ k t. is_due req s t) db.table
          s.entries v.table_map v.inv.entries_map
          (λ k. same_due k (lookup k db.table) (lookup k s.entries) refl refl)

module _ (fl : Floats) (sv : Server) where
  -- The server can compute the new Runat of the row, and stores the leased columns as they are.
  abbrev pub Leasable : PollArgs → Row → Type 0
  Leasable a r =
      (t : ℤ) × (polled_runat fl sv a r ≡ ok t)
      × (let c = record r.columns { attempts = r.columns.attempts +ℤ pos 1; runat = t } in
          sv.accepts c ≡ ok c)

  abbrev is_open : Columns → Bool
  is_open c = c.status == pending.slug

  poll_rows_total :
      (a : PollArgs) (rs : List Row) (table : Table)
      → all (λ r. is_open r.columns) rs ≡ true
      → ((r : Row) → Mem r rs → Leasable a r)
      → (out : Table × List Polled) × (poll_rows fl sv a rs table ≡ ok out)
        × (all (λ p. is_open p.columns) out.1 ≡ true)
        × (length out.1 ≡ length rs)
  unfolding poll_rows touched all
  poll_rows_total a [] table h w = ((table, []), refl, refl, refl)
  poll_rows_total a (r ∷ rs) table h w =
      let (t, et, exact) = w r mem-cons_self in
      let c = record r.columns { attempts = r.columns.attempts +ℤ pos 1; runat = t } in
      let c' = touched sv r c in
      let next = insert r.columns.id (record r { columns = c' }) table in
      let (out, e, open_still, size) =
        poll_rows_total a rs next (ground (arith, h)) (λ q m. w q (mem-cons_of_mem r m)) in
      (
        (out.0, record { columns = c'; tube = r.tube; ready_at = r.columns.runat } ∷ out.1),
        rw (et, exact, e) refl,
        ground (arith, open_still, h),
        ap suc size,
      )

  all_handed :
      (ps : List Polled)
      → all (λ p. is_open p.columns) ps ≡ true
      → length (tickets_of ps) ≡ length ps
  unfolding tickets_of ticket_of from_string all
  all_handed [] h = refl
  all_handed (p ∷ ps) h = ground (arith, all_handed ps)

  module _ (req : PollRequest) (db : Db) (s : Store) (v : Refines db s)
      (scan : (t : Table) → Perm (sv.scan t) t)
      (order : (rs : List Row) → Perm (sv.sort_rows sooner rs) rs)
      (order_polled : (ps : List Polled) → Perm (sv.sort_polled sooner_ready ps) ps)
      (not_negative : pos 0 ≤ℤ req.limit) (fits : req.limit ≤ℤ pos (2 ^ 31 - 1)) where
    abbrev asked : PollArgs
    asked = args_of fl req req.request_tubes

    abbrev cand : String × Row → Bool
    cand e = is_candidate req.now req.request_tubes db.deps e.0 e.1

    abbrev found : List Row
    found = map (λ e. e.1) (select cand (sv.scan db.table))

    whole_limit : wrap32 req.limit ≡ req.limit
    whole_limit = wrap32_lem req.limit (omega arith) fits

    candidates_eq : candidates sv asked db ≡ take (pos_part req.limit) (sv.sort_rows sooner found)
    unfolding candidates args_of taken
    candidates_eq = rw whole_limit refl

    candidates_count :
        length (candidates sv asked db)
        ≡ min (pos_part req.limit) (count (λ e. is_due req s e.1) s.entries)
    candidates_count =
        ap length candidates_eq
        ∙ length-take (pos_part req.limit) (sv.sort_rows sooner found)
        ∙ ap (min (pos_part req.limit)) (
            length-perm (order found)
            ∙ length-map (λ (e : String × Row). e.1) (select cand (sv.scan db.table))
            ∙ length-select cand (sv.scan db.table)
            ∙ count-perm cand (scan db.table)
            ∙ due_count fl sv db s v scan req)

    found_open :
        (table : Table)
        → all (λ (r : Row). is_open r.columns) (map (λ e. e.1) (select cand table)) ≡ true
    unfolding is_candidate all select
    found_open [] = refl
    found_open (e ∷ table) = ground (arith, found_open table)

    candidates_open : all (λ r. is_open r.columns) (candidates sv asked db) ≡ true
    candidates_open =
        ap (all (λ r. is_open r.columns)) candidates_eq
        ∙ all-take (λ r. is_open r.columns) (pos_part req.limit) (sv.sort_rows sooner found)
            (all-perm (λ r. is_open r.columns) (order found) ∙ found_open (sv.scan db.table))

    answered :
        (out : Table × List Polled)
        → poll_rows fl sv asked (candidates sv asked db) db.table ≡ ok out
        → sql_poll fl sv asked db
          ≡ ok (
            record db { table = out.0 },
            record { rows = sv.sort_polled sooner_ready out.1; broken = none },
          )
    unfolding sql_poll args_of
    answered out e = ground (arith, e, whole_limit)

    succeeds :
        (out : Table × List Polled)
        → poll_rows fl sv asked (candidates sv asked db) db.table ≡ ok out
        → ltb 10 (length req.request_tubes) ≡ false
        → contains "" req.request_tubes ≡ false
        → poll_pending (sql fl sv) fl req db
          ≡ (record db { table = out.0 }, ok (tickets_of (sv.sort_polled sooner_ready out.1)))
    unfolding poll_pending rows_read
    succeeds out e few named =
        ground (arith, few, named, set_tubes_lem req.request_tubes, answered out e)

    -- Where the tables stand for an in-memory store, the server visits and sorts rows by
    -- permutations, can compute the new Runat of each candidate and stores its lease as it is, the limit is not negative and fits into an int32, and there are at
    -- most ten tubes, none of them empty: PollPending of PostgreSQL succeeds, and hands out as many
    -- tickets as the in-memory store holds due ones, up to the limit.
    pub poll_pending-total :
        ltb 10 (length req.request_tubes) ≡ false
        → contains "" req.request_tubes ≡ false
        → ((r : Row) → Mem r (candidates sv asked db) → Leasable asked r)
        → (after : Db) × (tickets : List Ticket) × (poll_pending (sql fl sv) fl req db
            ≡ (after, ok tickets))
          × (length tickets ≡ min (pos_part req.limit) (count (λ e. is_due req s e.1) s.entries))
    poll_pending-total few named leasable =
        let (out, e, open_rows, size) =
          poll_rows_total asked (candidates sv asked db) db.table candidates_open leasable in
        let rows = sv.sort_polled sooner_ready out.1 in
        (
          record db { table = out.0 },
          tickets_of rows,
          succeeds out e few named,
          all_handed rows (all-perm (λ p. is_open p.columns) (order_polled out.1) ∙ open_rows)
              ∙ length-perm (order_polled out.1)
              ∙ size
              ∙ candidates_count,
        )
