-- ===== src/Postgres/Refinement/Handout.antt =====
-- What PollPending of store/postgres hands out.
use lymbo.Base.{
  String, ◌≡◌, ◌≤◌, refl, ap, ◌∙◌, pos, ◌+ℤ◌, ltb_ℤ, List, [], ◌∷◌, Bool, true, arith, contains,
  ltb, Bool-cases, inl, inr, all, all-perm, length, length-perm, length-take, pos_part, wrap32,
  Perm, if◌then◌else◌, insert,
}
use lymbo.Errors.{>>=-parts, Result-cases, ok, err, too_many_tubes, empty_tube}
use lymbo.Ticket.{Floats, Ticket, PollRequest}
use lymbo.Memory.{Store}
use lymbo.Postgres.{Columns, Row, PollArgs, Polled, Rows, ticket_of}
use lymbo.Postgres.Polling.{set_tubes, no_empty, args_of, tickets_of, rows_read, poll_pending}
use lymbo.Postgres.Sql.{Table, Db, Server, touched, taken}
use lymbo.Postgres.Sql.Poll.{
  is_candidate, candidates, sooner, sooner_ready, polled_runat, poll_rows, sql_poll, sql,
}
use lymbo.Postgres.View.{Refines}
use lymbo.Postgres.Refinement.Due.{id_due, candidates_due}

no_empty_lem :
    (tubes : List String)
    → no_empty tubes ≡ (if contains "" tubes then err empty_tube else ok tubes)
unfolding no_empty contains
no_empty_lem [] = refl
no_empty_lem (tube ∷ tubes) = ground (arith, no_empty_lem tubes)

-- setTubes refuses more than ten tubes and any empty name, and else passes the tubes on as they are,
-- also none.
pub set_tubes_lem :
    (tubes : List String)
    → set_tubes tubes ≡ (
        if ltb 10 (length tubes)
        then err too_many_tubes
        else if contains "" tubes
        then err empty_tube
        else ok tubes)
unfolding set_tubes contains
set_tubes_lem [] = refl
set_tubes_lem (tube ∷ tubes) = ground (arith, no_empty_lem (tube ∷ tubes))

tickets_of-all :
    (q : String → Bool) (ps : List Polled)
    → all (λ p. q p.columns.id) ps ≡ true
    → all (λ t. q t.id) (tickets_of ps) ≡ true
unfolding tickets_of ticket_of all
tickets_of-all q [] h = refl
tickets_of-all q (p ∷ ps) h = ground (arith, tickets_of-all q ps)

length-tickets_of : (ps : List Polled) → length (tickets_of ps) ≤ length ps
unfolding tickets_of
length-tickets_of [] = omega arith
length-tickets_of (p ∷ ps) = ground (arith, length-tickets_of ps)

module _ (fl : Floats) (sv : Server)
    (keeps : (c c' : Columns) → sv.accepts c ≡ ok c' → c'.id ≡ c.id) where
  -- The update returns a row for each candidate, under the candidate's id.
  poll_rows_ids :
      (q : String → Bool) (a : PollArgs) (rs : List Row) (table : Table) {out : Table × List Polled}
      → poll_rows fl sv a rs table ≡ ok out
      → all (λ r. q r.columns.id) rs ≡ true
      → (all (λ p. q p.columns.id) out.1 ≡ true) × (length out.1 ≡ length rs)
  unfolding poll_rows touched all
  poll_rows_ids q a [] table e h = ground arith
  poll_rows_ids q a (r ∷ rs) table e h =
      let (t, et, start) = >>=-parts (polled_runat fl sv a r) e in
      let changed = record r.columns { attempts = r.columns.attempts +ℤ pos 1; runat = t } in
      let (c, ec, rest) = >>=-parts (sv.accepts changed) start in
      let next = insert r.columns.id (record r { columns = touched sv r c }) table in
      let (polled, ep, last) = >>=-parts (poll_rows fl sv a rs next) rest in
      ground (arith, keeps changed c ec, poll_rows_ids q a rs next ep, last)

  module _ (req : PollRequest) (db : Db) (s : Store) (v : Refines db s)
      (scan : (t : Table) → Perm (sv.scan t) t)
      (order : (rs : List Row) → Perm (sv.sort_rows sooner rs) rs)
      (order_polled : (ps : List Polled) → Perm (sv.sort_polled sooner_ready ps) ps) where
    abbrev asked : PollArgs
    asked = args_of fl req req.request_tubes

    few : length (candidates sv asked db) ≤ pos_part (wrap32 req.limit)
    unfolding candidates args_of
    few = omega (
      arith,
      length-take (pos_part (wrap32 req.limit))
          (sv.sort_rows sooner (taken sv (is_candidate asked.now asked.tubes db.deps) db.table)),
    )

    due : all (λ r. id_due req s r.columns.id) (candidates sv asked db) ≡ true
    unfolding args_of
    due = candidates_due sv req asked db s v scan order refl refl

    poll_rows_of :
        {out : Db × Rows Polled}
        → sql_poll fl sv asked db ≡ ok out
        → (all (λ p. id_due req s p.columns.id) out.1.rows ≡ true)
          × (length out.1.rows ≤ pos_part (wrap32 req.limit))
    unfolding sql_poll all
    poll_rows_of {out} e = elim (Bool-cases (ltb_ℤ asked.limit (pos 0))) [
      | inl n ↦
          let nothing : out.1.rows ≡ [] = ground (arith, n, e) in
          (rw (nothing, all) refl, rw nothing (omega arith))
      | inr n ↦
          let (out', polled, last) =
            >>=-parts (poll_rows fl sv asked (candidates sv asked db) db.table) (rw n at e) in
          let (ids, sizes) =
            poll_rows_ids (id_due req s) asked (candidates sv asked db) db.table polled due in
          let answer : out.1.rows ≡ sv.sort_polled sooner_ready out'.1 = ground (arith, last) in
          (
            ap (all (λ p. id_due req s p.columns.id)) answer
                ∙ all-perm (λ p. id_due req s p.columns.id) (order_polled out'.1)
                ∙ ids,
            rw answer (omega (arith, length-perm (order_polled out'.1), sizes, few)),
          )
    ]

    answered :
        {after : Db} {tickets : List Ticket}
        → poll_pending (sql fl sv) fl req db ≡ (after, ok tickets)
        → (out : Db × Rows Polled) × (sql_poll fl sv asked db ≡ ok out)
          × (tickets ≡ tickets_of out.1.rows)
    unfolding poll_pending rows_read
    answered {after} {tickets} e = elim (Result-cases (sql_poll fl sv asked db)) [
      | inl (out, k) ↦ (out, k, ground (arith, set_tubes_lem req.request_tubes, e, k))
      | inr (f, k) ↦ absurd (ground (arith, set_tubes_lem req.request_tubes, e, k))
    ]

    -- Where the tables stand for an in-memory store, every ticket that PollPending of PostgreSQL hands
    -- out is one that this store holds as due: pending, its Runat reached, in a requested tube, and
    -- waiting for nobody. There are at most as many as the limit, cut to an int32. The server visits and
    -- sorts rows by permutations and keeps the ids of rows.
    pub poll_pending-due :
        {after : Db} {tickets : List Ticket}
        → poll_pending (sql fl sv) fl req db ≡ (after, ok tickets)
        → (all (λ t. id_due req s t.id) tickets ≡ true)
          × (length tickets ≤ pos_part (wrap32 req.limit))
    poll_pending-due {after} {tickets} e =
        let (out, k, same) = answered e in
        let (ids, few_rows) = poll_rows_of k in
        rw same (
          tickets_of-all (id_due req s) out.1.rows ids,
          omega (arith, length-tickets_of out.1.rows, few_rows),
        )
