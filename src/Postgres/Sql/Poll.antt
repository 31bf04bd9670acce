-- ===== src/Postgres/Sql/Poll.antt =====
-- The statements `poll` and `expire` of store/postgres/template.go, and all the statements together.
use lymbo.Base.{
  String, ℤ, pos, ◌+ℤ◌, ltb_ℤ, leb_ℤ, eqb_ℤ, List, [], ◌∷◌, map, none, some, Bool, ◌&&◌, not, ◌==◌,
  if◌then◌else◌, any, take, insert, contains, pos_part,
}
use lymbo.Errors.{Error, Result, ok, err, other, ◌>>=◌}
use lymbo.Status.{pending}
use lymbo.Ticket.{Floats}
use lymbo.Postgres.{Row, Deleted, PollArgs, Polled, Rows, Queries}
use lymbo.Postgres.Sql.{
  Table, Pairs, Db, Server, foreign_key, mentioned, returned, at_least_zero, least, touched, taken,
  without_ids, sql_get, sql_put, sql_delete, sql_delete_batch, sql_put_after_group, sql_count,
  sql_batch,
}

abbrev pub limit_negative : Error
limit_negative = other "LIMIT must not be negative"

-- EXISTS (SELECT 1 FROM deps d WHERE d.ticket_id = t.id)
unfoldable pub blocked : String → Pairs → Bool
blocked id = any (λ d. d.0 == id)

-- The WHERE of the candidates.
unfoldable pub is_candidate : ℤ → List String → Pairs → String → Row → Bool
unfolding blocked
is_candidate now tubes deps id r =
    r.columns.status == pending.slug
    && leb_ℤ r.columns.runat now
    && contains r.tube tubes
    && not (blocked id deps)

-- ORDER BY runat, nice
unfoldable pub sooner : Row → Row → Bool
sooner r q =
    if eqb_ℤ r.columns.runat q.columns.runat
    then ltb_ℤ r.columns.nice q.columns.nice
    else ltb_ℤ r.columns.runat q.columns.runat

-- ORDER BY ready_at, nice
unfoldable pub sooner_ready : Polled → Polled → Bool
sooner_ready p q =
    if eqb_ℤ p.ready_at q.ready_at
    then ltb_ℤ p.columns.nice q.columns.nice
    else ltb_ℤ p.ready_at q.ready_at

-- WHERE t.status != 'pending' AND t.runat <= $1
unfoldable pub is_over : ℤ → Row → Bool
is_over now r = not (r.columns.status == pending.slug) && leb_ℤ r.columns.runat now

module _ (sv : Server) where
  unfoldable pub candidates : PollArgs → Db → List Row
  unfolding is_candidate sooner taken
  candidates a db =
      take (pos_part a.limit)
        (sv.sort_rows sooner (taken sv (is_candidate a.now a.tubes db.deps) db.table))

  unfoldable pub sql_expire : ℤ → ℤ → Db → Result (Db × Rows Deleted)
  unfolding is_over taken without_ids mentioned
  sql_expire now limit db =
      let over = take (pos_part limit) (taken sv (λ id r. is_over now r) db.table) in
      let ids = map (λ r. r.columns.id) over in
      if ltb_ℤ limit (pos 0)
      then err limit_negative
      else if any (λ id. mentioned id db.deps) ids
      then err foreign_key
      else ok (
        record db { table = without_ids ids db.table },
        record { rows = map returned over; broken = none },
      )

module _ (fl : Floats) (sv : Server) where
  -- $1 + (GREATEST($2, 0) + LEAST($3, POWER($4, LEAST(attempts, $5)))) * INTERVAL '1 second'
  unfoldable pub polled_runat : PollArgs → Row → Result ℤ
  polled_runat a r = do
    p ← sv.power a.backoff_base (fl.of_int (least r.columns.attempts a.max_attempts))
    i ←
        sv.interval
          (fl.plus (fl.of_int (at_least_zero a.ttr)) (fl.minimum (fl.of_int a.max_delay) p))
    ok (a.now +ℤ i)

  -- The UPDATE of the candidates, with the rows that it returns.
  unfoldable pub poll_rows : PollArgs → List Row → Table → Result (Table × List Polled)
  unfolding polled_runat touched
  poll_rows a [] table = ok (table, [])
  poll_rows a (r ∷ rs) table = do
    t ← polled_runat a r
    c ← sv.accepts (record r.columns { attempts = r.columns.attempts +ℤ pos 1; runat = t })
    let c' = touched sv r c
    (table', polled) ← poll_rows a rs (insert r.columns.id (record r { columns = c' }) table)
    ok (table', record { columns = c'; tube = r.tube; ready_at = r.columns.runat } ∷ polled)

  -- A limit that is refused shows when the rows are read.
  unfoldable pub sql_poll : PollArgs → Db → Result (Db × Rows Polled)
  unfolding candidates poll_rows sooner_ready
  sql_poll a db =
      if ltb_ℤ a.limit (pos 0)
      then ok (db, record { rows = []; broken = some limit_negative })
      else (do
        (table, polled) ← poll_rows a (candidates sv a db) db.table
        ok (
          record db { table = table },
          record { rows = sv.sort_polled sooner_ready polled; broken = none },
        ))

  -- newQueries, as the store uses them. Begin and commit of a single user's transaction succeed.
  abbrev pub sql : Queries Db
  sql = record {
    get = sql_get;
    put = sql_put sv;
    delete = sql_delete;
    delete_batch = sql_delete_batch sv;
    put_after_group = sql_put_after_group sv;
    send_batch = λ statements db. sql_batch fl sv statements db db;
    poll = sql_poll;
    expire = sql_expire sv;
    count_pending_in_group = sql_count sv;
    begin = λ db. ok db;
    commit = λ db. ok db;
  }
