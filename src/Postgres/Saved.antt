-- ===== src/Postgres/Saved.antt =====
-- What a ticket keeps and what it loses in the tables of store/postgres.
use lymbo.Base.{
  String, ◌≡◌, refl, ap, sym, ◌∙◌, ℤ, List, Option, none, some, false, arith, eq_iff, lookup,
  insert, lookup-insert, wrap16_lem, wrap32_lem,
}
use lymbo.Errors.{Result, ok, err, ◌>>=◌, >>=-parts}
use lymbo.Status.{from_string}
use lymbo.Ticket.{Floats, Ticket, zero_time}
use lymbo.Postgres.{Columns, Row, exec, ticket_of, row_of, get, put, update}
use lymbo.Postgres.Polling.{set_tubes}
use lymbo.Postgres.Sql.{Db, Server, Pairs, sql_get, sql_put, touched}
use lymbo.Postgres.Sql.Poll.{sql, is_candidate}
use lymbo.Postgres.Refinement.{Fits}
use lymbo.Postgres.Refinement.Handout.{set_tubes_lem}

module _ (fl : Floats) (sv : Server) (parse : String → Option String) where
  ticket_of-row_of :
      (t : Ticket)
      → Fits sv parse t
      → ticket_of (row_of t.id t.tube t.group_id t).columns
        ≡ ok (record t { tube = ""; group_id = none; ready_at = zero_time })
  unfolding ticket_of row_of from_string
  ticket_of-row_of t h =
      rw
        (
          wrap16_lem t.nice h.nice_fits.0 h.nice_fits.1,
          wrap32_lem t.attempts h.attempts_fit.0 h.attempts_fit.1,
          h.is_pending,
        )
        refl

  abbrev with_row : Ticket → Db → Db
  with_row t db = record db { table = insert t.id (row_of t.id t.tube t.group_id t) db.table }

  put_stored :
      (t : Ticket) (db : Db)
      → Fits sv parse t
      → lookup t.id db.table ≡ none
      → put parse (sql fl sv) t db ≡ (with_row t db, ok tt)
  unfolding put sql_put
  put_stored t db h absent = ground (arith, h.usual, h.in_tube, h.stored)

  get_stored :
      (id uuid : String) (r : Row) (db : Db)
      → parse id ≡ some uuid
      → lookup uuid db.table ≡ some r
      → get parse (sql fl sv) id db ≡ ticket_of r.columns
  unfolding get sql_get
  get_stored id uuid r db p h = ground arith

  -- A new ticket that fits is read back by Get after Put as it was, but without its tube, its group and
  -- its ReadyAt.
  pub get-put :
      (t : Ticket) (db : Db)
      → Fits sv parse t
      → lookup t.id db.table ≡ none
      → get parse (sql fl sv) t.id (put parse (sql fl sv) t db).0
        ≡ ok (record t { tube = ""; group_id = none; ready_at = zero_time })
  get-put t db h absent =
      let row = row_of t.id t.tube t.group_id t in
      ap (λ (w : Db × Result (Unit {0})). get parse (sql fl sv) t.id w.0) (put_stored t db h absent)
      ∙ get_stored t.id t.id row (with_row t db) h.usual
          (ground (arith, lookup-insert t.id t.id row db.table, eq_iff t.id t.id))
      ∙ ticket_of-row_of t h

  exec_ok : (db : Db) (m : Result Db) → (exec db m).1 ≡ ok tt → m ≡ ok (exec db m).0
  exec_ok db (ok after) h = refl
  exec_ok db (err e) h = absurd (cc)

  abbrev chain : String → Row → (Ticket → Result Ticket) → Db → Result Db
  chain uuid r fn db = do
    t ← ticket_of r.columns
    t' ← fn t
    sql_put sv (row_of uuid t'.tube none t') db

  update_chain :
      (id uuid : String) (r : Row) (fn : Ticket → Result Ticket) (db : Db)
      → parse id ≡ some uuid
      → lookup uuid db.table ≡ some r
      → r.columns.id ≡ uuid
      → update parse (sql fl sv) id fn db ≡ exec db (chain uuid r fn db)
  unfolding update sql_get
  update_chain id uuid r fn db p h k = ground (arith, k)

  -- What an update that succeeds has written: the row of a ticket that the function returned, without
  -- a tube unless the function set one.
  pub written :
      (id uuid : String) (r : Row) (fn : Ticket → Result Ticket) (db : Db)
      → parse id ≡ some uuid
      → lookup uuid db.table ≡ some r
      → r.columns.id ≡ uuid
      → (update parse (sql fl sv) id fn db).1 ≡ ok tt
      → (t : Ticket) × (t' : Ticket) × (ticket_of r.columns ≡ ok t)
        × (fn t ≡ ok t')
        × (sql_put sv (row_of uuid t'.tube none t') db ≡ ok (update parse (sql fl sv) id fn db).0)
  written id uuid r fn db p h k done =
      let same = update_chain id uuid r fn db p h k in
      let ended : chain uuid r fn db ≡ ok (exec db (chain uuid r fn db)).0 =
        exec_ok db (chain uuid r fn db)
          (sym (ap (λ (w : Db × Result (Unit {0})). w.1) same) ∙ done) in
      let (t, read, rest) = >>=-parts (ticket_of r.columns) ended in
      let (t', changed, put) = >>=-parts (fn t) rest in
      (t, t', read, changed, put ∙ ap (λ (w : Db × Result (Unit {0})). ok w.0) (sym same))

  put_over :
      (row old : Row) (db after : Db)
      → ((c c' : Columns) → sv.accepts c ≡ ok c' → c'.id ≡ c.id)
      → lookup row.columns.id db.table ≡ some old
      → sql_put sv row db ≡ ok after
      → (r' : Row) × (lookup row.columns.id after.table ≡ some r') × (r'.tube ≡ row.tube)
  unfolding sql_put
  put_over row old db after keeps h e =
      let (c, accepted, rest) = >>=-parts (sv.accepts row.columns) e in
      let new : Row = record row { columns = touched sv old c; group_id = old.group_id } in
      let same : c.id ≡ row.columns.id = keeps row.columns c accepted in
      (
        new,
        ground (
          arith,
          rest,
          same,
          lookup-insert c.id row.columns.id new db.table,
          eq_iff c.id row.columns.id,
        ),
        refl,
      )

  no_tube : (c : Columns) (t : Ticket) → ticket_of c ≡ ok t → t.tube ≡ ""
  unfolding ticket_of
  no_tube c t h = ground arith

  never_polled :
      (uuid : String) (r : Row) (now : ℤ) (asked tubes : List String) (deps : Pairs)
      → r.tube ≡ ""
      → set_tubes asked ≡ ok tubes
      → is_candidate now tubes deps uuid r ≡ false
  unfolding is_candidate
  never_polled uuid r now asked tubes deps e h = ground (arith, set_tubes_lem asked)

  -- Where the conversions of the server keep ids, and the row of a ticket stands under its id: an update
  -- by a function that leaves the tube alone succeeds only by erasing the tube. The row that it writes
  -- has the empty name, and no later poll takes the ticket, since setTubes passes no empty name on.
  pub update_erases_tube :
      (id uuid : String) (r : Row) (fn : Ticket → Result Ticket) (db : Db)
      → parse id ≡ some uuid
      → lookup uuid db.table ≡ some r
      → r.columns.id ≡ uuid
      → ((c c' : Columns) → sv.accepts c ≡ ok c' → c'.id ≡ c.id)
      → ((t t' : Ticket) → fn t ≡ ok t' → t'.tube ≡ t.tube)
      → (update parse (sql fl sv) id fn db).1 ≡ ok tt
      → (r' : Row) × (lookup uuid (update parse (sql fl sv) id fn db).0.table ≡ some r')
        × (r'.tube ≡ "")
        × ((now : ℤ) (asked tubes : List String) (deps : Pairs)
            → set_tubes asked ≡ ok tubes
            → is_candidate now tubes deps uuid r' ≡ false)
  unfolding row_of
  update_erases_tube id uuid r fn db p h k keeps tube done =
      let (t, t', read, changed, put) = written id uuid r fn db p h k done in
      let after = (update parse (sql fl sv) id fn db).0 in
      let (r', there, same) = put_over (row_of uuid t'.tube none t') r db after keeps h put in
      let erased : r'.tube ≡ "" = same ∙ tube t t' changed ∙ no_tube r.columns t read in
      (
        r',
        there,
        erased,
        λ now asked tubes deps e. never_polled uuid r' now asked tubes deps erased e,
      )
