-- ===== src/Postgres/Sql.antt =====
-- The SQL statements of store/postgres/template.go, over the two tables that its migration makes.
-- A statement is one transaction: where it fails, nothing is changed. What the server does by itself
-- is a `Server`: the conversion of the values that are written (the enum of the statuses, JSONB, the
-- ranges and the resolution of the types), now(), the order in which it visits and sorts rows, and
-- its floating point. A lock of another transaction and SKIP LOCKED are left out.
pub mod Poll
use mathlib.Core.Option
use lymbo.Base.{
  ℕ, String, ℤ, pos, ◌+ℤ◌, ltb_ℤ, leb_ℤ, eqb_ℤ, List, [], ◌∷◌, ◌++◌, map, Option, none, some, Bool,
  true, false, ◌&&◌, ◌||◌, not, ◌==◌, if◌then◌else◌, or_else, over, any, take, select, count,
  lookup, insert, remove, contains, pos_part,
}
use lymbo.Errors.{Error, Result, ok, err, other, no_rows, ◌>>=◌}
use lymbo.Status.{pending, done, failed, cancelled}
use lymbo.Ticket.{Floats}
use lymbo.Postgres.{
  Columns, Row, Deleted, Updated, UpdateArgs, Delay, Statement, update_statement, backoff_statement,
  PollArgs, Polled, Rows, Results, Queries,
}

-- The table of the tickets by its primary key.
abbrev pub Table : Type 0
Table = List (String × Row)

-- The rows of the second table: ticket_id, blocked_by.
abbrev pub Pairs : Type 0
Pairs = List (String × String)

pub record Db : Type 0 where
  pub table : Table
  pub deps : Pairs

pub record Server : Type 0 where
  -- The columns as they are stored, or the error by which a value is refused.
  pub accepts : Columns → Result Columns
  pub now : ℤ
  -- The order in which a statement visits the rows.
  pub scan : Table → Table
  -- ORDER BY
  pub sort_rows : (Row → Row → Bool) → List Row → List Row
  pub sort_polled : (Polled → Polled → Bool) → List Polled → List Polled
  pub greatest : ℕ → ℕ → ℕ
  -- POWER, or the error of a result that is out of range
  pub power : ℕ → ℕ → Result ℕ
  -- x * INTERVAL '1 second', or the error of an interval that is out of range
  pub interval : ℕ → Result ℤ

-- A REFERENCES clause is violated.
abbrev pub foreign_key : Error
foreign_key = other "violates foreign key constraint"

-- `$2 IN ('done', 'failed', 'cancelled')`, false for NULL.
abbrev pub is_final : Option String → Bool
is_final none = false
is_final (some s) = s == done.slug || s == failed.slug || s == cancelled.slug

-- Whether a row of the second table names the ticket.
unfoldable pub mentioned : String → Pairs → Bool
mentioned id = any (λ d. d.0 == id || d.1 == id)

-- WHERE blocked_by = $1
unfoldable pub unblocked : String → Pairs → Pairs
unblocked id = select (λ d. not (d.1 == id))

-- What DELETE ... RETURNING shows of a row.
abbrev pub returned : Row → Deleted
returned r = record { id = r.columns.id; type = r.columns.type; tube = r.tube }

-- GREATEST($2, 0) on integers
abbrev pub at_least_zero : ℤ → ℤ
at_least_zero a = if ltb_ℤ a (pos 0) then pos 0 else a

abbrev pub least : ℤ → ℤ → ℤ
least a b = if ltb_ℤ b a then b else a

-- A pending row of the group.
unfoldable pub in_group : String → Row → Bool
in_group group r =
    elim r.group_id [ none ↦ false | some g ↦ g == group ] && r.columns.status == pending.slug

unfoldable pub sql_get : String → Db → Result Columns
sql_get id db = elim (lookup id db.table) [ none ↦ err no_rows | some r ↦ ok r.columns ]

unfoldable pub sql_delete : String → Db → Result Db
unfolding mentioned
sql_delete id db = elim (lookup id db.table) [
  | none ↦ ok db
  | some _ ↦
      if mentioned id db.deps
      then err foreign_key
      else ok (record db { table = remove id db.table })
]

-- DELETE of several rows
unfoldable pub without_ids : List String → Table → Table
without_ids [] table = table
without_ids (id ∷ ids) table = without_ids ids (remove id table)

-- The members of the group, as the finalizer's rows of the second table.
unfoldable pub waits_for : String → String → Table → Pairs
unfolding in_group
waits_for fid group [] = []
waits_for fid group ((id, r) ∷ table) =
    let rest = waits_for fid group table in
    if in_group group r && not (id == fid) then (fid, id) ∷ rest else rest

-- The columns that both kinds of updates set.
unfoldable pub updated : UpdateArgs → ℤ → Row → Columns
updated a runat r = record r.columns {
  status = or_else a.status r.columns.status;
  nice = or_else a.nice r.columns.nice;
  runat = runat;
  payload = over a.payload r.columns.payload;
  error_reason = over a.error_reason r.columns.error_reason;
}

module _ (sv : Server) where
  -- The trigger: mtime is set where the status or the Runat changes.
  unfoldable pub touched : Row → Columns → Columns
  touched old new =
      if new.status == old.columns.status && eqb_ℤ new.runat old.columns.runat
      then new
      else record new { mtime = some sv.now }

  -- ON CONFLICT the row keeps its group.
  unfoldable pub sql_put : Row → Db → Result Db
  unfolding touched
  sql_put r db = do
    c ← sv.accepts r.columns
    ok (record db {
      table =
          insert c.id
            (elim (lookup c.id db.table) [
              | none ↦ record r { columns = c }
              | some old ↦ record r { columns = touched old c; group_id = old.group_id }
            ])
            db.table;
    })

  -- The rows that a test on their entries takes, in the order of the visits.
  unfoldable pub taken : (String → Row → Bool) → Table → List Row
  taken test table = map (λ e. e.1) (select (λ e. test e.0 e.1) (sv.scan table))

  unfoldable pub sql_delete_batch : List String → Db → Result (Db × Rows Deleted)
  unfolding without_ids taken
  sql_delete_batch ids db = ok (
    record {
      table = without_ids ids db.table;
      deps = select (λ d. not (contains d.0 ids || contains d.1 ids)) db.deps;
    },
    record { rows = map returned (taken (λ id r. contains id ids) db.table); broken = none },
  )

  unfoldable pub sql_put_after_group : Row → String → Db → Result Db
  unfolding waits_for
  sql_put_after_group r group db = do
    c ← sv.accepts r.columns
    elim (lookup c.id db.table) [
      | some _ ↦ ok db
      | none ↦ ok (record {
        table = insert c.id (record r { columns = c }) db.table;
        deps = db.deps ++ waits_for c.id group (sv.scan db.table);
      })
    ]

  unfoldable pub sql_count : String → Db → Result ℕ
  unfolding in_group
  sql_count group db = ok (count (λ e. in_group group e.1) (sv.scan db.table))

  -- Both updates: the rows of the second table, and the row of the ticket if it is there.
  unfoldable pub sql_set : UpdateArgs → (Row → Result ℤ) → Db → Result (Db × Option Updated)
  unfolding unblocked updated touched
  sql_set a runat db =
      let deps = if is_final a.status then unblocked a.id db.deps else db.deps in
      elim (lookup a.id db.table) [
        | none ↦ ok (record db { deps = deps }, none)
        | some r ↦ elim (do t ← runat r; sv.accepts (updated a t r)) [
          | err e ↦ err e
          | ok c ↦
              let tube = or_else a.tube r.tube in
              ok (
                record {
                  table =
                      insert a.id
                        (record {
                          columns = touched r c;
                          tube = tube;
                          group_id = over a.group_id r.group_id;
                        })
                        db.table;
                  deps = deps;
                },
                some (record { id = c.id; type = c.type; tube = tube; status = c.status }),
              )
        ]
      ]

module _ (fl : Floats) (sv : Server) where
  -- now() + (GREATEST($4, 0) + LEAST(POWER($5, LEAST(attempts, $6)), $7)) * INTERVAL '1 second'
  unfoldable pub delayed_runat : Delay → Row → Result ℤ
  delayed_runat d r = do
    p ← sv.power d.base (fl.of_int (least r.columns.attempts d.max_attempts))
    i ← sv.interval (fl.plus (sv.greatest d.jitter (fl.of_int (pos 0))) (fl.minimum p d.max_delay))
    ok (sv.now +ℤ i)

  unfoldable pub sql_update : Statement → Db → Result (Db × Option Updated)
  unfolding sql_set delayed_runat
  sql_update (update_statement a) db = sql_set sv a (λ r. ok (or_else a.runat r.columns.runat)) db
  sql_update (backoff_statement a d) db = sql_set sv a (delayed_runat d) db

  -- A batch is one transaction too: after an error no result follows, and nothing is changed.
  unfoldable pub sql_batch : List Statement → Db → Db → Results Db
  unfolding sql_update
  sql_batch [] start db = record { after = db; results = []; closed = none }
  sql_batch (q ∷ qs) start db = elim (sql_update q db) [
    | err e ↦ record { after = start; results = err e ∷ []; closed = some e }
    | ok (db', answer) ↦
        let rest = sql_batch qs start db' in
        record rest { results = elim answer [ none ↦ err no_rows | some u ↦ ok u ] ∷ rest.results }
  ]
