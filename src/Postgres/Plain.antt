-- ===== src/Postgres/Plain.antt =====
-- One update of store/postgres without a backoff, on a server that stores values as they are.
use mathlib.Core.Option
use lymbo.Base.{◌≡◌, none, some, arith, if◌then◌else◌, or_else, over, wrap16, lookup, insert}
use lymbo.Errors.{ok}
use lymbo.Ticket.{Floats, UpdateSet}
use lymbo.Status.{Status}
use lymbo.Postgres.{Columns, Row, Updated}
use lymbo.Postgres.Batch.{statement_of}
use lymbo.Postgres.Sql.{
  Pairs, Db, Server, is_final, unblocked, touched, updated, sql_set, sql_update,
}

pub touched_same :
    (sv : Server) (old : Row) (new : Columns)
    → let c = touched sv old new in
      (c.id ≡ new.id) × (c.type ≡ new.type) × (c.status ≡ new.status) × (c.runat ≡ new.runat)
unfolding touched
touched_same sv old new = ground arith

-- What an update writes over a row.
abbrev pub set_columns : UpdateSet → Row → Columns
set_columns us r = record r.columns {
  status = or_else (Option.map (λ (st : Status). st.slug) us.status) r.columns.status;
  nice = or_else (Option.map wrap16 us.nice) r.columns.nice;
  runat = or_else us.runat r.columns.runat;
  payload = over us.payload r.columns.payload;
  error_reason = over us.error_reason r.columns.error_reason;
}

abbrev pub set_row : Server → UpdateSet → Row → Row
set_row sv us r = record {
  columns = touched sv r (set_columns us r);
  tube = or_else us.tube r.tube;
  group_id = over us.group_id r.group_id;
}

abbrev pub left_waits : UpdateSet → Pairs → Pairs
left_waits us deps =
    if is_final (Option.map (λ (st : Status). st.slug) us.status)
    then unblocked us.id deps
    else deps

abbrev pub answer_of : Row → Updated
answer_of r = record {
  id = r.columns.id;
  type = r.columns.type;
  tube = r.tube;
  status = r.columns.status;
}

-- The answer shows the columns as they are written, before the trigger, which changes none of these.
module _ (fl : Floats) (sv : Server) (us : UpdateSet) (db : Db) (plain : us.backoff ≡ none) where
  pub sql_update_stored :
      (r : Row)
      → sv.accepts (set_columns us r) ≡ ok (set_columns us r)
      → lookup us.id db.table ≡ some r
      → sql_update fl sv (statement_of fl us.id us) db
        ≡ ok (
          record { table = insert us.id (set_row sv us r) db.table; deps = left_waits us db.deps },
          some (answer_of (set_row sv us r)),
        )
  unfolding sql_update statement_of sql_set updated
  sql_update_stored r exact at =
      ground (arith, plain, at, exact, touched_same sv r (set_columns us r))

  pub sql_update_missing :
      lookup us.id db.table ≡ none
      → sql_update fl sv (statement_of fl us.id us) db
        ≡ ok (record db { deps = left_waits us db.deps }, none)
  unfolding sql_update statement_of sql_set updated
  sql_update_missing gone = ground (arith, plain, gone)
