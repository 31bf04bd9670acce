-- ===== src/Postgres.antt =====
-- store/postgres/postgres.go: what the store does around its SQL statements. The statements are the
-- interface `Queries`, over the state D of the database; pgx and the connection can fail in each of
-- them. `parse` is uuid.Parse followed by String: the usual form of a text that is a UUID.
pub mod Batch
pub mod Polling
pub mod Sql
pub mod Ids
pub mod Saved
pub mod Plain
pub mod Expiry
pub mod Credits
pub mod View
pub mod Refinement
use lymbo.Base.{
  ℕ, String, ℤ, wrap16, wrap32, List, [], ◌∷◌, Option, none, some, ◌==◌, if◌then◌else◌,
}
use lymbo.Errors.{Error, Result, ok, err, ticket_id_invalid, ticket_not_found, no_rows, ◌>>=◌}
use lymbo.Status.{Status, from_string}
use lymbo.Ticket.{Ticket, TransitionInfo, default_tube, zero_time}

-- The columns that the statement `get` selects; they are written by `put` too.
pub record Columns : Type 0 where
  pub id : String
  pub status : String
  pub runat : ℤ
  pub nice : ℤ
  pub type : String
  pub ctime : ℤ
  pub mtime : Option ℤ
  pub attempts : ℤ
  pub payload : Option (List ℕ)
  pub error_reason : Option (List ℕ)

-- A whole row, which is what `put` writes.
pub record Row : Type 0 where
  pub columns : Columns
  pub tube : String
  pub group_id : Option String

-- id, type, tube
pub record Deleted : Type 0 where
  pub id : String
  pub type : String
  pub tube : String

-- id, type, tube, status
pub record Updated : Type 0 where
  pub id : String
  pub type : String
  pub tube : String
  pub status : String

-- The arguments of the statement `update`; `none` is NULL.
pub record UpdateArgs : Type 0 where
  pub id : String
  pub status : Option String
  pub nice : Option ℤ
  pub runat : Option ℤ
  pub payload : Option (List ℕ)
  pub error_reason : Option (List ℕ)
  pub tube : Option String
  pub group_id : Option String

-- Those of the statement `backoff`: in place of runat stand the floats and the integer of the delay.
pub record Delay : Type 0 where
  pub jitter : ℕ
  pub base : ℕ
  pub max_attempts : ℤ
  pub max_delay : ℕ

pub data Statement : Type 0 where
  update_statement : UpdateArgs → Statement
  backoff_statement : UpdateArgs → Delay → Statement

pub record PollArgs : Type 0 where
  pub now : ℤ
  pub ttr : ℤ
  pub max_delay : ℤ
  pub backoff_base : ℕ
  pub max_attempts : ℤ
  pub limit : ℤ
  pub tubes : List String

pub record Polled : Type 0 where
  pub columns : Columns
  pub tube : String
  pub ready_at : ℤ

-- Rows that arrive, and the error that breaks them off, if one does.
pub record Rows (A : Type 0) : Type 0 where
  pub rows : List A
  pub broken : Option Error

-- The results of a batch, one for each statement, and that of its Close.
pub record Results (D : Type 0) : Type 0 where
  pub after : D
  pub results : List (Result Updated)
  pub closed : Option Error

pub record Queries (D : Type 0) : Type 0 where
  pub get : String → D → Result Columns
  pub put : Row → D → Result D
  pub delete : String → D → Result D
  pub delete_batch : List String → D → Result (D × Rows Deleted)
  pub put_after_group : Row → String → D → Result D
  pub send_batch : List Statement → D → Results D
  pub poll : PollArgs → D → Result (D × Rows Polled)
  pub expire : ℤ → ℤ → D → Result (D × Rows Deleted)
  pub count_pending_in_group : String → D → Result ℕ
  pub begin : D → Result D
  pub commit : D → Result D

-- The ticket that Get and Update make of the columns: without a tube and without a group.
unfoldable pub ticket_of : Columns → Result Ticket
ticket_of c = do
  s ← from_string c.status
  ok (record {
    id = c.id;
    status = s;
    tube = "";
    group_id = none;
    runat = c.runat;
    nice = c.nice;
    type = c.type;
    ctime = c.ctime;
    mtime = c.mtime;
    attempts = c.attempts;
    payload = c.payload;
    error_reason = c.error_reason;
    ready_at = zero_time;
  })

-- The arguments of `put` for a ticket.
unfoldable pub row_of : String → String → Option String → Ticket → Row
row_of uuid tube group t = record {
  columns = record {
    id = uuid;
    status = t.status.slug;
    runat = t.runat;
    nice = wrap16 t.nice;
    type = t.type;
    ctime = t.ctime;
    mtime = t.mtime;
    attempts = wrap32 t.attempts;
    payload = t.payload;
    error_reason = t.error_reason;
  };
  tube = tube;
  group_id = group;
}

abbrev pub or_default : String → String
or_default tube = if tube == "" then default_tube else tube

abbrev pub not_found {ℓ} : {A : Type ℓ} → Result A → Result A
not_found (ok a) = ok a
not_found (err e) = elim e [ no_rows ↦ err ticket_not_found | f ↦ err f ]

-- A call that changes the database, or fails and leaves it.
abbrev pub exec : {D : Type 0} → D → Result D → D × Result (Unit {0})
exec db (ok after) = (after, ok tt)
exec db (err e) = (db, err e)

module _ {D : Type 0} (parse : String → Option String) (queries : Queries D) where
  abbrev pub id_of : String → Result String
  id_of id = elim (parse id) [ none ↦ err ticket_id_invalid | some uuid ↦ ok uuid ]

  unfoldable pub get : String → D → Result Ticket
  unfolding ticket_of
  get id db = do uuid ← id_of id; columns ← not_found (queries.get uuid db); ticket_of columns

  unfoldable pub put : Ticket → D → D × Result (Unit {0})
  unfolding row_of
  put t db =
      exec db (do uuid ← id_of t.id; queries.put (row_of uuid (or_default t.tube) t.group_id t) db)

  unfoldable pub delete : String → D → D × Result (Unit {0})
  delete id db = elim (id_of id) [
    | err e ↦ (db, err e)
    | ok uuid ↦ elim (queries.delete uuid db) [
      | ok after ↦ (after, ok tt)
      | err e ↦ (db, elim e [ no_rows ↦ ok tt | f ↦ err f ])
    ]
  ]

  -- The transaction of Update; where it fails it is rolled back.
  unfoldable pub update_in_transaction : String → (Ticket → Result Ticket) → D → Result D
  unfolding ticket_of row_of
  update_in_transaction uuid fn db = do
    tx ← queries.begin db
    columns ← not_found (queries.get uuid tx)
    t ← ticket_of columns
    t' ← fn t
    tx' ← queries.put (row_of columns.id t'.tube none t') tx
    queries.commit tx'

  unfoldable pub update : String → (Ticket → Result Ticket) → D → D × Result (Unit {0})
  unfolding update_in_transaction
  update id fn db = exec db (do uuid ← id_of id; update_in_transaction uuid fn db)

  unfoldable pub put_after_group : Ticket → String → D → D × Result (Unit {0})
  unfolding row_of
  put_after_group t group db = exec db (do
    uuid ← id_of t.id
    queries.put_after_group (row_of uuid (or_default t.tube) t.group_id t) group db)

  unfoldable pub count_pending_in_group : String → D → Result ℕ
  count_pending_in_group group db = queries.count_pending_in_group group db
