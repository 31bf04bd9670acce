-- ===== src/Postgres/Batch.antt =====
-- The operations of store/postgres/postgres.go that read several rows: DeleteBatch, UpdateBatch and
-- ExpireTickets. They return what they have read together with an error, where there is one.
use mathlib.Core.Option
use lymbo.Base.{String, ℤ, wrap16, wrap32, List, [], ◌∷◌, map, Option, none, some}
use lymbo.Errors.{Error, Result, ok, err, no_rows, ◌>>=◌}
use lymbo.Status.{Status, from_string}
use lymbo.Ticket.{Floats, UpdateSet, TransitionInfo}
use lymbo.Postgres.{
  Deleted, Updated, UpdateArgs, Statement, update_statement, backoff_statement, Rows, Queries,
  id_of,
}

-- The zero value of a status.
abbrev pub no_status : Status
no_status = record { slug = "" }

abbrev pub deleted_info : Deleted → TransitionInfo
deleted_info d = record { id = d.id; type = d.type; tube = d.tube; status = no_status }

-- s, _ := status.FromString(statusStr)
abbrev pub updated_info : Updated → TransitionInfo
updated_info u = record {
  id = u.id;
  type = u.type;
  tube = u.tube;
  status = elim (from_string u.status) [ ok s ↦ s | err _ ↦ no_status ];
}

-- The infos of the rows of a statement that deletes.
unfoldable pub deletion :
    {D : Type 0} → D → Result (D × Rows Deleted) → D × List TransitionInfo × Option Error
deletion db (err e) = (db, [], some e)
deletion db (ok (after, rows)) = (after, map deleted_info rows.rows, rows.broken)

-- The arguments of an update: a backoff where one is given, and else a Runat or NULL.
unfoldable pub statement_of : Floats → String → UpdateSet → Statement
statement_of fl uuid us =
    let args : UpdateArgs = record {
      id = uuid;
      status = Option.map (λ (s : Status). s.slug) us.status;
      nice = Option.map wrap16 us.nice;
      runat = us.runat;
      payload = us.payload;
      error_reason = us.error_reason;
      tube = us.tube;
      group_id = us.group_id;
    } in
    elim us.backoff [
      | none ↦ update_statement args
      | some b ↦
          backoff_statement (record args { runat = none })
            (record {
              jitter = fl.seconds b.jitter;
              base = b.base;
              max_attempts = b.max_attempts;
              max_delay = fl.seconds b.max_delay;
            })
    ]

-- The loop that reads the results: a row that is not there is passed over, another error ends it.
unfoldable pub read_results :
    List (Result Updated) → Option Error → List TransitionInfo × Option Error
read_results [] closed = ([], closed)
read_results (ok u ∷ results) closed =
    let (infos, failure) = read_results results closed in (updated_info u ∷ infos, failure)
read_results (err e ∷ results) closed =
    let rest = read_results results closed in elim e [ no_rows ↦ rest | f ↦ ([], some f) ]

module _ {D : Type 0} (parse : String → Option String) (queries : Queries D) where
  unfoldable pub ids_of : List String → Result (List String)
  ids_of [] = ok []
  ids_of (id ∷ ids) = do uuid ← id_of parse queries id; uuids ← ids_of ids; ok (uuid ∷ uuids)

  unfoldable pub delete_batch : List String → D → D × List TransitionInfo × Option Error
  unfolding ids_of deletion
  delete_batch [] db = (db, [], none)
  delete_batch (id ∷ ids) db =
      deletion db (do uuids ← ids_of (id ∷ ids); queries.delete_batch uuids db)

  unfoldable pub statements_of : Floats → List UpdateSet → Result (List Statement)
  unfolding statement_of
  statements_of fl [] = ok []
  statements_of fl (us ∷ updates) = do
    uuid ← id_of parse queries us.id
    statements ← statements_of fl updates
    ok (statement_of fl uuid us ∷ statements)

  unfoldable pub update_batch : Floats → List UpdateSet → D → D × List TransitionInfo × Option Error
  unfolding statements_of read_results
  update_batch fl [] db = (db, [], none)
  update_batch fl (us ∷ updates) db = elim (statements_of fl (us ∷ updates)) [
    | err e ↦ (db, [], some e)
    | ok statements ↦
        let sent = queries.send_batch statements db in
        let (infos, failure) = read_results sent.results sent.closed in (sent.after, infos, failure)
  ]

  unfoldable pub expire_tickets : ℤ → ℤ → D → D × List TransitionInfo × Option Error
  unfolding deletion
  expire_tickets limit now db = deletion db (queries.expire now (wrap32 limit) db)
