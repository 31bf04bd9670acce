-- ===== src/Postgres/Credits.antt =====
-- What the pusher of kharon.go counts for updates over store/postgres, which returns no info for a ticket
-- that is not there.
use lymbo.Base.{
  String, ◌≡◌, List, [], ◌∷◌, Option, none, some, ◌&&◌, arith, if◌then◌else◌, or_else, nat_eq, pos,
  add64, lookup, insert, lookup-insert, eq_iff,
}
use lymbo.Errors.{ok, err, no_rows}
use lymbo.Ticket.{Floats, UpdateSet}
use lymbo.Stats.{Metric, Key, same_key, at, new_measurers, by_key_inc}
use lymbo.Stats.Counting.{counter, metric_code, is_counted, counter-by_key_inc}
use lymbo.Kharon.{Kharon}
use lymbo.Pusher.{BatchOps, count_updated, do_updates}
use lymbo.Postgres.{Row, Queries, Statement}
use lymbo.Postgres.Batch
use lymbo.Postgres.Batch.{statement_of, read_results, updated_info}
use lymbo.Postgres.Sql.{Db, Server, sql_batch}
use lymbo.Postgres.Sql.Poll.{sql}
use lymbo.Postgres.Plain.{
  set_row, left_waits, answer_of, touched_same, set_columns, sql_update_stored, sql_update_missing,
}

-- The infos are used also where there is an error, which is only logged.
abbrev pub postgres_batch_ops :
    {D : Type 0} → (String → Option String) → Queries D → Floats → BatchOps D
postgres_batch_ops parse queries fl = record {
  delete_batch =
      λ ids db. let (db', infos, failure) = Batch.delete_batch parse queries ids db in (db', infos);
  update_batch = λ sets db.
      let (db', infos, failure) = Batch.update_batch parse queries fl sets db in (db', infos);
}

module _ (fl : Floats) (sv : Server) (parse : String → Option String) (us vs : UpdateSet) (r : Row)
    (db : Db) (exact : sv.accepts (set_columns vs r) ≡ ok (set_columns vs r))
    (usual_us : parse us.id ≡ some us.id) (usual_vs : parse vs.id ≡ some vs.id)
    (plain_us : us.backoff ≡ none) (plain_vs : vs.backoff ≡ none)
    (gone : lookup us.id db.table ≡ none) (held : lookup vs.id db.table ≡ some r) where
  abbrev after : Db
  after = record {
    table = insert vs.id (set_row sv vs r) db.table;
    deps = left_waits vs (left_waits us db.deps);
  }

  abbrev two : List Statement
  two = statement_of fl us.id us ∷ statement_of fl vs.id vs ∷ []

  statements_two : Batch.statements_of parse (sql fl sv) fl (us ∷ vs ∷ []) ≡ ok two
  unfolding Batch.statements_of
  statements_two = ground (arith, usual_us, usual_vs)

  results_two : sql_batch fl sv two db db ≡ record {
    after = after;
    results = err no_rows ∷ ok (answer_of (set_row sv vs r)) ∷ [];
    closed = none;
  }
  unfolding sql_batch
  results_two = ground (
    arith,
    sql_update_missing fl sv us db plain_us gone,
    sql_update_stored fl sv vs (record db { deps = left_waits us db.deps }) plain_vs r exact held,
  )

  batch_two :
      Batch.update_batch parse (sql fl sv) fl (us ∷ vs ∷ []) db
      ≡ (after, updated_info (answer_of (set_row sv vs r)) ∷ [], none)
  unfolding Batch.update_batch read_results
  batch_two = ground (arith, statements_two, results_two)

-- Let a flush have two updates without a backoff, of which the
-- ticket of the first is not there and that of the second is, and let the server store what the second
-- writes as it is. Then the second is made, but what is
-- counted, for the type of its ticket and the tube that it then has, is the intent of the first.
pub do_updates_credits_first :
    (fl : Floats) (sv : Server) (parse : String → Option String)
    → (us vs : UpdateSet) (i j : Metric) (r : Row) (k : Kharon Db) (key : Key) (m : Metric)
    → sv.accepts (set_columns vs r) ≡ ok (set_columns vs r)
    → parse us.id ≡ some us.id
    → parse vs.id ≡ some vs.id
    → us.backoff ≡ none
    → vs.backoff ≡ none
    → lookup us.id k.store.table ≡ none
    → lookup vs.id k.store.table ≡ some r
    → (k' : Kharon Db) × (do_updates
          (postgres_batch_ops parse (sql fl sv) fl)
          ((us, i) ∷ (vs, j) ∷ [])
          k
        ≡ some k')
      × (lookup vs.id k'.store.table ≡ some (set_row sv vs r))
      × (counter m (at new_measurers key k'.stats.by_key) ≡ (
          if same_key (record { type = r.columns.type; tube = or_else vs.tube r.tube }) key
            && nat_eq (metric_code i) (metric_code m)
            && is_counted i
          then add64 (counter m (at new_measurers key k.stats.by_key)) (pos 1)
          else counter m (at new_measurers key k.stats.by_key)))
unfolding do_updates count_updated
do_updates_credits_first fl sv parse us vs i j r k key m exact usual_us usual_vs plain_us plain_vs
      gone held =
    let made : Key = record { type = r.columns.type; tube = or_else vs.tube r.tube } in
    (
      record k {
        store =
            after fl sv parse us vs r k.store exact usual_us usual_vs plain_us plain_vs gone held;
        stats = by_key_inc made i k.stats;
      },
      ground (
        arith,
        batch_two fl sv parse us vs r k.store exact usual_us usual_vs plain_us plain_vs gone held,
        touched_same sv r (set_columns vs r),
      ),
      ground (arith, lookup-insert vs.id vs.id (set_row sv vs r) k.store.table, eq_iff vs.id vs.id),
      counter-by_key_inc made key i m k.stats,
    )
