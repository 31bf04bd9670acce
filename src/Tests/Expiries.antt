-- ===== src/Tests/Expiries.antt =====
-- The expiration of a database with a finalizer that was cancelled while it waits.
use lymbo.Base.{◌≡◌, refl, pos, [], ◌∷◌, some, lookup, add64, ◌+ℤ◌}
use lymbo.Status.{cancelled, done}
use lymbo.Ticket.{Ticket, UpdateSet}
use lymbo.Stats.{Metric, at, new_measurers, same_key}
use lymbo.Stats.Counting.{counter}
use lymbo.Kharon.{Kharon}
use lymbo.Pusher.{do_updates}
use lymbo.Postgres.{Row, row_of}
use lymbo.Postgres.Plain.{set_row}
use lymbo.Postgres.Credits.{postgres_batch_ops, do_updates_credits_first}
use lymbo.Postgres.Sql.{Db}
use lymbo.Postgres.Sql.Poll.{sql}
use lymbo.Tests.Fixtures.{floats, member, finalizer, no_update}
use lymbo.Tests.Rows.{server, parse}

abbrev row : Ticket → Row
row t = row_of t.id t.tube t.group_id t

-- The finalizer f waits for the member m.
abbrev waiting : Db
waiting = record { table = ("m", row member) ∷ ("f", row finalizer) ∷ []; deps = ("f", "m") ∷ [] }

abbrev cancel_it : UpdateSet
cancel_it = record (no_update "f") { status = some cancelled }

abbrev pusher_of : Kharon Db
pusher_of = record {
  store = waiting;
  stats = record { running_workers = pos 1; by_key = [] };
  outcome = [];
}

-- A retry of a ticket that is gone, and the end of the member: one more retry is counted.
do_updates_credits_first_example :
    (k' : Kharon Db) × (do_updates
        (postgres_batch_ops parse (sql floats server) floats)
        ((no_update "gone", Metric.retry)
          ∷ (record (no_update "m") { status = some done }, Metric.done)
          ∷ [])
        pusher_of
      ≡ some k')
    × (lookup "m" k'.store.table
        ≡ some (set_row server (record (no_update "m") { status = some done }) (row member)))
    × (counter Metric.retry
          (at new_measurers (record { type = "send"; tube = "mail" }) k'.stats.by_key)
        ≡ pos 1)
unfolding lookup row_of same_key add64 ◌+ℤ◌ at
do_updates_credits_first_example =
    do_updates_credits_first floats server parse (no_update "gone")
      (record (no_update "m") { status = some done }) Metric.retry Metric.done (row member)
      pusher_of (record { type = "send"; tube = "mail" }) Metric.retry refl refl refl refl refl refl
      refl
