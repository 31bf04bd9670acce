-- ===== src/Tests/Rows.antt =====
-- Runs of the PostgreSQL store, on a server that stores the values as they are and visits rows in the
-- order of their insertion; every text that is not empty is an id in its usual form.
use mathlib.Core.List.Perm
use lymbo.Base.{
  map, wrap16, min, count, Bool, ◌^◌, String, ℤ, ◌≡◌, ◌≢◌, ◌≤◌, refl, ap, pos, pos_part, ◌+ℤ◌,
  wrap32, List, [], ◌∷◌, Option, none, some, true, false, arith, ◌==◌, if◌then◌else◌, any, all,
  select, lookup, insert, contains, length,
}
use lymbo.Errors.{Result, ok, err}
use lymbo.Status.{from_string, done}
use lymbo.Ticket.{Ticket, UpdateSet, TransitionInfo}
use lymbo.Memory.{Store, new_store, blockers}
use lymbo.Memory
use lymbo.Memory.Invariant.{new_store-Inv}
use lymbo.Postgres.{
  count_pending_in_group, Columns, Row, row_of, ticket_of, delete, update, put_after_group,
}
use lymbo.Postgres.Batch.{ids_of, delete_batch, update_batch, expire_tickets, statements_of}
use lymbo.Postgres.Refinement.UpdateBatches.{
  Keeps, RowsKept, WritesKept, AllPlain, update_batch-Refines,
}
use lymbo.Postgres.Refinement.Expired.{expire_tickets-Refines}
use lymbo.Postgres.Polling.{set_tubes, poll_pending}
use lymbo.Postgres.Sql.{
  Db, Server, Pairs, foreign_key, mentioned, waits_for, in_group, taken, sql_get, sql_put,
  sql_put_after_group, sql_batch, unblocked, touched,
}
use lymbo.Postgres.Sql.Poll.{sql, sql_poll, candidates, polled_runat, is_candidate}
use lymbo.Postgres.View.{Refines, waits}
use lymbo.Postgres.Saved.{update_erases_tube}
use lymbo.Postgres.Refinement.{Fits}
use lymbo.Postgres.Refinement.Groups.{put_after_group-Refines}
use lymbo.Postgres.Refinement.Deletion.{delete_batch-Refines, delete-Refines}
use lymbo.Postgres.Refinement.Due.{id_due}
use lymbo.Memory.Polling.{is_due}
use lymbo.Postgres.Refinement.Handout.{poll_pending-due}
use lymbo.Postgres.Refinement.Totals.{poll_pending-total, count_pending_in_group-Refines}
use lymbo.Tests.Fixtures.{
  floats, in_order, in_order-perm, member, finalizer, request, no_update, no_update,
}

abbrev pub server : Server
server = record {
  accepts = λ c. ok c;
  now = pos 9;
  scan = in_order;
  sort_rows = λ less rows. rows;
  sort_polled = λ less rows. rows;
  greatest = λ x y. x;
  power = λ x y. ok (x ^ y);
  interval = λ x. ok (pos x);
}

abbrev pub parse : String → Option String
parse id = if id == "" then none else some id

abbrev empty_db : Db
empty_db = record { table = []; deps = [] }

empty-Refines : Refines empty_db new_store
unfolding lookup waits any contains blockers
empty-Refines = record {
  inv = new_store-Inv;
  table_map = tt;
  same = λ id. refl;
  linked = λ f b. refl;
  keys = λ f b h. ground (arith, h);
}

member-Fits : Fits server parse member
unfolding row_of
member-Fits = record {
  usual = refl;
  named = refl;
  in_tube = refl;
  is_pending = refl;
  nice_fits = omega arith;
  attempts_fit = omega arith;
  stored = refl;
}

finalizer-Fits : Fits server parse finalizer
unfolding row_of
finalizer-Fits = record {
  usual = refl;
  named = refl;
  in_tube = refl;
  is_pending = refl;
  nice_fits = omega arith;
  attempts_fit = omega arith;
  stored = refl;
}

-- The member of the group g in both stores, and then its finalizer.
abbrev db_one : Db
db_one = (put_after_group parse (sql floats server) member "none" empty_db).0

abbrev store_one : Store
store_one = (Memory.put_after_group in_order member "none" new_store).0

abbrev db_two : Db
db_two = (put_after_group parse (sql floats server) finalizer "g" db_one).0

abbrev store_two : Store
store_two = (Memory.put_after_group in_order finalizer "g" store_one).0

one-Refines : Refines db_one store_one
one-Refines =
    (put_after_group-Refines floats server parse in_order empty_db new_store empty-Refines
      in_order-perm in_order-perm member "none" member-Fits).0

put_after_group-Refines_example :
    Refines db_two store_two
    × ((put_after_group parse (sql floats server) finalizer "g" db_one).1 ≡ ok tt)
    × ((Memory.put_after_group in_order finalizer "g" store_one).1 ≡ ok tt)
put_after_group-Refines_example =
    put_after_group-Refines floats server parse in_order db_one store_one one-Refines in_order-perm
      in_order-perm finalizer "g" finalizer-Fits

two-Refines : Refines db_two store_two
two-Refines =
    (put_after_group-Refines floats server parse in_order db_one store_one one-Refines in_order-perm
      in_order-perm finalizer "g" finalizer-Fits).0

delete_batch-Refines_example :
    Refines
      (delete_batch parse (sql floats server) ("m" ∷ []) db_two).0
      (Memory.delete_batch ("m" ∷ []) store_two).0
    × ((delete_batch parse (sql floats server) ("m" ∷ []) db_two).2 ≡ none)
unfolding ids_of
delete_batch-Refines_example =
    delete_batch-Refines floats server parse db_two store_two two-Refines ("m" ∷ []) refl

stored : lookup "m" db_two.table ≢ none
unfolding put_after_group sql_put_after_group lookup insert
stored h = cc h

-- The finalizer waits for the member, which Delete therefore refuses.
delete-Refines_example :
    (mentioned "m" db_two.deps ≡ false
      → Refines (delete parse (sql floats server) "m" db_two).0 (Memory.delete "m" store_two).0
        × ((delete parse (sql floats server) "m" db_two).1 ≡ ok tt))
    × (mentioned "m" db_two.deps ≡ true
        → (delete parse (sql floats server) "m" db_two ≡ (db_two, err foreign_key))
          × ((Memory.delete "m" store_two).1 ≡ ok tt))
delete-Refines_example =
    delete-Refines floats server parse db_two store_two two-Refines "m" refl stored

-- A poll at the time 10 takes the member, and not its finalizer.
abbrev answer : Db × Result (List Ticket)
answer = poll_pending (sql floats server) floats (request (pos 10)) db_two

abbrev taken_tickets : List Ticket
taken_tickets = elim answer.1 [ ok ts ↦ ts | err _ ↦ [] ]

polled :
    poll_pending (sql floats server) floats (request (pos 10)) db_two ≡ (answer.0, ok taken_tickets)
unfolding poll_pending sql_poll put_after_group sql_put_after_group waits_for in_group lookup insert
    contains taken select ◌+ℤ◌ candidates any polled_runat wrap32
polled = refl

ids_kept : (c c' : Columns) → server.accepts c ≡ ok c' → c'.id ≡ c.id
ids_kept c c' h = ground arith

poll_pending-due_example :
    (all (λ t. id_due (request (pos 10)) store_two t.id) taken_tickets ≡ true)
    × (length taken_tickets ≤ pos_part (wrap32 (pos 4)))
poll_pending-due_example =
    poll_pending-due floats server ids_kept (request (pos 10)) db_two store_two two-Refines
      in_order-perm (λ rs. Perm.refl rs) (λ ps. Perm.refl ps) {after = answer.0}
      {tickets = taken_tickets} polled

poll_pending-total_example :
    (after : Db) × (tickets : List Ticket) × (poll_pending
        (sql floats server)
        floats
        (request (pos 10))
        db_two
      ≡ (after, ok tickets))
    × (length tickets
        ≡ min 4 (count (λ e. is_due (request (pos 10)) store_two e.1) store_two.entries))
unfolding contains polled_runat
poll_pending-total_example =
    poll_pending-total floats server (request (pos 10)) db_two store_two two-Refines in_order-perm
      (λ rs. Perm.refl rs) (λ ps. Perm.refl ps) (omega arith) (omega arith) refl refl
      (λ r m. (_, refl, refl))

count_pending_in_group-Refines_example :
    count_pending_in_group (λ _. none) (sql floats server) "g" db_two
    ≡ ok (Memory.count_pending_in_group in_order "g" store_two)
count_pending_in_group-Refines_example =
    count_pending_in_group-Refines floats server db_two store_two two-Refines in_order-perm in_order
      "g" in_order-perm

-- The member is done, at whatever time.
abbrev ending : List (ℤ × UpdateSet)
ending = (pos 12, record (no_update "m") { status = some done; nice = some (pos 3) }) ∷ []

ending-AllPlain : AllPlain parse store_two ending
unfolding Memory.put_after_group lookup insert wrap16
ending-AllPlain = (
  record { no_backoff = refl; known = refl; nice_fits = λ n e. ground (arith, e) },
  refl,
  refl,
  tt,
)

-- The columns with one of the statuses of the enum.
abbrev known_status : Columns → Bool
known_status c = contains c.status ("pending" ∷ "done" ∷ "failed" ∷ "cancelled" ∷ [])

status_kept : Keeps server known_status
unfolding touched
status_kept = record { exact = λ c h. refl; triggered = λ r c h. ground (arith, h) }

rows_kept : RowsKept known_status db_two.table
unfolding put_after_group sql_put_after_group lookup insert row_of contains
rows_kept k r e =
    ap (λ x. contains x ("pending" ∷ "done" ∷ "failed" ∷ "cancelled" ∷ [])) {x = r.columns.status}
      {y = "pending"} (ground (arith, e))

writes_kept : WritesKept known_status ending
unfolding contains
writes_kept = (λ r h. refl, tt)

update_batch-Refines_example :
    let sent = update_batch parse (sql floats server) floats (map (λ u. u.1) ending) db_two in
    Refines sent.0 (Memory.update_batch floats ending store_two).0
    × (sent.2 ≡ none)
    × ((infos : List TransitionInfo) × ((Memory.update_batch floats ending store_two).1 ≡ ok infos))
update_batch-Refines_example =
    update_batch-Refines floats server known_status status_kept parse ending db_two store_two
      two-Refines ending-AllPlain rows_kept writes_kept

-- The member is done, so that it can expire.
abbrev db_done : Db
db_done = (update_batch parse (sql floats server) floats (map (λ u. u.1) ending) db_two).0

abbrev store_done : Store
store_done = (Memory.update_batch floats ending store_two).0

counted : (length db_done.table ≡ 2) × (length store_done.entries ≡ 2) × (db_done.deps ≡ [])
unfolding update_batch put_after_group sql_put_after_group Memory.update_batch
    Memory.put_after_group lookup insert row_of statements_of sql_batch waits_for in_group unblocked
    Memory.apply_update Memory.update_one select
counted = (refl, refl, refl)

expire_tickets-Refines_example :
    let r = expire_tickets parse (sql floats server) (pos 5) (pos 10) db_done in
    Refines r.0 (Memory.expire_tickets in_order (pos 5) (pos 10) store_done).0 × (r.2 ≡ none)
unfolding mentioned any
expire_tickets-Refines_example =
    expire_tickets-Refines server in_order-perm (pos 10) 5 db_done store_done
      (update_batch-Refines floats server known_status status_kept parse ending db_two store_two
        two-Refines ending-AllPlain rows_kept writes_kept).0
      (omega (arith, counted.0)) (λ k r e h. ap (λ d. mentioned k d) counted.2) in_order
      in_order-perm (omega (arith, counted.1)) floats parse (omega arith)

-- An update that only sets the nice value.
abbrev nicer : Ticket → Result Ticket
nicer t = ok (record t { nice = pos 1 })

abbrev stored_row : Row
stored_row = row_of "m" "mail" (some "g") member

updated : (update parse (sql floats server) "m" nicer db_one).1 ≡ ok tt
unfolding update put_after_group sql_put_after_group lookup insert row_of ticket_of sql_get
    from_string sql_put
updated = refl

-- The update of the nice value erases the tube.
update_erases_tube_example :
    (r' : Row) × (lookup "m" (update parse (sql floats server) "m" nicer db_one).0.table ≡ some r')
    × (r'.tube ≡ "")
    × ((now : ℤ) (asked tubes : List String) (deps : Pairs)
        → set_tubes asked ≡ ok tubes
        → is_candidate now tubes deps "m" r' ≡ false)
unfolding put_after_group sql_put_after_group lookup insert row_of
update_erases_tube_example =
    update_erases_tube floats server parse "m" "m" stored_row nicer db_one refl refl refl ids_kept
      (λ t t' e. ground arith) updated
