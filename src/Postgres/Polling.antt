-- ===== src/Postgres/Polling.antt =====
-- PollPending of store/postgres/postgres.go: the arguments of the statement, and the tickets of its
-- rows. A panic is shown as an error of its own; that of a capacity which is too large is left out.
use lymbo.Base.{
  ℕ, String, ℤ, pos, wrap32, ltb, leb_ℤ, ltb_ℤ, ◌^◌, ◌-◌, List, [], ◌∷◌, none, some, ◌==◌,
  if◌then◌else◌, length,
}
use lymbo.Errors.{Error, other, Result, ok, err, too_many_tubes, empty_tube, ◌>>=◌}
use lymbo.Ticket.{Floats, Ticket, PollRequest}
use lymbo.Poller.{float_one}
use lymbo.Postgres.{PollArgs, Polled, Rows, Queries, ticket_of}

-- The panic of make([]lymbo.Ticket, 0, req.Limit) with a negative limit.
abbrev pub make_panics : Error
make_panics = other "panic: makeslice: cap out of range"

-- clampMaxAttempts
unfoldable pub clamp_max_attempts : Floats → ℤ → ℕ → ℤ
clamp_max_attempts fl max_delay backoff_base =
    if fl.le backoff_base float_one
    then pos (2 ^ 31 - 1)
    else if leb_ℤ max_delay (pos 0)
    then pos 0
    else fl.to_int32
        (fl.ceiling (fl.over (fl.logarithm (fl.of_int max_delay)) (fl.logarithm backoff_base)))

-- The loop of setTubes
unfoldable pub no_empty : List String → Result (List String)
no_empty [] = ok []
no_empty (tube ∷ tubes) =
    let rest = no_empty tubes in
    if tube == "" then err empty_tube else (do names ← rest; ok (tube ∷ names))

-- setTubes
unfoldable pub set_tubes : List String → Result (List String)
unfolding no_empty
set_tubes [] = ok []
set_tubes (tube ∷ tubes) =
    if ltb 10 (length (tube ∷ tubes)) then err too_many_tubes else no_empty (tube ∷ tubes)

unfoldable pub args_of : Floats → PollRequest → List String → PollArgs
unfolding clamp_max_attempts
args_of fl req tubes =
    let max_delay = fl.to_int32 (fl.seconds req.max_backoff_delay) in
    record {
      now = req.now;
      ttr = fl.to_int32 (fl.seconds req.ttr);
      max_delay = max_delay;
      backoff_base = req.backoff_base;
      max_attempts = clamp_max_attempts fl max_delay req.backoff_base;
      limit = wrap32 req.limit;
      tubes = tubes;
    }

-- The loop over the rows: one with a status that is not known is logged and passed over.
unfoldable pub tickets_of : List Polled → List Ticket
unfolding ticket_of
tickets_of [] = []
tickets_of (row ∷ rows) =
    let rest = tickets_of rows in
    elim (ticket_of row.columns) [
      | err _ ↦ rest
      | ok t ↦ record t { tube = row.tube; ready_at = row.ready_at } ∷ rest
    ]

unfoldable pub rows_read : {D : Type 0} → D × Rows Polled → D × Result (List Ticket)
unfolding tickets_of
rows_read (after, rows) =
    (after, elim rows.broken [ some e ↦ err e | none ↦ ok (tickets_of rows.rows) ])

module _ {D : Type 0} (queries : Queries D) where
  unfoldable pub poll_pending : Floats → PollRequest → D → D × Result (List Ticket)
  unfolding set_tubes args_of rows_read
  poll_pending fl req db =
      let asked : Result (D × Rows Polled) = (do
        tubes ← set_tubes req.request_tubes
        queries.poll (args_of fl req tubes) db) in
      elim asked [
        | err e ↦ (db, err e)
        | ok answer ↦
            if ltb_ℤ req.limit (pos 0) then (answer.0, err make_panics) else rows_read answer
      ]
