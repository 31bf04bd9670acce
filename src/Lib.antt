-- ===== src/Lib.antt =====
-- lymbo: delayed tickets that are stored, polled, leased to workers and brought to an end.
--
-- A `Kharon` (kharon.go) takes calls on tickets. Put writes to a store; the calls that end or
-- reschedule a ticket send a message to a pusher, which applies it to the store in batches; a poller
-- takes due tickets out of the store under a lease and hands them to workers, which route them to
-- handlers. Finalizers are tickets that wait for the pending members of a group.
--
-- The parts and their models:
-- - Ticket, Errors, Status: ticket.go, store.go, errors.go, status/status.go. Data under the names of
--   the source; a Go function with an error returns a `Result`. Status.Codec and Status.Texts are
--   about the JSON form.
-- - Memory: store/memory/memory.go, one function for each method (Put is `put`, PutAfterGroup is
--   `put_after_group`, and so on), from a store to the new store beside the result; its mutex makes a
--   method one step. PollPending stands in Memory.Poll. The proofs: Deps, Invariant, Preserve, Expire,
--   Sorted, Polling, Leases, Handout, History, Redelivery, Access, Finalizers, Release, Batches, Erasure.
-- - Options, Kharon: options.go, observable.go, group.go and the calls of kharon.go, over the record
--   `StoreOps` of a store's operations; Kharon.Groups fills it with the in-memory store. Kharon.Calls
--   is about the messages, Kharon.Saving about the two ways to change a ticket, and Kharon.Observed
--   about the counting of what the store does.
-- - Pusher: runPusher of kharon.go, over the record `BatchOps`. Pusher.Logged is a store that
--   logs the calls of the pusher, Pusher.Held and Pusher.Delivery are about the way of a message from the channel to the
--   store, Pusher.Drain about the end of the flushes, Pusher.Shared
--   about a flush over the in-memory store, and Pusher.Acked about the way of an acknowledgement.
-- - Poller: poll of kharon.go, a round of its loop over the record `PollOps`. Poller.Slowdown is about
--   the pace, Poller.PutBack and Poller.Rounds about the tickets that are put back. Poller.Loop is the
--   loop around the rounds, and runPoller around it.
-- - Worker, Lifecycle: processTicket, Run and Stop of kharon.go. A call of Run or Stop is several steps,
--   which those of other calls may come between. Lifecycle.Shutdown is the end of the workers and of
--   the pusher beside each other.
-- - Postgres: store/postgres. Postgres, Postgres.Batch and Postgres.Polling are the methods of
--   postgres.go over the record `Queries` of the statements, and Postgres.Sql fills it with those of
--   template.go, as functions on two tables. Postgres.View says when the tables stand for an in-memory
--   store (`Refines`), and Postgres.Refinement compares the operations; Postgres.Ids is about ids that
--   are refused and Postgres.Saved about what a row keeps.
--   Postgres.Expiry is about the expiration over this store and Postgres.Credits about the pusher over it.
-- - Expirer: runExpirationWorker of kharon.go, over the record `ExpireOps`; Expirer.Clearing is about the
--   in-memory store.
-- - Start: NewKharon and ResetStats of kharon.go; the sizes with which the runtime makes a channel are a
--   parameter.
-- - Settings, Tubes, Router: settings.go, the subscriptions of kharon.go, and router.go. Router.Locking
--   has the single steps of calls that share a router, over the record `RwMutex`.
-- - Marshal, Ticket.Setters: marshal.go, and the functions of ticket.go that build a ticket.
-- - Stats: stats/stats.go, stats/counter.go and stats/hist.go. Stats.Native is the conversion to a
--   native histogram, and Stats.Native.RoundTrip reads such a histogram back.
-- - Collector: prometheus/prometheus.go, as the list of the samples that a scrape sends;
--   Collector.Cumulative is about the buckets of its histograms.
-- - Base: lists, maps, integers, strings and their order. Tests: concrete runs.
--
-- Bounds: an int is an integer; counters are int64, the attempts and the sums of durations too, and
-- histograms use int32 and uint64, all with their wrap-around (`add64`, `wrap32`, `inc64`); the
-- columns of PostgreSQL are int16 and int32 (`wrap16`). A time is an integer without bound. Loops are
-- structural recursions on lists, but for the spans of a native histogram: that loop takes as many
-- rounds as there are buckets, which is enough, since each round uses up one bucket at least.
--
-- Parameters: the operations of floating point and of the package math (`Floats`), `sort.Slice` with
-- the hypothesis `IsSortSlice`, the order in which a loop visits a map with the hypothesis that it
-- visits each entry once, the results of marshallers, and the functions that callers hand over.
-- A float64 is its bit pattern.
--
-- PostgreSQL itself is a `Server`: the conversion of written values, now(), the order in which rows are
-- visited and sorted, and its arithmetic, which may fail (POWER, intervals); uuid.Parse is a function on texts. The theorems
-- assume of them what they name: that sorting permutes, that conversions keep ids, or that certain
-- columns are stored as they are. sync.RWMutex is a record of its
-- calls, with what its documentation says of them (`IsRwMutex`).
--
-- Not modelled: the pace of full-speed polls, the loops that only pass tickets through channels or
-- wait for a tick, and the timeouts of the pusher; the locks of concurrent SQL statements;
-- the examples and tests.
-- A send on the full channel of a Kharon waits in Go; only Lifecycle.Shutdown bounds the channel.
pub mod Base
pub mod Errors
pub mod Status
pub mod Ticket
pub mod Memory
pub mod Options
pub mod Settings
pub mod Router
pub mod Tubes
pub mod Stats
pub mod Kharon
pub mod Pusher
pub mod Poller
pub mod Worker
pub mod Lifecycle
pub mod Collector
pub mod Marshal
pub mod Expirer
pub mod Start
pub mod Postgres
pub mod Tests
