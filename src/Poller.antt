-- ===== src/Poller.antt =====
-- poll and runPoller of kharon.go: one round of the loop that takes due tickets out of the store for
-- the workers. A round reads the subscribed tubes twice, before and after the poll of the store, and
-- they may have changed between. The pacing of full-speed polls is a library's and is left out.
pub mod Slowdown
pub mod PutBack
pub mod Rounds
pub mod Loop
use lymbo.Base.{
  ℕ, zero, suc, ◌-◌, String, ℤ, pos, ◌-ℤ◌, eqb_ℤ, List, [], ◌∷◌, map, Option, none, some, Bool,
  true, false, if◌then◌else◌, length, contains, is_empty,
}
use lymbo.Errors.{Result, ok, err}
use lymbo.Ticket.{Floats, Ticket, UpdateSet, PollRequest, TransitionInfo, second}
use lymbo.Settings.{Settings}
use lymbo.Stats.{Metric, Stats, by_key_inc}
use lymbo.Tubes.{Subscriptions, tubes_of}
use lymbo.Kharon.{Kharon, key_of}

-- What the poller uses of a store.
pub record PollOps (S : Type 0) : Type 0 where
  pub poll_pending : PollRequest → S → S × Result (List Ticket)
  pub update_batch : List UpdateSet → S → S × Result (List TransitionInfo)

-- 100.0, 1.0, 0.5 and 0.2 as float64
abbrev pub sense : ℕ
sense = 0x4059_0000_0000_0000

abbrev pub float_one : ℕ
float_one = 0x3ff0_0000_0000_0000

abbrev pub float_half : ℕ
float_half = 0x3fe0_0000_0000_0000

abbrev pub float_fifth : ℕ
float_fifth = 0x3fc9_9999_9999_999a

-- The sleep before a poll, where `random` is what rand.Float64 returns; no sleep at full speed.
unfoldable pub sleep : Floats → Settings → ℕ → ℕ → Option ℤ
sleep fl s random zero = none
sleep fl s random (suc n) =
    let mx = fl.seconds s.max_reaction_delay in
    let mn = fl.seconds s.min_reaction_delay in
    let part =
      fl.minus float_one (fl.exponential2 (fl.over (fl.of_int (pos 0 -ℤ pos (suc n))) sense)) in
    let straight = fl.plus mn (fl.times (fl.minus mx mn) part) in
    let shaken =
      fl.times straight (fl.plus float_one (fl.times (fl.minus random float_half) float_fifth)) in
    some (fl.to_duration (fl.times shaken (fl.of_int second)))

-- The slowdown after a poll that returned `size` tickets.
unfoldable pub next_slowdown : ℤ → ℕ → ℕ → ℕ
next_slowdown batch_size zero slowdown = suc slowdown
next_slowdown batch_size (suc n) zero = zero
next_slowdown batch_size (suc n) (suc slowdown) =
    if eqb_ℤ (pos (suc n)) batch_size then zero else slowdown

-- The request of a poll.
unfoldable pub request_of : Settings → ℤ → List String → PollRequest
request_of s now tubes = record {
  limit = s.batch_size;
  now = now;
  ttr = s.process_time;
  backoff_base = s.backoff_base;
  max_backoff_delay = s.max_backoff_delay;
  request_tubes = tubes;
}

-- Each polled ticket is counted.
unfoldable pub count_polled : List Ticket → Stats → Stats
count_polled [] st = st
count_polled (t ∷ ts) st = count_polled ts (by_key_inc (key_of t) Metric.poll st)

-- The update that puts a ticket back at the Runat that it had.
abbrev pub put_back_of : Ticket → UpdateSet
put_back_of t = record {
  id = t.id;
  tube = none;
  group_id = none;
  status = none;
  nice = none;
  runat = some t.ready_at;
  backoff = none;
  payload = none;
  error_reason = none;
}

-- The loop that tells the tickets to dispatch from those to put back.
unfoldable pub sort_out : List String → List Ticket → List Ticket × List UpdateSet
sort_out tubes [] = ([], [])
sort_out tubes (t ∷ ts) =
    let (dispatch, put_back) = sort_out tubes ts in
    if contains t.tube tubes then (t ∷ dispatch, put_back) else (dispatch, put_back_of t ∷ put_back)

-- How a round ends: the loop returns a delay, goes on, or goes on after tickets were dispatched.
pub data Round : Type 0 where
  backs_off : ℤ → Round
  idles : ℕ → Round
  dispatches : ℕ → List Ticket → Round

module _ {S : Type 0} (ops : PollOps S) where
  -- UpdateBatch of the tickets to put back, if there are any; an error is only logged.
  unfoldable pub put_all_back : List UpdateSet → S → S
  put_all_back [] s = s
  put_all_back (us ∷ updates) s = (ops.update_batch (us ∷ updates) s).0

  -- The part of a round behind a poll of the store that returned tickets.
  unfoldable pub distribute :
      Settings → Subscriptions → ℕ → List Ticket → Kharon S → Kharon S × Round
  unfolding put_all_back
  distribute s now_subscribed slowdown tickets k =
      let st = count_polled tickets k.stats in
      let slower = next_slowdown s.batch_size (length tickets) slowdown in
      let (dispatch, put_back) = sort_out (tubes_of now_subscribed) tickets in
      if now_subscribed.tubeson
      then (
        record k { stats = st; store = put_all_back put_back k.store },
        dispatches slower dispatch,
      )
      else (record k { stats = st }, dispatches slower tickets)

  -- One round of poll, from PollPending on.
  unfoldable pub poll_round :
      Settings → ℤ → Subscriptions → Subscriptions → ℕ → Kharon S → Kharon S × Round
  unfolding distribute
  poll_round s now subscribed now_subscribed slowdown k =
      let (store, r) = ops.poll_pending (request_of s now (tubes_of subscribed)) k.store in
      elim r [
        | err _ ↦ (record k { store = store }, backs_off s.max_reaction_delay)
        | ok [] ↦ (record k { store = store }, idles (next_slowdown s.batch_size zero slowdown))
        | ok (t ∷ ts) ↦ distribute s now_subscribed slowdown (t ∷ ts) (record k { store = store })
      ]
