-- ===== src/Worker.antt =====
-- processTicket of kharon.go: what a worker does with a ticket.
-- A handler is given the deadline of its context; it leaves the type and the tube of the ticket alone.
-- It answers, or it panics, which the worker recovers from. `run` tells which.
pub mod Effects
pub mod Deadlines
use lymbo.Base.{
  ℕ, ◌^◌, ◌-◌, String, ◌≡◌, refl, ap, ◌∙◌, ℤ, pos, negsuc, ◌≤ℤ◌, ◌-ℤ◌, leb_ℤ, ltb_ℤ, add64, List,
  Option, none, some, Bool, true, false, ◌&&◌, arith, if◌then◌else◌, nat_eq, Perm, Bool-cases, inl,
  inr,
}
use mathlib.Core.List.{Mem}
use lymbo.Errors.{Result, ok, err, handler_not_found}
use lymbo.Ticket.{Floats, Ticket, PollRequest}
use lymbo.Stats.{
  Metric, Key, same_key, Measurers, Stats, at, new_measurers, by_key_inc, observe_queue_wait,
  observe_process,
}
use lymbo.Stats.Counting.{counter, metric_code, is_counted, at-change_at, counter-by_key_inc}
use lymbo.Stats.Histogram.{record_duration}
use lymbo.Router.{
  Router, Handler, nil_interface, nil_func, usable, Resolved, handler, package_not_found,
  handler_for,
}
use lymbo.Kharon.{key_of}
use lymbo.Memory.{Tickets, Store}
use lymbo.Memory.Poll.{poll_pending}
use lymbo.Memory.Invariant.{Inv}
use lymbo.Memory.Sorted.{IsSortSlice}
use lymbo.Memory.Handout.{poll_returns_due}

-- t.Sub(u): the difference, or the nearest int64.
unfoldable pub sub_time : ℤ → ℤ → ℤ
sub_time t u =
    let d = t -ℤ u in
    if ltb_ℤ d (negsuc (2 ^ 63 - 1))
    then negsuc (2 ^ 63 - 1)
    else if ltb_ℤ (pos (2 ^ 63 - 1)) d
    then pos (2 ^ 63 - 1)
    else d

-- The deadline of the context that the handler is given.
unfoldable pub deadline : Ticket → ℤ
deadline t = t.runat

module _ {H : Type 0} (run : H → ℤ → Ticket → Option (Result (Unit {0}))) (fl : Floats) where
  -- What the handler of a ticket answers; `none` is a panic.
  unfoldable pub answer : Resolved H → Ticket → Option (Result (Unit {0}))
  unfolding deadline
  answer (handler (usable h)) t = run h (deadline t) t
  answer (handler _) t = none
  answer package_not_found t = some (err handler_not_found)

  -- processTicket, with the readings of the clock before and after the handler.
  unfoldable pub process_ticket : Router H → ℤ → ℤ → Ticket → Stats → Stats
  unfolding answer sub_time
  process_ticket r start finish t st =
      let waited = observe_queue_wait fl (key_of t) (sub_time start t.ready_at) st in
      elim (answer (handler_for t r) t) [
        | none ↦ waited
        | some (err _) ↦ observe_process fl (key_of t) (sub_time finish start) waited
        | some (ok _) ↦
            by_key_inc (key_of t) Metric.process
              (observe_process fl (key_of t) (sub_time finish start) waited)
      ]
