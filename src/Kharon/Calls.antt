-- ===== src/Kharon/Calls.antt =====
-- What the calls on a ticket of kharon.go send to the pusher.
use lymbo.Base.{
  String, ◌≡◌, ℤ, pos, List, [], ◌∷◌, ◌++◌, none, some, Bool, true, false, ◌&&◌, not, arith,
  if◌then◌else◌,
}
use lymbo.Errors.{Error, Result, ok, err}
use lymbo.Status
use lymbo.Ticket.{Floats, Ticket}
use lymbo.Options.{fixed_delay, infinity_delay, Opts, OptsOption, no_opts, to_opts}
use lymbo.Stats.{Metric}
use lymbo.Kharon as Api
use lymbo.Kharon.{StoreOps, Kharon, Msg, before_update, update_set, save, send, send_delete}

-- The calls on a ticket that is stored already.
pub data Action : Type 0 where
  ack done cancel fail restart retry : Action

-- The metric under which an action is counted.
abbrev pub intent_of : Action → Metric
intent_of Action.ack = Metric.ack
intent_of Action.done = Metric.done
intent_of Action.cancel = Metric.cancel
intent_of Action.fail = Metric.fail
intent_of Action.restart = Metric.add
intent_of Action.retry = Metric.retry

-- The options that an action starts with: an ack and a cancel do not keep the ticket, the others do;
-- a ticket that comes to an end is never due again, a restarted one at once.
abbrev pub start_of : Action → Opts
start_of Action.ack = record no_opts { status = some Status.done; delay = infinity_delay }
start_of Action.done = record no_opts {
  keep = true;
  status = some Status.done;
  delay = infinity_delay;
}
start_of Action.cancel = record no_opts { status = some Status.cancelled; delay = infinity_delay }
start_of Action.fail = record no_opts {
  keep = true;
  status = some Status.failed;
  delay = infinity_delay;
}
start_of Action.restart = record no_opts {
  keep = true;
  status = some Status.pending;
  delay = fixed_delay (pos 0);
  reset_attempts = true;
}
start_of Action.retry = record no_opts { keep = true }

-- Whether the action deletes a ticket that its options do not keep.
abbrev pub may_delete : Action → Bool
may_delete Action.ack = true
may_delete Action.cancel = true
may_delete _ = false

module _ {S : Type 0} (ops : StoreOps S) (fl : Floats) where
  unfoldable pub perform :
      Action → ℤ → String → List OptsOption → Kharon S → Kharon S × Result (Unit {0})
  perform Action.ack = Api.ack ops fl
  perform Action.done = Api.finish ops fl
  perform Action.cancel = Api.cancel ops fl
  perform Action.fail = Api.fail ops fl
  perform Action.restart = Api.restart ops fl
  perform Action.retry = Api.retry ops fl

  -- An action whose options have no update function leaves the store and the statistics alone and
  -- sends one message, with its metric as the intent: a deletion if the action may delete and the
  -- options do not keep the ticket, and else the update set of the options.
  pub perform_sends :
      (a : Action) (now : ℤ) (tid : String) (opts : List OptsOption) (o : Opts) (k : Kharon S)
      → to_opts (start_of a) opts ≡ ok o
      → o.update ≡ none
      → perform a now tid opts k ≡ (
        record k {
          outcome =
              k.outcome
              ++ record {
                tid = tid;
                upd = if may_delete a && not o.keep then none else some (update_set fl now tid o);
                intent = intent_of a;
              }
                ∷ [];
        },
        ok tt,
      )
  unfolding perform Api.ack Api.finish Api.cancel Api.fail Api.restart Api.retry
  perform_sends Action.ack now tid opts o k made plain = ground arith
  perform_sends Action.done now tid opts o k made plain = ground arith
  perform_sends Action.cancel now tid opts o k made plain = ground arith
  perform_sends Action.fail now tid opts o k made plain = ground arith
  perform_sends Action.restart now tid opts o k made plain = ground arith
  perform_sends Action.retry now tid opts o k made plain = ground arith

  -- An action whose options have an update function sends no message, unless it deletes the ticket:
  -- the store makes the update at once, and its result is that of the action.
  pub perform_updates :
      (a : Action) (now : ℤ) (tid : String) (opts : List OptsOption) (o : Opts)
      (fn : Ticket → Result Ticket) (k : Kharon S)
      → to_opts (start_of a) opts ≡ ok o
      → o.update ≡ some fn
      → (may_delete a && not o.keep) ≡ false
      → let (s, r) = ops.update tid (before_update fl now o) k.store in
        perform a now tid opts k ≡ (record k { store = s }, r)
  unfolding perform Api.ack Api.finish Api.cancel Api.fail Api.restart Api.retry
  perform_updates Action.ack now tid opts o fn k made given kept = ground arith
  perform_updates Action.done now tid opts o fn k made given kept = ground arith
  perform_updates Action.cancel now tid opts o fn k made given kept = ground arith
  perform_updates Action.fail now tid opts o fn k made given kept = ground arith
  perform_updates Action.restart now tid opts o fn k made given kept = ground arith
  perform_updates Action.retry now tid opts o fn k made given kept = ground arith

  -- An action whose options cannot be made changes nothing and reports the error of the options.
  pub perform_refused :
      (a : Action) (now : ℤ) (tid : String) (opts : List OptsOption) (e : Error) (k : Kharon S)
      → to_opts (start_of a) opts ≡ err e
      → perform a now tid opts k ≡ (k, err e)
  unfolding perform Api.ack Api.finish Api.cancel Api.fail Api.restart Api.retry
  perform_refused Action.ack now tid opts e k h = ground arith
  perform_refused Action.done now tid opts e k h = ground arith
  perform_refused Action.cancel now tid opts e k h = ground arith
  perform_refused Action.fail now tid opts e k h = ground arith
  perform_refused Action.restart now tid opts e k h = ground arith
  perform_refused Action.retry now tid opts e k h = ground arith
