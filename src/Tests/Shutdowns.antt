-- ===== src/Tests/Shutdowns.antt =====
-- A Run that ends while handlers still send, over the in-memory store.
use lymbo.Base.{
  ◌+◌, String, Bool, ◌==◌, count, ◌≡◌, refl, ◌++◌, pos, List, [], ◌∷◌, some, none, true, false, all,
  arith, get_elem?, set,
}
use lymbo.Stats.{Metric}
use lymbo.Kharon.{Msg}
use lymbo.Memory.{Store}
use lymbo.Ticket.{UpdateSet}
use lymbo.Pusher.{Pusher, Flush, BatchOps, flush, receive, split, do_deletes, do_updates}
use lymbo.Pusher.Logged.{Logged, logged}
use lymbo.Pusher.Held.{is_deletion_of, is_update_with}
use lymbo.Pusher.Shared.{memory_batch_ops}
use lymbo.Lifecycle.Shutdown.{System, waiting, handling, gone, looping, ended, may_return, Steps}
use lymbo.Lifecycle.Shutdown.Blocking.{blocked_for_good}
use lymbo.Lifecycle.Shutdown.Handing.{returned_handed}
use lymbo.Tests.Fixtures.{floats, two}

abbrev ops : BatchOps Store
ops = memory_batch_ops floats (λ i. pos (10 + i))

abbrev deletion : Msg
deletion = record { tid = "m"; upd = none; intent = Metric.ack }

abbrev holding : List Msg → Pusher Store
holding ms = record {
  batch = [];
  flights = [];
  kharon = record {
    store = two;
    stats = record { running_workers = pos 0; by_key = [] };
    outcome = ms;
  };
}

-- One worker.
abbrev fresh : System Store
fresh = record {
  cancelled = false;
  workers = waiting ∷ [];
  pushing = looping;
  pusher = holding [];
  sent = [];
  taken = [];
}

-- The same over a store with a log.
abbrev logs : List String → Logged Store
logs ids = record { store = two; deleted = ids; updated = [] }

abbrev fresh_logged : System (Logged Store)
fresh_logged = record {
  cancelled = false;
  workers = waiting ∷ [];
  pushing = looping;
  pusher = record {
    batch = [];
    flights = [];
    kharon = record {
      store = logs [];
      stats = record { running_workers = pos 0; by_key = [] };
      outcome = [];
    };
  };
  sent = [];
  taken = [];
}

-- The handler sends a message, which the pusher takes and flushes at its end, and one more, which stays
-- in the channel.
abbrev at_end : System (Logged Store)
at_end = record {
  cancelled = true;
  workers = gone ∷ [];
  pushing = ended;
  pusher = record {
    batch = [];
    flights = [];
    kharon = record (do_deletes (logged ops) (("m", Metric.ack) ∷ []) fresh_logged.pusher.kharon) {
      outcome = deletion ∷ [];
    };
  };
  sent = deletion ∷ deletion ∷ [];
  taken = deletion ∷ [];
}

abbrev one_flush : Flush
one_flush = record { dels = ("m", Metric.ack) ∷ []; upds = [] }

run_ends : Steps (logged ops) 10 2 fresh_logged at_end
unfolding flush receive split do_deletes do_updates get_elem? set
run_ends =
    Steps.leaves 0
      (Steps.returns 0
        (Steps.sends 0 deletion []
          (Steps.ends
            (Steps.lands [] [] one_flush _
              (Steps.drains
                (Steps.cancels (
                  Steps.takes deletion []
                    (Steps.sends 0 deletion (deletion ∷ [])
                      (Steps.handles 0 (deletion ∷ deletion ∷ []) Steps.none_yet refl) refl
                      (omega arith))
                    refl refl))
                refl refl)
              refl refl)
            refl refl)
          refl (omega arith))
        refl)
      refl refl

returned_handed_example :
    ((tid : String)
      → count (is_deletion_of tid) at_end.taken
        ≡ count (λ d. d == tid) at_end.pusher.kharon.store.deleted)
    × ((q : UpdateSet → Bool)
        → count (is_update_with q) at_end.taken ≡ count q at_end.pusher.kharon.store.updated)
    × (at_end.sent ≡ at_end.taken ++ at_end.pusher.kharon.outcome)
unfolding may_return all
returned_handed_example =
    returned_handed ops 10 2 refl (refl, refl, refl) (refl, refl) (refl, refl) run_ends refl

-- With room for one message, a handler that sends two.
abbrev stuck : System Store
stuck = record {
  cancelled = true;
  workers = handling (deletion ∷ []) ∷ [];
  pushing = ended;
  pusher = holding (deletion ∷ []);
  sent = deletion ∷ [];
  taken = [];
}

sticks : Steps ops 1 2 fresh stuck
unfolding flush get_elem? set
sticks =
    Steps.sends 0 deletion (deletion ∷ [])
      (Steps.ends
        (Steps.drains
          (Steps.cancels (Steps.handles 0 (deletion ∷ deletion ∷ []) Steps.none_yet refl)) refl
          refl)
        refl refl)
      refl (omega arith)

blocked_for_good_example :
    (get_elem? stuck.workers 0 ≡ some (handling (deletion ∷ []))) × (may_return stuck ≡ false)
unfolding get_elem?
blocked_for_good_example =
    blocked_for_good ops 1 2 {s = stuck} 0 deletion [] refl refl refl (Steps.cancels Steps.none_yet)
