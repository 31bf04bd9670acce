-- ===== src/Tests/Flushes.antt =====
-- Runs of the pusher over the in-memory store.
use lymbo.Base.{
  ℕ, ℤ, ◌+◌, ◌≡◌, refl, [], ◌∷◌, ◌++◌, pos, none, some, ◌==◌, count, contains, all, false,
}
use lymbo.Errors.{ok, err, ticket_not_found}
use lymbo.Stats.{Metric}
use lymbo.Memory
use lymbo.Memory.{Store, blockers}
use lymbo.Kharon.{Kharon, Msg, ack}
use lymbo.Kharon.Groups.{memory_ops}
use lymbo.Pusher.Acked.{ack_of, acked_gone}
use lymbo.Pusher.{BatchOps, Flush, Pusher, receive, flush, split, do_deletes, do_updates}
use lymbo.Pusher.Held.{is_deletion_of, is_update_with, held_dels, held_upds, Step}
use lymbo.Pusher.Delivery.{Runs, messages_kept}
use lymbo.Pusher.Logged.{Logged, logged}
use lymbo.Pusher.Shared.{memory_batch_ops, do_updates-do_deletes}
use lymbo.Tests.Fixtures.{floats, two, two-Inv, in_order, no_update}

abbrev client : Kharon Store
client = record {
  store = two;
  stats = record { running_workers = pos 0; by_key = [] };
  outcome = [];
}

-- Clocks that show 10, 11 and so on.
abbrev clock : ℕ → ℤ
clock i = pos (10 + i)

abbrev ops : BatchOps Store
ops = memory_batch_ops floats clock

abbrev logging : Kharon (Logged Store)
logging = record {
  store = record { store = two; deleted = []; updated = [] };
  stats = client.stats;
  outcome = [];
}

abbrev idle : Pusher (Logged Store)
idle = record { batch = []; flights = []; kharon = logging }

-- The deletion of the member, then an update of it, fill a batch of two.
abbrev deletion : Msg
deletion = record { tid = "m"; upd = none; intent = Metric.ack }

abbrev change : Msg
change = record { tid = "m"; upd = some (no_update "m"); intent = Metric.retry }

abbrev filled : Pusher (Logged Store)
filled = receive 2 change (receive 2 deletion idle)

took : Runs ops 2 ([] ++ deletion ∷ [] ++ change ∷ []) filled
took = Runs.received change (Runs.received deletion (Runs.start logging refl refl))

-- Their flush has begun, and its deletion is made.
abbrev begun : Flush
begun = split (deletion ∷ change ∷ [])

abbrev halfway : Pusher (Logged Store)
halfway = record filled {
  flights = record begun { dels = [] } ∷ [];
  kharon = do_deletes (logged ops) begun.dels filled.kharon;
}

made : Runs ops 2 ([] ++ deletion ∷ [] ++ change ∷ []) halfway
unfolding receive flush split
made = Runs.stepped took (Step.deleted filled [] [] begun refl)

messages_kept_example :
    (count (is_deletion_of "m") ([] ++ deletion ∷ [] ++ change ∷ [])
      ≡ count (λ d. d == "m") halfway.kharon.store.deleted + held_dels "m" halfway)
    × (count (is_update_with (λ us. us.id == "m")) ([] ++ deletion ∷ [] ++ change ∷ [])
        ≡ count (λ us. us.id == "m") halfway.kharon.store.updated
          + held_upds (λ us. us.id == "m") halfway)
messages_kept_example = messages_kept ops 2 "m" (λ us. us.id == "m") made

do_updates-do_deletes_example :
    do_updates ops
      ((no_update "m", Metric.retry) ∷ [])
      (do_deletes ops (("m", Metric.ack) ∷ []) client)
    ≡ some (do_deletes ops (("m", Metric.ack) ∷ []) client)
unfolding contains
do_updates-do_deletes_example =
    do_updates-do_deletes floats clock (("m", Metric.ack) ∷ []) (no_update "m") Metric.retry []
      client refl

-- The member is acknowledged in a flush that also updates the finalizer.
abbrev again : Msg
again = record { tid = "f"; upd = some (no_update "f"); intent = Metric.retry }

acked_gone_example :
    let f = split ((again ∷ []) ++ ack_of "m" ∷ []) in
    (ka : Kharon Store) × (ack (memory_ops in_order) floats (pos 10) "m" [] client
      ≡ (record client { outcome = client.outcome ++ ack_of "m" ∷ [] }, ok tt))
    × (do_updates ops f.upds (do_deletes ops f.dels client) ≡ some ka)
    × (Memory.get "m" ka.store ≡ err ticket_not_found)
    × (contains "m" (blockers "f" ka.store.deps) ≡ false)
unfolding all split
acked_gone_example =
    acked_gone floats (pos 10) clock in_order "m" "f" client client (again ∷ []) [] two-Inv refl
