-- ===== src/Pusher/Delivery.antt =====
-- That the pusher of kharon.go hands every message to the store once.
use lymbo.Base.{
  ℕ, ◌+◌, ◌<◌, ◌≤◌, sym, ◌∙◌, String, ◌≡◌, ap, List, [], ◌∷◌, ◌++◌, Bool, arith, ◌==◌, count,
  length, length-append,
}
use lymbo.Ticket.{UpdateSet}
use lymbo.Kharon.{Kharon, Msg}
use lymbo.Pusher.Logged.{Logged}
use lymbo.Pusher.{BatchOps, Pusher, flush, receive}
use lymbo.Pusher.Held.{
  is_deletion_of, is_update_with, in_flights, held_dels, held_upds, total_dels, total_upds, Step,
  Step-dels, Step-upds, receive-dels, receive-upds,
}

module _ {S : Type 0} (ops : BatchOps S) (capacity : ℕ) where
  -- What the pusher does from its start on, with the messages that it took from the channel. Other
  -- calls may change the store between its steps; the log is only of the calls that the pusher makes.
  pub data Runs : List Msg → Pusher (Logged S) → Type 0 where
    start :
        (k : Kharon (Logged S))
        → k.store.deleted ≡ []
        → k.store.updated ≡ []
        → Runs [] (record { batch = []; flights = []; kharon = k })
    received :
        {ms : List Msg} {p : Pusher (Logged S)} (m : Msg)
        → Runs ms p
        → Runs (ms ++ m ∷ []) (receive capacity m p)
    stepped : {ms : List Msg} {p p' : Pusher (Logged S)} → Runs ms p → Step ops p p' → Runs ms p'
    changed :
        {ms : List Msg} {p : Pusher (Logged S)} (k : Kharon (Logged S))
        → Runs ms p
        → k.store.deleted ≡ p.kharon.store.deleted
        → k.store.updated ≡ p.kharon.store.updated
        → Runs ms (record p { kharon = k })

  deletions_kept :
      (tid : String) {ms : List Msg} {p : Pusher (Logged S)}
      → Runs ms p
      → count (is_deletion_of tid) ms ≡ total_dels tid p
  unfolding in_flights count
  deletions_kept tid (Runs.start k d u) = ground (arith, d)
  deletions_kept tid (Runs.received {ms = ms} {p = p} m r) =
      receive-dels capacity m ms p tid (deletions_kept tid r)
  deletions_kept tid (Runs.stepped r st) = deletions_kept tid r ∙ sym (Step-dels ops tid st)
  deletions_kept tid (Runs.changed k r d u) =
      omega (arith, deletions_kept tid r, ap (count (λ x. x == tid)) d)

  updates_kept :
      (q : UpdateSet → Bool) {ms : List Msg} {p : Pusher (Logged S)}
      → Runs ms p
      → count (is_update_with q) ms ≡ total_upds q p
  unfolding in_flights count
  updates_kept q (Runs.start k d u) = ground (arith, u)
  updates_kept q (Runs.received {ms = ms} {p = p} m r) =
      receive-upds capacity m ms p q (updates_kept q r)
  updates_kept q (Runs.stepped r st) = updates_kept q r ∙ sym (Step-upds ops q st)
  updates_kept q (Runs.changed k r d u) = omega (arith, updates_kept q r, ap (count q) u)

  -- Over a store that logs the calls of the pusher: at every time DeleteBatch has been called once
  -- with each deletion that the pusher took, or the pusher still holds it; UpdateBatch has been called
  -- once with each update set that it took, or it still holds it; and neither was called with
  -- anything else.
  pub messages_kept :
      (tid : String) (q : UpdateSet → Bool) {ms : List Msg} {p : Pusher (Logged S)}
      → Runs ms p
      → (count (is_deletion_of tid) ms
          ≡ count (λ d. d == tid) p.kharon.store.deleted + held_dels tid p)
        × (count (is_update_with q) ms ≡ count q p.kharon.store.updated + held_upds q p)
  messages_kept tid q r = (deletions_kept tid r, updates_kept q r)

  Step-batch : {p p' : Pusher (Logged S)} → Step ops p p' → length p'.batch ≤ length p.batch
  unfolding flush
  Step-batch (Step.ticked p) = ground arith
  Step-batch (Step.deleted p before after f e) = omega arith
  Step-batch (Step.updated p before after f k e none_left g) = omega arith

  -- With a capacity that is not zero, the batch never reaches it.
  batch_bounded :
      {ms : List Msg} {p : Pusher (Logged S)} → 0 < capacity → Runs ms p → length p.batch < capacity
  unfolding receive flush
  batch_bounded h (Runs.start k d u) = h
  batch_bounded h (Runs.received {p = p} m r) =
      ground (arith, batch_bounded h r, length-append p.batch (m ∷ []))
  batch_bounded h (Runs.stepped r st) = omega (arith, batch_bounded h r, Step-batch st)
  batch_bounded h (Runs.changed k r d u) = batch_bounded h r
