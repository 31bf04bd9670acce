-- ===== src/Lifecycle/Shutdown/Channel.antt =====
-- What the steps of the pusher of kharon.go leave in the channel of the messages.
use lymbo.Base.{ℕ, String, ◌≡◌, refl, ◌∙◌, List, [], ◌∷◌, some, arith}
use lymbo.Kharon.{Kharon, Msg}
use lymbo.Ticket.{UpdateSet}
use lymbo.Stats.{Metric}
use lymbo.Pusher.{BatchOps, Flush, Pusher, receive, flush, do_deletes, do_updates}

module _ {S : Type 0} (ops : BatchOps S) where
  deletes_outcome :
      (ds : List (String × Metric)) (k : Kharon S) → (do_deletes ops ds k).outcome ≡ k.outcome
  unfolding do_deletes
  deletes_outcome [] k = refl
  deletes_outcome (d ∷ ds) k = refl

  updates_outcome :
      (us : List (UpdateSet × Metric)) (k k' : Kharon S)
      → do_updates ops us k ≡ some k'
      → k'.outcome ≡ k.outcome
  unfolding do_updates
  updates_outcome [] k k' e = ground arith
  updates_outcome (u ∷ us) k k' e = ground arith

  pub lands_outcome :
      (f : Flush) (k k' : Kharon S)
      → do_updates ops f.upds (do_deletes ops f.dels k) ≡ some k'
      → k'.outcome ≡ k.outcome
  lands_outcome f k k' e =
      updates_outcome f.upds (do_deletes ops f.dels k) k' e ∙ deletes_outcome f.dels k

module _ {S : Type 0} where
  pub flush_outcome : (p : Pusher S) → (flush p).kharon.outcome ≡ p.kharon.outcome
  unfolding flush
  flush_outcome p = ground arith

  pub receive_outcome :
      (room : ℕ) (m : Msg) (p : Pusher S) → (receive room m p).kharon.outcome ≡ p.kharon.outcome
  unfolding receive flush
  receive_outcome room m p = ground arith

  pub flush_batch : (p : Pusher S) → (flush p).batch ≡ []
  unfolding flush
  flush_batch p = ground arith
