-- ===== src/Expirer.antt =====
-- runExpirationWorker of kharon.go: the removal of old tickets, over any store. Errors and the number of
-- removed tickets only go to the log. The worker ends when the context does; the ticks that come
-- before are a list of the times that it reads at them.
pub mod Clearing
use lymbo.Base.{ℤ, pos, List, [], ◌∷◌}
use lymbo.Errors.{Result}
use lymbo.Ticket.{TransitionInfo}

-- What the worker uses of a store: the limit, the time, and the infos of the removed tickets.
pub record ExpireOps (S : Type 0) : Type 0 where
  pub expire_tickets : ℤ → ℤ → S → S × Result (List TransitionInfo)

-- ExpirationBatchSize
abbrev pub expiration_batch_size : ℤ
expiration_batch_size = pos 1000

module _ {S : Type 0} (ops : ExpireOps S) where
  -- The case of the loop for a tick.
  unfoldable pub on_tick : ℤ → S → S
  on_tick now s = (ops.expire_tickets expiration_batch_size now s).0

  unfoldable pub run_expiration : List ℤ → S → S
  unfolding on_tick
  run_expiration [] s = s
  run_expiration (now ∷ ticks) s = run_expiration ticks (on_tick now s)
