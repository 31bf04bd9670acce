-- ===== src/Poller/Loop.antt =====
-- The loop of poll and runPoller of kharon.go around the rounds. What a turn meets is given: the
-- cancellation at its start or in the limiter, the time, the subscriptions before and after the poll of
-- the store, and behind how many tickets the dispatch meets a cancellation, where it still has one to send.
pub mod Endless
use lymbo.Base.{
  ℕ, ℤ, pos, eqb_ℤ, nat_eq, ltb, length, List, [], ◌∷◌, ◌++◌, Option, none, some, Bool, true, false,
  ◌||◌, ◌&&◌, take, if◌then◌else◌,
}
use lymbo.Ticket.{Ticket}
use lymbo.Settings.{Settings}
use lymbo.Tubes.{Subscriptions}
use lymbo.Kharon.{Kharon}
use lymbo.Poller.{PollOps, Round, backs_off, idles, dispatches, poll_round}

pub record Turn : Type 0 where
  pub cancelled : Bool
  pub limited : Bool  -- whether the limiter returns an error
  pub time : ℤ
  pub subscribed : Subscriptions
  pub now_subscribed : Subscriptions
  pub sends : Option ℕ

-- The Kharon behind some turns, the tickets that went to the workers, and the delay that the loop
-- returned, if it returned.
pub record Polled (S : Type 0) : Type 0 where
  pub kharon : Kharon S
  pub income : List Ticket
  pub returned : Option ℤ

-- What follows a round: the return of poll, or its next turn with another slowdown.
unfoldable pub follow : {S : Type 0} → Option ℕ → Kharon S → Round → (ℕ → Polled S) → Polled S
follow sends k (backs_off d) next = record { kharon = k; income = []; returned = some d }
follow sends k (idles n) next = next n
follow (some m) k (dispatches n tickets) next =
    let p = next n in
    if ltb m (length tickets)
    then record { kharon = k; income = take m tickets; returned = some (pos 0) }
    else record p { income = tickets ++ p.income }
follow none k (dispatches n tickets) next =
    let p = next n in record p { income = tickets ++ p.income }

module _ {S : Type 0} (ops : PollOps S) (s : Settings) where
  -- poll; without further turns it is still at work.
  unfoldable pub poll : List Turn → ℕ → Kharon S → Polled S
  unfolding poll_round follow
  poll [] slowdown k = record { kharon = k; income = []; returned = none }
  poll (t ∷ turns) slowdown k =
      let (k', round) = poll_round ops s t.time t.subscribed t.now_subscribed slowdown k in
      let rest = follow t.sends k' round (λ n. poll turns n k') in
      if t.cancelled || nat_eq slowdown 0 && t.limited
      then record { kharon = k; income = []; returned = some (pos 0) }
      else rest

  -- runPoller: one call of poll after another, with a sleep between, until one returns 0.
  unfoldable pub run_poller : List (List Turn) → Kharon S → Polled S
  unfolding poll
  run_poller [] k = record { kharon = k; income = []; returned = none }
  run_poller (turns ∷ calls) k =
      let p = poll turns 0 k in
      let rest = run_poller calls p.kharon in
      elim p.returned [
        | none ↦ p
        | some d ↦ if eqb_ℤ d (pos 0) then p else record rest { income = p.income ++ rest.income }
      ]
