-- ===== src/Lifecycle/Shutdown.antt =====
-- The end of a Run of kharon.go: runWorker and runPusher beside each other, once the context may be
-- cancelled. A handler is the messages that its calls have yet to send; the channel `outcome` of the
-- Kharon holds `capacity` messages at most, and a send on the full channel waits. A flush in flight ends
-- in one step, the deletions before the updates.
pub mod Channel
pub mod Blocking
pub mod Handing
use lymbo.Base.{
  ℕ, ◌<◌, ◌≡◌, List, [], ◌∷◌, ◌++◌, Option, some, Bool, true, false, ◌&&◌, length, all, get_elem?,
  set,
}
use lymbo.Kharon.{Kharon, Msg}
use lymbo.Pusher.{BatchOps, Flush, Pusher, receive, flush, do_deletes, do_updates}

-- Where a worker stands: at its select, in a handler, or at its end.
pub data WorkerPc : Type 0 where
  waiting : WorkerPc
  handling : List Msg → WorkerPc
  gone : WorkerPc

-- The pusher: in its loop, behind the final flush, or at its end.
pub data PusherPc : Type 0 where
  looping draining ended : PusherPc

-- The messages that were sent and those that the pusher took are kept to speak about them.
pub record System (S : Type 0) : Type 0 where
  pub cancelled : Bool
  pub workers : List WorkerPc
  pub pushing : PusherPc
  pub pusher : Pusher S
  pub sent : List Msg
  pub taken : List Msg

abbrev pub is_gone : WorkerPc → Bool
is_gone gone = true
is_gone _ = false

abbrev pub is_ended : PusherPc → Bool
is_ended ended = true
is_ended _ = false

module _ {S : Type 0} where
  -- wg.Wait() returns, and so does Run.
  unfoldable pub may_return : System S → Bool
  may_return s = all is_gone s.workers && is_ended s.pushing

  -- The channel with other messages in it.
  abbrev pub with_channel : List Msg → Pusher S → Pusher S
  with_channel ms p = record p { kharon = record p.kharon { outcome = ms } }

module _ {S : Type 0} (ops : BatchOps S) (capacity room : ℕ) (start : System S) where
  -- The batch of the pusher has the capacity `room`.
  pub data Steps : System S → Type 0 where
    none_yet : Steps start
    cancels : {s : System S} → Steps s → Steps (record s { cancelled = true })
    handles :
        {s : System S} (i : ℕ) (ms : List Msg)
        → Steps s
        → get_elem? s.workers i ≡ some waiting
        → Steps (record s { workers = set s.workers i (handling ms) })
    sends :
        {s : System S} (i : ℕ) (m : Msg) (ms : List Msg)
        → Steps s
        → get_elem? s.workers i ≡ some (handling (m ∷ ms))
        → length s.pusher.kharon.outcome < capacity
        → Steps (record s {
          workers = set s.workers i (handling ms);
          pusher = with_channel (s.pusher.kharon.outcome ++ m ∷ []) s.pusher;
          sent = s.sent ++ m ∷ [];
        })
    returns :
        {s : System S} (i : ℕ)
        → Steps s
        → get_elem? s.workers i ≡ some (handling [])
        → Steps (record s { workers = set s.workers i waiting })
    leaves :
        {s : System S} (i : ℕ)
        → Steps s
        → get_elem? s.workers i ≡ some waiting
        → s.cancelled ≡ true
        → Steps (record s { workers = set s.workers i gone })
    takes :
        {s : System S} (m : Msg) (rest : List Msg)
        → Steps s
        → s.pushing ≡ looping
        → s.pusher.kharon.outcome ≡ m ∷ rest
        → Steps (record s {
          pusher = receive room m (with_channel rest s.pusher);
          taken = s.taken ++ m ∷ [];
        })
    ticks :
        {s : System S}
        → Steps s
        → s.pushing ≡ looping
        → Steps (record s { pusher = flush s.pusher })
    lands :
        {s : System S} (before after : List Flush) (f : Flush) (k : Kharon S)
        → Steps s
        → s.pusher.flights ≡ before ++ f ∷ after
        → do_updates ops f.upds (do_deletes ops f.dels s.pusher.kharon) ≡ some k
        → Steps (record s { pusher = record s.pusher { flights = before ++ after; kharon = k } })
    drains :
        {s : System S}
        → Steps s
        → s.pushing ≡ looping
        → s.cancelled ≡ true
        → Steps (record s { pushing = draining; pusher = flush s.pusher })
    ends :
        {s : System S}
        → Steps s
        → s.pushing ≡ draining
        → s.pusher.flights ≡ []
        → Steps (record s { pushing = ended })
