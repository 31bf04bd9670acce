-- ===== src/Lifecycle.antt =====
-- Run and Stop of kharon.go: which of several calls runs a Kharon, and what Stop waits for.
-- A call of Run is named by the channel `done` that it makes, a number here. `runMu` makes the parts of
-- the calls under it single steps, which calls in other goroutines may come between.
pub mod Exclusion
pub mod Shutdown
use lymbo.Base.{
  ℕ, suc, ◌+◌, List, [], ◌∷◌, Option, none, some, Bool, true, false, not, if◌then◌else◌, nat_eq,
  select, any,
}
use lymbo.Errors.{Result, ok, err, already_running}

pub record Life : Type 0 where
  pub run_done : Option ℕ  -- runDone, with runCancel
  pub made : ℕ  -- the channels made so far are the numbers below
  pub cancelled : List ℕ  -- runs whose context is cancelled
  pub closed : List ℕ  -- closed channels

abbrev pub new_life : Life
new_life = record { run_done = none; made = 0; cancelled = []; closed = [] }

-- Run up to the unlock: its channel, or the error.
unfoldable pub run_begins : Life → Life × Result ℕ
run_begins l = elim l.run_done [
  | some _ ↦ (record l { made = suc l.made }, err already_running)
  | none ↦ (record l { run_done = some l.made; made = suc l.made }, ok l.made)
]

-- The deferred function of Run up to the unlock.
unfoldable pub run_unlocks : Life → Life
run_unlocks l = record l { run_done = none }

-- Behind it: cancel(), and then close(done).
unfoldable pub run_cancels : ℕ → Life → Life
run_cancels id l = record l { cancelled = id ∷ l.cancelled }

unfoldable pub run_closes : ℕ → Life → Life
run_closes id l = record l { closed = id ∷ l.closed }

-- Stop up to the unlock: the run that it sees.
unfoldable pub stop_reads : Life → Option ℕ
stop_reads l = l.run_done

-- cancel(), if there was a run.
unfoldable pub stop_cancels : Option ℕ → Life → Life
stop_cancels none l = l
stop_cancels (some id) l = record l { cancelled = id ∷ l.cancelled }

-- The select at the end of Stop: whether it may return nil.
unfoldable pub stop_may_return : Option ℕ → Life → Bool
stop_may_return none l = true
stop_may_return (some id) l = any (λ c. nat_eq c id) l.closed
