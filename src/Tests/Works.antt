-- ===== src/Tests/Works.antt =====
-- Work on a ticket, and calls of Run.
use mathlib.Core.List.{Memᴰ}
use lymbo.Base.{refl, pos, ◌≤ℤ◌, [], ◌∷◌, arith}
use lymbo.Memory.Poll.{with_ready_at}
use lymbo.Worker.{deadline}
use lymbo.Worker.Deadlines.{deadline_passed}
use lymbo.Lifecycle.{new_life, run_begins}
use lymbo.Lifecycle.Exclusion.{Steps, Exclusive, steps-Exclusive}
use lymbo.Tests.Fixtures.{
  floats, sort_slice, sort_slice-IsSortSlice, in_order, in_order-perm, member, two, two-Inv,
  request,
}
use lymbo.Tests.Polls.{handed, after, polled}

-- The member was handed out at 10; its handler starts at 11 with the deadline 5.
deadline_passed_example : deadline (with_ready_at member) ≤ℤ pos 11
deadline_passed_example =
    deadline_passed floats sort_slice in_order sort_slice-IsSortSlice in_order-perm
      (request (pos 10)) two after handed (with_ready_at member) (pos 11) two-Inv polled
      ∣ Memᴰ.head refl ∣₁ (omega arith)

-- One call of Run is let in, and a second one is refused.
steps-Exclusive_example : Exclusive (run_begins (run_begins new_life).0).0 (0 ∷ []) []
unfolding run_begins
steps-Exclusive_example = steps-Exclusive (Steps.refused _ (Steps.began 0 Steps.fresh refl) refl)
