-- ===== src/Tests/Rounds.antt =====
-- Rounds of the poller over the in-memory store.
use mathlib.Core.Option
use lymbo.Base.{
  ◌≡◌, refl, ℤ, pos, List, none, some, false, [], ◌∷◌, true, ◌==◌, if◌then◌else◌, any, lookup,
}
use lymbo.Settings.{default_settings, normalize}
use lymbo.Settings.Normal.{normalize-IsNormal}
use lymbo.Tubes.{Subscriptions}
use lymbo.Kharon.{Kharon}
use lymbo.Memory.{Store}
use lymbo.Memory.Invariant.{Inv}
use lymbo.Poller.Loop.{Turn, poll, run_poller}
use lymbo.Poller.Loop.Endless.{interrupted, poller_goes_on}
use lymbo.Poller.{distribute}
use lymbo.Poller.Rounds.{returned, unsubscribed, ops, memory_poll_ops, put_back_restores}
use lymbo.Tests.Fixtures.{
  floats, sort_slice, sort_slice-IsSortSlice, in_order, in_order-perm, two, two-Inv, request,
}
use lymbo.Tests.Polls.{handed, after, polled}

-- The tube of the member is not subscribed any more.
abbrev moved : Subscriptions
moved = record { tubes = "sms" ∷ []; tubeson = true }

abbrev client : Store → Kharon Store
client s = record {
  store = s;
  stats = record { running_workers = pos 0; by_key = [] };
  outcome = [];
}

put_back_restores_example :
    lookup "m"
      (distribute
        (ops floats sort_slice in_order sort_slice-IsSortSlice in_order-perm (pos 11))
        default_settings
        moved
        0
        handed
        (client after)).0.store.entries
    ≡ (if any (λ t. t.id == "m") (unsubscribed moved handed)
        then Option.map returned (lookup "m" two.entries)
        else lookup "m" after.entries)
put_back_restores_example =
    put_back_restores floats sort_slice in_order sort_slice-IsSortSlice in_order-perm (pos 11)
      (request (pos 10)) two after handed two-Inv polled default_settings moved 0 (client two) "m"
      refl

-- Two turns of the poller at the times 10 and 20, of which none is interrupted.
abbrev subscribed : Subscriptions
subscribed = record { tubes = "mail" ∷ []; tubeson = true }

abbrev turn : ℤ → Turn
turn time = record {
  cancelled = false;
  limited = false;
  time = time;
  subscribed = subscribed;
  now_subscribed = subscribed;
  sends = none;
}

abbrev turns : List Turn
turns = turn (pos 10) ∷ turn (pos 20) ∷ []

poller_goes_on_example :
    let s = normalize floats default_settings in
    let ops = memory_poll_ops floats sort_slice in_order (pos 11) in
    let p = run_poller ops s (turns ∷ []) (client two) in
    (p ≡ poll ops s turns 0 (client two))
    × Inv p.kharon.store
    × (any interrupted turns ≡ false → p.returned ≡ none)
    × ((d : ℤ) → p.returned ≡ some d → d ≡ pos 0)
poller_goes_on_example =
    poller_goes_on floats sort_slice in_order sort_slice-IsSortSlice in_order-perm (pos 11)
      (normalize floats default_settings) (normalize-IsNormal floats default_settings refl) turns []
      (client two) two-Inv
