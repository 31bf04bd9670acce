-- ===== src/Tests/Starts.antt =====
-- A Kharon with settings for no workers and one tube, over the in-memory store.
use lymbo.Base.{ℕ, String, ◌≡◌, ◌≢◌, refl, ℤ, pos, leb_ℤ, add64, ◌+ℤ◌, [], ◌∷◌, some}
use lymbo.Settings.{Settings, default_settings, normalize, with_workers}
use lymbo.Settings.Normal.{IsNormal}
use lymbo.Stats.{new_stats}
use lymbo.Tubes.{Subscriptions, is_subscribed_to}
use lymbo.Kharon.{Kharon}
use lymbo.Memory.{Store}
use lymbo.Memory.Invariant.{Inv}
use lymbo.Poller.{poll_round, backs_off}
use lymbo.Poller.Rounds.{memory_poll_ops}
use lymbo.Start.{Made, times64, new_kharon}
use lymbo.Start.Ready.{polls_tube, new_kharon_lem}
use lymbo.Tests.Fixtures.{floats, sort_slice, sort_slice-IsSortSlice, in_order, in_order-perm, two}

abbrev given : Settings
given = record (with_workers (pos 0) default_settings) { tubes = "mail" ∷ [] }

new_kharon_lem_example :
    (m : Made Store) × (new_kharon floats (leb_ℤ (pos 0)) (leb_ℤ (pos 0)) (some two) (some given)
      ≡ some m)
    × (m.kharon ≡ record { store = two; stats = new_stats; outcome = [] })
    × IsNormal floats m.settings
    × ((tube : String) → is_subscribed_to tube m.subscriptions ≡ polls_tube tube given)
    × ((now d : ℤ) (before after : Subscriptions) (slowdown : ℕ) (k : Kharon Store)
        → Inv k.store
        → (poll_round
            (memory_poll_ops floats sort_slice in_order now)
            m.settings
            now
            before
            after
            slowdown
            k).1
          ≢ backs_off d)
unfolding normalize times64 add64 ◌+ℤ◌ with_workers
new_kharon_lem_example =
    new_kharon_lem floats sort_slice in_order sort_slice-IsSortSlice in_order-perm (leb_ℤ (pos 0))
      (leb_ℤ (pos 0)) two (some given) refl refl
