-- ===== src/Start/Ready.antt =====
-- What a Kharon that NewKharon of kharon.go returns is ready for.
use lymbo.Base.{
  ℕ, String, ◌≡◌, ◌≢◌, refl, ℤ, List, [], Option, some, Bool, true, false, ◌&&◌, not, arith, ◌==◌,
  if◌then◌else◌, or_else, contains, is_empty, Perm,
}
use lymbo.Ticket.{Floats, Ticket, default_tube}
use lymbo.Settings.{Settings, default_settings, normalize, float_zero, default_backoff_base}
use lymbo.Settings.Normal.{IsNormal, normalize-IsNormal}
use lymbo.Stats.{new_stats}
use lymbo.Tubes.{Subscriptions, is_subscribed_to}
use lymbo.Kharon.{Kharon}
use lymbo.Memory.{Store, Tickets}
use lymbo.Memory.Invariant.{Inv}
use lymbo.Memory.Sorted.{IsSortSlice}
use lymbo.Poller.{poll_round, backs_off}
use lymbo.Poller.Rounds.{memory_poll_ops, poll_round_succeeds}
use lymbo.Start.{Made, made_of, times64, new_kharon}

-- Which tubes settings stand for, before they are normalised.
abbrev pub polls_tube : String → Settings → Bool
polls_tube tube s =
    if is_empty s.tubes && not s.tubes_on then tube == default_tube else contains tube s.tubes

subscribed_lem :
    (fl : Floats) (tube : String) (s : Settings)
    → let n = normalize fl s in
      is_subscribed_to tube (record { tubes = n.tubes; tubeson = n.tubes_on }) ≡ polls_tube tube s
unfolding normalize is_subscribed_to
subscribed_lem fl tube s = ground arith

module _ (fl : Floats) (sort_slice : (Ticket → Ticket → Bool) → List Ticket → List Ticket)
    (range : Tickets → Tickets) (sorting : IsSortSlice sort_slice)
    (shuffle : (m : Tickets) → Perm (range m) m) where
  -- Where 1.5 is not at most 0, and the channels can be made with the sizes that the settings ask for:
  -- NewKharon with a store, and with any settings or none, returns a Kharon that keeps the store and
  -- has no message and no statistics. Its settings are normal, it is subscribed to exactly the tubes that the given settings name, or to the
  -- default tube where they name none and do not enable tubes, and no round of its poller over an
  -- in-memory store with the invariant backs off.
  pub new_kharon_lem :
      (income_fits outcome_fits : ℤ → Bool) (store : Store) (given : Option Settings)
      → fl.le default_backoff_base float_zero ≡ false
      → (let w = (normalize fl (or_else given default_settings)).workers in
          (income_fits w && outcome_fits (times64 10 w)) ≡ true)
      → (m : Made Store) × (new_kharon fl income_fits outcome_fits (some store) given ≡ some m)
        × (m.kharon ≡ record { store = store; stats = new_stats; outcome = [] })
        × IsNormal fl m.settings
        × ((tube : String)
            → is_subscribed_to tube m.subscriptions
              ≡ polls_tube tube (or_else given default_settings))
        × ((now d : ℤ) (before after : Subscriptions) (slowdown : ℕ) (k : Kharon Store)
            → Inv k.store
            → (poll_round
                (memory_poll_ops fl sort_slice range now)
                m.settings
                now
                before
                after
                slowdown
                k).1
              ≢ backs_off d)
  unfolding new_kharon
  new_kharon_lem income_fits outcome_fits store given sane fit =
      let s = or_else given default_settings in
      let normal = normalize-IsNormal fl s sane in
      (
        made_of store (normalize fl s),
        rw fit refl,
        refl,
        normal,
        λ tube. subscribed_lem fl tube s,
        λ now d before after slowdown k v.
            poll_round_succeeds fl sort_slice range sorting shuffle now (normalize fl s) now before
              after slowdown k d normal v,
      )
