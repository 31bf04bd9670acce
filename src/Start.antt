-- ===== src/Start.antt =====
-- NewKharon and ResetStats of kharon.go: what a Kharon starts with.
-- The logger is left out. NewKharon writes the defaults also into the settings that it is given.
pub mod Ready
use lymbo.Base.{
  ℕ, zero, suc, ℤ, pos, add64, [], Option, none, some, Bool, ◌&&◌, if◌then◌else◌, or_else,
}
use lymbo.Ticket.{Floats}
use lymbo.Settings.{Settings, default_settings, normalize}
use lymbo.Stats.{new_stats, reset}
use lymbo.Tubes.{Subscriptions}
use lymbo.Kharon.{Kharon}

-- The Kharon with the fields that its goroutines only read, its subscriptions, and the sizes of its
-- two channels.
pub record Made (S : Type 0) : Type 0 where
  pub kharon : Kharon S
  pub settings : Settings
  pub subscriptions : Subscriptions
  pub income_size : ℤ
  pub outcome_size : ℤ

-- The product of a constant and an int, which wraps around.
unfoldable pub times64 : ℕ → ℤ → ℤ
times64 zero a = pos 0
times64 (suc n) a = add64 a (times64 n a)

-- The Kharon over a store with normalised settings.
abbrev pub made_of : {S : Type 0} → S → Settings → Made S
made_of store s = record {
  kharon = record { store = store; stats = new_stats; outcome = [] };
  settings = s;
  subscriptions = record { tubes = s.tubes; tubeson = s.tubes_on };
  income_size = s.workers;
  outcome_size = times64 10 s.workers;
}

-- NewKharon, where `income_fits` and `outcome_fits` tell the sizes with which the runtime makes the
-- channels; a panic is `none`.
unfoldable pub new_kharon :
    {S : Type 0} → Floats → (ℤ → Bool) → (ℤ → Bool) → Option S → Option Settings → Option (Made S)
new_kharon fl income_fits outcome_fits none given = none
new_kharon fl income_fits outcome_fits (some store) given =
    let m = made_of store (normalize fl (or_else given default_settings)) in
    if income_fits m.income_size && outcome_fits m.outcome_size then some m else none

-- ResetStats
unfoldable pub reset_stats : {S : Type 0} → Kharon S → Kharon S
reset_stats k = record k { stats = reset k.stats }
