-- ===== src/Options.antt =====
-- options.go and toOpts of kharon.go: the options of the calls on tickets.
-- An option changes the options it is given or fails; what it marshals comes as the result of the
-- marshaller, and a nil slice is `none`.
use lymbo.Base.{
  ℕ, ◌*◌, String, ℤ, pos, List, [], ◌∷◌, Option, none, some, Bool, true, false, ◌==◌, if◌then◌else◌,
}
use lymbo.Errors.{Result, ok, err, tube_empty, ◌>>=◌}
use lymbo.Status.{Status}
use lymbo.Ticket.{Ticket}

-- A DelayStrategy holds a struct for its kind of delay.
pub data DelayStrategy : Type 0 where
  unset : DelayStrategy
  fixed : ℤ → DelayStrategy
  exponential : ℕ → ℤ → ℤ → DelayStrategy  -- base, maxDelay, jitter

abbrev pub fixed_delay : ℤ → DelayStrategy
fixed_delay = fixed

abbrev pub backoff_delay : ℕ → ℤ → ℤ → DelayStrategy
backoff_delay = exponential

-- InfinityDelay: a hundred years
abbrev pub infinity_delay : DelayStrategy
infinity_delay = fixed_delay (pos (100 * 365 * 24 * 3600 * 1_000_000_000))

pub record Opts : Type 0 where
  pub delay : DelayStrategy
  pub status : Option Status
  pub keep : Bool
  pub error_reason : Option (List ℕ)
  pub nice : Option ℤ
  pub payload : Option (List ℕ)
  pub reset_attempts : Bool
  pub transfer_tube : Option String
  pub group_id : Option String
  pub after_group : Option String
  pub update : Option (Ticket → Result Ticket)

-- &Opts{}
abbrev pub no_opts : Opts
no_opts = record {
  delay = unset;
  status = none;
  keep = false;
  error_reason = none;
  nice = none;
  payload = none;
  reset_attempts = false;
  transfer_tube = none;
  group_id = none;
  after_group = none;
  update = none;
}

-- The type Option of the source.
abbrev pub OptsOption : Type 0
OptsOption = Opts → Result Opts

unfoldable pub with_keep : OptsOption
with_keep o = ok (record o { keep = true })

unfoldable pub with_reset_attempts : OptsOption
with_reset_attempts o = ok (record o { reset_attempts = true })

unfoldable pub with_error_reason : Result (Option (List ℕ)) → OptsOption
with_error_reason (ok v) o = ok (record o { error_reason = v })
with_error_reason (err e) o = err e

unfoldable pub with_delay : DelayStrategy → OptsOption
with_delay d o = ok (record o { delay = d })

unfoldable pub with_nice : ℤ → OptsOption
with_nice n o = ok (record o { nice = some n })

unfoldable pub with_update : (Ticket → Result Ticket) → OptsOption
with_update fn o = ok (record o { update = some fn })

unfoldable pub with_payload : Result (Option (List ℕ)) → OptsOption
with_payload (ok v) o = ok (record o { payload = v })
with_payload (err e) o = err e

unfoldable pub with_group : String → OptsOption
with_group group o = ok (record o { group_id = some group })

unfoldable pub after_group : String → OptsOption
after_group group o = ok (record o { after_group = some group })

unfoldable pub with_tube : String → OptsOption
with_tube tube o =
    if tube == "" then err tube_empty else ok (record o { transfer_tube = some tube })

-- toOpts
unfoldable pub to_opts : Opts → List OptsOption → Result Opts
to_opts o [] = ok o
to_opts o (opt ∷ opts) = (do o' ← opt o; to_opts o' opts)
