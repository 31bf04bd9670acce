-- ===== src/Ticket.antt =====
-- ticket.go and the data of store.go: tickets, and what the stores take and return.
-- Times are nanoseconds since the epoch and durations are nanoseconds, both as integers; a time is
-- not bounded, a duration is an int64. A float64 is its bit pattern, and `Floats` holds the
-- operations of Go's floating point and of the package math, which stay abstract.
-- A JSON text is a list of bytes, and a nil pointer or slice is `none`.
pub mod Setters
use lymbo.Base.{Bool, ℕ, String, ℤ, pos, negsuc, ◌-◌, ◌*◌, List, Option, none, ◌==◌, if◌then◌else◌}
use lymbo.Errors.{Result, ok, err, tid_empty, type_empty, tube_empty, ◌>>=◌}
use lymbo.Status.{Status, pending}

pub record Floats : Type 0 where
  pub power : ℕ → ℕ → ℕ  -- math.Pow
  pub minimum : ℕ → ℕ → ℕ  -- min
  pub times : ℕ → ℕ → ℕ  -- x * y
  pub of_int : ℤ → ℕ  -- float64(n)
  pub over : ℕ → ℕ → ℕ  -- x / y
  pub logarithm : ℕ → ℕ  -- math.Log
  pub ceiling : ℕ → ℕ  -- math.Ceil
  pub le : ℕ → ℕ → Bool  -- x <= y
  pub lt : ℕ → ℕ → Bool  -- x < y
  pub eq : ℕ → ℕ → Bool  -- x == y
  pub plus : ℕ → ℕ → ℕ  -- x + y
  pub minus : ℕ → ℕ → ℕ  -- x - y
  pub exponential2 : ℕ → ℕ  -- math.Exp2
  pub floor : ℕ → ℕ  -- math.Floor
  pub logarithm2 : ℕ → ℕ  -- math.Log2
  pub to_int32 : ℕ → ℤ  -- int32(x)
  pub to_duration : ℕ → ℤ  -- time.Duration(x)
  pub seconds : ℤ → ℕ  -- d.Seconds()

abbrev pub second : ℤ
second = pos 1_000_000_000

-- min(math.Pow(base, float64(attempts)), maxDelay.Seconds()), as a duration
unfoldable pub backoff : Floats → ℕ → ℤ → ℤ → ℤ
backoff fl base max_delay attempts = fl.to_duration (
    fl.times (fl.minimum (fl.power base (fl.of_int attempts)) (fl.seconds max_delay))
      (fl.of_int second))

pub record Ticket : Type 0 where
  pub id : String
  pub status : Status
  pub tube : String
  pub group_id : Option String
  pub runat : ℤ
  pub nice : ℤ
  pub type : String
  pub ctime : ℤ
  pub mtime : Option ℤ
  pub attempts : ℤ
  pub payload : Option (List ℕ)
  pub error_reason : Option (List ℕ)
  pub ready_at : ℤ

-- The zero value of time.Time: the start of year 1.
abbrev pub zero_time : ℤ
zero_time = negsuc (62_135_596_800 * 1_000_000_000 - 1)

abbrev pub default_nice : ℤ
default_nice = pos 512

abbrev pub default_tube : String
default_tube = "default"

-- NewTicket, with the reading of the clock.
unfoldable pub new_ticket : ℤ → String → String → Result Ticket
new_ticket now tid typ =
    if tid == ""
    then err tid_empty
    else if typ == ""
    then err type_empty
    else ok (record {
      id = tid;
      status = pending;
      tube = default_tube;
      group_id = none;
      runat = now;
      nice = default_nice;
      type = typ;
      ctime = now;
      mtime = none;
      attempts = pos 0;
      payload = none;
      error_reason = none;
      ready_at = zero_time;
    })

-- NewTubeTicket
unfoldable pub new_tube_ticket : ℤ → String → String → String → Result Ticket
unfolding new_ticket
new_tube_ticket now tube tid typ =
    if tube == ""
    then err tube_empty
    else (do t ← new_ticket now tid typ; ok (record t { tube = tube }))

pub record DelayBackoff : Type 0 where
  pub base : ℕ
  pub jitter : ℤ
  pub max_delay : ℤ
  pub max_attempts : ℤ

pub record UpdateSet : Type 0 where
  pub id : String
  pub tube : Option String
  pub group_id : Option String
  pub status : Option Status
  pub nice : Option ℤ
  pub runat : Option ℤ
  pub backoff : Option DelayBackoff
  pub payload : Option (List ℕ)
  pub error_reason : Option (List ℕ)

pub record PollRequest : Type 0 where
  pub limit : ℤ
  pub now : ℤ
  pub ttr : ℤ
  pub backoff_base : ℕ
  pub max_backoff_delay : ℤ
  pub request_tubes : List String

pub record TransitionInfo : Type 0 where
  pub id : String
  pub type : String
  pub tube : String
  pub status : Status

-- The info of a ticket that an operation has touched.
abbrev pub info_of : Ticket → TransitionInfo
info_of t = record { id = t.id; type = t.type; tube = t.tube; status = t.status }
