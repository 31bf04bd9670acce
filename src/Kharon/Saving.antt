-- ===== src/Kharon/Saving.antt =====
-- The two ways on which kharon.go changes a stored ticket: beforeUpdate inside of the store's
-- Update, and an update set that the store's UpdateBatch applies later, as updateOne of
-- store/memory/memory.go does.
use lymbo.Base.{
  ℕ, ◌-◌, ◌^◌, String, ◌≡◌, refl, ◌∙◌, ℤ, pos, negsuc, ◌≤ℤ◌, ◌+ℤ◌, +ℤ_parts, add64, add64-+ℤ,
  eq_of_parts, none, true, false, arith,
}
use lymbo.Errors.{ok}
use lymbo.Ticket.{Floats, Ticket, backoff}
use lymbo.Options.{DelayStrategy, unset, fixed, exponential, Opts}
use lymbo.Memory.{runat_after, update_one}
use lymbo.Kharon.{delayed, before_update, update_set}

-- The jitter of a delay; only a backoff has one.
abbrev pub jitter_of : DelayStrategy → ℤ
jitter_of (exponential base max_delay jitter) = jitter
jitter_of _ = pos 0

-- Conversions to time.Duration give an int64.
abbrev pub IsDuration : Floats → Type 0
IsDuration fl =
    (x : ℕ) → (negsuc (2 ^ 63 - 1) ≤ℤ fl.to_duration x) × (fl.to_duration x ≤ℤ pos (2 ^ 63 - 1))

add_zero : (a : ℤ) → a +ℤ pos 0 ≡ a
add_zero a = ground (arith, +ℤ_parts a (pos 0), eq_of_parts (a +ℤ pos 0) a)

backoff-add64 :
    (fl : Floats) (base : ℕ) (max_delay attempts : ℤ)
    → IsDuration fl
    → add64 (backoff fl base max_delay attempts) (pos 0) ≡ backoff fl base max_delay attempts
unfolding backoff
backoff-add64 fl base max_delay attempts durations =
    let d = backoff fl base max_delay attempts in
    add64-+ℤ d (pos 0) (rw (add_zero d) (durations _).0) (rw (add_zero d) (durations _).1)
    ∙ add_zero d

runat_agrees :
    (fl : Floats) (now : ℤ) (tid : String) (t : Ticket) (o : Opts) (d : DelayStrategy)
    → IsDuration fl
    → o.delay ≡ d
    → jitter_of d ≡ pos 0
    → delayed fl now d t ≡ runat_after fl now t (update_set fl now tid o)
unfolding delayed update_set runat_after
runat_agrees fl now tid t o unset durations e j = ground arith
runat_agrees fl now tid t o (fixed d) durations e j = ground arith
runat_agrees fl now tid t o (exponential base max_delay jitter) durations e j =
    ground (arith, backoff-add64 fl base max_delay t.attempts durations)

-- Where conversions to durations give an int64, and the options have no update function, do not
-- reset the attempts and have no jitter, the two ways make the same ticket of a ticket, if they
-- read the same time.
pub before_update-update_set :
    (fl : Floats) (now : ℤ) (tid : String) (o : Opts) (t : Ticket)
    → IsDuration fl
    → o.update ≡ none
    → o.reset_attempts ≡ false
    → jitter_of o.delay ≡ pos 0
    → before_update fl now o t ≡ ok (update_one fl now t (update_set fl now tid o))
unfolding before_update update_one update_set
before_update-update_set fl now tid o t durations plain keep steady =
    rw (plain, keep, runat_agrees fl now tid t o o.delay durations refl steady, update_set) refl

-- Where the options have no update function and reset the attempts, beforeUpdate makes them zero,
-- but the update set leaves the attempts of the ticket as they are.
pub attempts_reset :
    (fl : Floats) (now : ℤ) (tid : String) (o : Opts) (t t' : Ticket)
    → o.update ≡ none
    → o.reset_attempts ≡ true
    → before_update fl now o t ≡ ok t'
    → (t'.attempts ≡ pos 0)
      × ((update_one fl now t (update_set fl now tid o)).attempts ≡ t.attempts)
unfolding before_update update_one
attempts_reset fl now tid o t t' plain reset h = (ground arith, refl)
