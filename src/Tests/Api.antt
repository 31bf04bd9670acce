-- ===== src/Tests/Api.antt =====
-- Runs of the calls of a Kharon over the in-memory store.
use lymbo.Base.{
  ℕ, ◌≡◌, ◌≢◌, ◌++◌, eq_iff, lookup, false, refl, pos, [], ◌∷◌, none, some, true, arith,
}
use lymbo.Errors.{Error, ok, err}
use lymbo.Status.{pending}
use lymbo.Ticket.{Floats, Ticket}
use lymbo.Ticket.Setters.{set_payload}
use lymbo.Marshal.{Dynamic, run_payload, to_default_payload_marshaller}
use lymbo.Kharon.Payloads.{payload_option, payload_lost}
use lymbo.Options.{Opts, no_opts, to_opts, with_nice, backoff_delay}
use lymbo.Stats.{Stats}
use lymbo.Memory.{Store, update_one}
use lymbo.Kharon as Api
use lymbo.Kharon.{Kharon, Msg, before_update, update_set, is_own_finalizer, delayed, key_of}
use lymbo.Kharon.Calls.{Action, start_of}
use lymbo.Kharon.Saving.{IsDuration, before_update-update_set}
use lymbo.Kharon.Groups.{memory_ops}
use lymbo.Tests.Fixtures.{floats, in_order, ticket, member, two}

abbrev no_stats : Stats
no_stats = record { running_workers = pos 0; by_key = [] }

abbrev client : Kharon Store
client = record { store = two; stats = no_stats; outcome = [] }

-- A floating point whose durations are all a second.
abbrev seconds_only : Floats
seconds_only = record floats { to_duration = λ x. pos 1_000_000_000 }

seconds_only-IsDuration : IsDuration seconds_only
seconds_only-IsDuration x = (omega arith, omega arith)

abbrev backing_off : Opts
backing_off = record (start_of Action.retry) { delay = backoff_delay 2 (pos 4) (pos 0) }

before_update-update_set_example :
    before_update seconds_only (pos 10) backing_off member
    ≡ ok
        (update_one seconds_only (pos 10) member (update_set seconds_only (pos 10) "m" backing_off))
before_update-update_set_example =
    before_update-update_set seconds_only (pos 10) "m" backing_off member seconds_only-IsDuration
      refl refl refl

-- Another ticket.
abbrev other : Ticket
other = ticket "n" none (pos 6)

-- A value that only json.Marshal knows, and that it refuses.
abbrev dynamic : Dynamic ℕ
dynamic = record {
  is_payload_marshaler = λ v. false;
  is_error_marshaler = λ v. false;
  is_json_marshaler = λ v. false;
  marshal_payload = λ v. (none, none);
  marshal_error = λ v. (none, none);
  marshal_json = λ v. (none, none);
  json_marshal = λ v. (none, some (Error.other "unsupported type"));
}

not_empty : other.id ≢ ""
not_empty h = ground (arith, eq_iff "n" "")

payload_lost_example :
    let (k', r) =
      Api.put (memory_ops in_order) floats (pos 10) (set_payload dynamic 4 other) [] client in
    (Api.put
        (memory_ops in_order)
        floats
        (pos 10)
        other
        (with_nice (pos 7) ∷ [] ++ payload_option dynamic 4 ∷ [])
        client
      ≡ (client, err (Error.other "unsupported type")))
    × (r ≡ ok tt)
    × (lookup "n" k'.store.entries ≡ some (record other { payload = none; status = pending }))
unfolding run_payload to_default_payload_marshaller to_opts with_nice
payload_lost_example =
    payload_lost dynamic 4 none (Error.other "unsupported type") refl in_order floats (pos 10) other
      (with_nice (pos 7) ∷ []) []
      (record no_opts { keep = true; status = some pending; nice = some (pos 7) }) client refl
      not_empty
