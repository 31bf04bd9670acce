-- ===== src/Kharon.antt =====
-- kharon.go, observable.go and group.go: the calls on tickets that a Kharon offers.
-- A Kharon keeps its store, its statistics and the channel `outcome`, from which a pusher takes
-- messages in order; a send on a full channel waits, which the model leaves out. A call takes the
-- reading of the clock that it makes.
pub mod Calls
pub mod Saving
pub mod Observed
pub mod Groups
pub mod Payloads
use lymbo.Base.{
  ℕ, String, ℤ, pos, ◌+ℤ◌, leb_ℤ, List, [], ◌∷◌, ◌++◌, Option, none, some, Bool, true, false, ◌==◌,
  ◌&&◌, if◌then◌else◌, or_else, over, nat_eq,
}
use lymbo.Errors.{Result, ok, err, finalizer_in_group, ◌>>=◌}
use lymbo.Status.{Status, pending, done, failed, cancelled}
use lymbo.Ticket.{Floats, Ticket, UpdateSet, DelayBackoff, TransitionInfo, backoff}
use lymbo.Options.{
  DelayStrategy, unset, fixed, exponential, fixed_delay, infinity_delay, Opts, OptsOption, no_opts,
  to_opts,
}
use lymbo.Stats.{Metric, Key, Stats, by_key_inc}

-- The operations of a store that the calls use.
pub record StoreOps (S : Type 0) : Type 0 where
  pub put : Ticket → S → S × Result (Unit {0})
  pub put_after_group : Ticket → String → S → S × Result (Unit {0})
  pub get : String → S → Result Ticket
  pub delete : String → S → S × Result (Unit {0})
  pub update : String → (Ticket → Result Ticket) → S → S × Result (Unit {0})
  pub count_pending_in_group : String → S → Result ℕ
  pub expire_tickets : ℤ → ℤ → S → S × Result (List TransitionInfo)

-- An update set in the channel `none` asks for a deletion.
pub record Msg : Type 0 where
  pub tid : String
  pub upd : Option UpdateSet
  pub intent : Metric

pub record Kharon (S : Type 0) : Type 0 where
  pub store : S
  pub stats : Stats
  pub outcome : List Msg

-- The Runat that a delay sets, if it sets one.
unfoldable pub delayed : Floats → ℤ → DelayStrategy → Ticket → ℤ
delayed fl now unset t = t.runat
delayed fl now (fixed d) t = now +ℤ d
delayed fl now (exponential base max_delay jitter) t = now +ℤ backoff fl base max_delay t.attempts

-- beforeUpdate
unfoldable pub before_update : Floats → ℤ → Opts → Ticket → Result Ticket
before_update fl now o t =
    let t' = record t {
      runat = delayed fl now o.delay t;
      status = or_else o.status t.status;
      error_reason = over o.error_reason t.error_reason;
      nice = or_else o.nice t.nice;
      payload = over o.payload t.payload;
      attempts = if o.reset_attempts then pos 0 else t.attempts;
      tube = or_else o.transfer_tube t.tube;
      group_id = over o.group_id t.group_id;
    } in
    elim o.update [ none ↦ ok t' | some fn ↦ fn t' ]

-- 1.0 as a float64
abbrev pub float_one : ℕ
float_one = 0x3ff0_0000_0000_0000

unfoldable pub clamp_max_attempts : Floats → ℤ → ℕ → ℤ
clamp_max_attempts fl max_delay base =
    if fl.le base float_one
    then pos 2_147_483_647
    else if leb_ℤ max_delay (pos 0)
    then pos 0
    else fl.to_int32
        (fl.ceiling (fl.over (fl.logarithm (fl.seconds max_delay)) (fl.logarithm base)))

-- The update set of save.
unfoldable pub update_set : Floats → ℤ → String → Opts → UpdateSet
update_set fl now tid o = record {
  id = tid;
  tube = o.transfer_tube;
  group_id = o.group_id;
  status = o.status;
  nice = o.nice;
  runat = elim o.delay [ fixed d ↦ some (now +ℤ d) | _ ↦ none ];
  backoff = elim o.delay [
    | exponential base max_delay jitter ↦ some (record {
      base = base;
      jitter = jitter;
      max_delay = max_delay;
      max_attempts = clamp_max_attempts fl max_delay base;
    })
    | _ ↦ none
  ];
  payload = o.payload;
  error_reason = o.error_reason;
}

abbrev pub key_of : Ticket → Key
key_of t = record { type = t.type; tube = t.tube }

-- The loop of the observable store's ExpireTickets.
unfoldable pub count_expired : List TransitionInfo → Stats → Stats
count_expired [] st = st
count_expired (info ∷ infos) st =
    count_expired infos
      (by_key_inc (record { type = info.type; tube = info.tube }) Metric.expire st)

-- The test by which Put refuses a finalizer of its own group.
unfoldable pub is_own_finalizer : Opts → Bool
is_own_finalizer o = elim o.after_group [
  | none ↦ false
  | some a ↦ elim o.group_id [ none ↦ false | some g ↦ a == g ]
]

module _ {S : Type 0} where
  -- A send on the channel.
  unfoldable pub send : Msg → Kharon S → Kharon S × Result (Unit {0})
  send m k = (record k { outcome = k.outcome ++ m ∷ [] }, ok tt)

  -- The method `delete`, which only sends.
  unfoldable pub send_delete : String → Metric → Kharon S → Kharon S × Result (Unit {0})
  unfolding send
  send_delete tid intent k = send (record { tid = tid; upd = none; intent = intent }) k

  -- The start of every call: the options are made, or their error ends the call.
  abbrev pub configured :
      Opts
      → List OptsOption
      → (Opts → Kharon S → Kharon S × Result (Unit {0}))
      → Kharon S
      → Kharon S × Result (Unit {0})
  configured o opts go k = elim (to_opts o opts) [ err e ↦ (k, err e) | ok o' ↦ go o' k ]

  -- Put and PutAfterGroup of the observable store: a success is counted.
  unfoldable pub observed_put :
      Ticket → (S → S × Result (Unit {0})) → Kharon S → Kharon S × Result (Unit {0})
  observed_put t write k =
      let (s, r) = write k.store in
      elim r [
        | err e ↦ (record k { store = s }, err e)
        | ok u ↦ (record k { store = s; stats = by_key_inc (key_of t) Metric.add k.stats }, ok u)
      ]

module _ {S : Type 0} (ops : StoreOps S) (fl : Floats) where
  unfoldable pub save : ℤ → String → Metric → Opts → Kharon S → Kharon S × Result (Unit {0})
  unfolding send
  save now tid intent o k = elim o.update [
    | some fn ↦
        let (s, r) = ops.update tid (before_update fl now o) k.store in (record k { store = s }, r)
    | none ↦ send (record { tid = tid; upd = some (update_set fl now tid o); intent = intent }) k
  ]

  unfoldable pub ack : ℤ → String → List OptsOption → Kharon S → Kharon S × Result (Unit {0})
  unfolding save send_delete
  ack now tid opts =
      configured (record no_opts { status = some done; delay = infinity_delay }) opts
        (λ o k. if o.keep then save now tid Metric.ack o k else send_delete tid Metric.ack k)

  -- Done
  unfoldable pub finish : ℤ → String → List OptsOption → Kharon S → Kharon S × Result (Unit {0})
  unfolding save
  finish now tid opts =
      configured (record no_opts { keep = true; status = some done; delay = infinity_delay }) opts
        (save now tid Metric.done)

  unfoldable pub cancel : ℤ → String → List OptsOption → Kharon S → Kharon S × Result (Unit {0})
  unfolding save send_delete
  cancel now tid opts =
      configured (record no_opts { status = some cancelled; delay = infinity_delay }) opts
        (λ o k. if o.keep then save now tid Metric.cancel o k else send_delete tid Metric.cancel k)

  unfoldable pub fail : ℤ → String → List OptsOption → Kharon S → Kharon S × Result (Unit {0})
  unfolding save
  fail now tid opts =
      configured (record no_opts { keep = true; status = some failed; delay = infinity_delay }) opts
        (save now tid Metric.fail)

  unfoldable pub restart : ℤ → String → List OptsOption → Kharon S → Kharon S × Result (Unit {0})
  unfolding save
  restart now tid opts =
      configured
        (record no_opts {
          keep = true;
          status = some pending;
          delay = fixed_delay (pos 0);
          reset_attempts = true;
        })
        opts (save now tid Metric.add)

  unfoldable pub retry : ℤ → String → List OptsOption → Kharon S → Kharon S × Result (Unit {0})
  unfolding save
  retry now tid opts = configured (record no_opts { keep = true }) opts (save now tid Metric.retry)

  unfoldable pub put : ℤ → Ticket → List OptsOption → Kharon S → Kharon S × Result (Unit {0})
  unfolding observed_put is_own_finalizer
  put now t opts =
      configured (record no_opts { keep = true; status = some pending }) opts
        (λ o k.
          if is_own_finalizer o
          then (k, err finalizer_in_group)
          else elim (before_update fl now o t) [
            | err e ↦ (k, err e)
            | ok t' ↦ elim o.after_group [
              | some group ↦ observed_put t' (ops.put_after_group t' group) k
              | none ↦ observed_put t' (ops.put t') k
            ]
          ])

module _ {S : Type 0} (ops : StoreOps S) where
  unfoldable pub delete : String → Kharon S → Kharon S × Result (Unit {0})
  delete tid k = let (s, r) = ops.delete tid k.store in (record k { store = s }, r)

  unfoldable pub get : String → Kharon S → Result Ticket
  get tid k = ops.get tid k.store

  -- ExpireTickets of the observable store.
  unfoldable pub expire_tickets : ℤ → ℤ → Kharon S → Kharon S × Result (List TransitionInfo)
  expire_tickets limit now k =
      let (s, r) = ops.expire_tickets limit now k.store in
      elim r [
        | err e ↦ (record k { store = s }, err e)
        | ok infos ↦ (record k { store = s; stats = count_expired infos k.stats }, ok infos)
      ]

  -- PendingCount and AllTerminal of a group; on an error the source returns a value beside it.
  unfoldable pub pending_count : String → Kharon S → Result ℕ
  pending_count id k = ops.count_pending_in_group id k.store

  unfoldable pub all_terminal : String → Kharon S → Result Bool
  unfolding pending_count
  all_terminal id k = (do n ← pending_count id k; ok (nat_eq n 0))
