-- ===== src/Worker/Effects.antt =====
-- What processTicket of kharon.go counts and measures.
use lymbo.Base.{
  ◌≡◌, refl, ap, ◌∙◌, ℤ, pos, add64, Option, none, some, Bool, true, false, ◌&&◌, arith,
  if◌then◌else◌, nat_eq, Bool-cases, inl, inr, List,
}
use lymbo.Errors.{Result, ok, err}
use lymbo.Ticket.{Floats, Ticket}
use lymbo.Stats.{
  Metric, Key, same_key, same_key_iff, inc, Measurers, Stats, at, change_at, new_measurers,
  by_key_inc, observe_queue_wait, observe_process,
}
use lymbo.Stats.Counting.{counter, metric_code, at-change_at, counter-by_key_inc}
use lymbo.Stats.Histogram.{record_duration, Hist}
use lymbo.Router.{Router, handler_for}
use lymbo.Kharon.{key_of}
use lymbo.Worker.{answer, process_ticket, sub_time}

-- Whether the handler answered without an error.
abbrev pub succeeds : Option (Result (Unit {0})) → Bool
succeeds (some (ok _)) = true
succeeds _ = false

-- Whether it answered at all.
abbrev pub answers : Option (Result (Unit {0})) → Bool
answers none = false
answers (some _) = true

counter-change_at :
    (k j : Key) (b : Metric) (f : Measurers → Measurers) (st : Stats)
    → ((m : Measurers) → counter b (f m) ≡ counter b m)
    → counter b (at new_measurers j (change_at new_measurers k f st.by_key))
      ≡ counter b (at new_measurers j st.by_key)
counter-change_at k j b f st keep =
    ap (counter b) (at-change_at new_measurers k j f st.by_key) ∙ elim (Bool-cases (same_key k j)) [
      | inl e ↦ rw e (keep (at new_measurers j st.by_key))
      | inr e ↦ rw e refl
    ]

at_self :
    (k : Key) (f : Measurers → Measurers) (ms : List (Key × Measurers))
    → at new_measurers k (change_at new_measurers k f ms) ≡ f (at new_measurers k ms)
at_self k f ms = at-change_at new_measurers k k f ms ∙ rw ((same_key_iff k k).1 refl) refl

keeps_wait :
    (b : Metric) (m : Measurers) (h : Hist)
    → counter b (record m { queue_wait_duration = h }) ≡ counter b m
keeps_wait b m h = ground arith

keeps_process :
    (b : Metric) (m : Measurers) (h : Hist)
    → counter b (record m { process_duration = h }) ≡ counter b m
keeps_process b m h = ground arith

counter-observe_queue_wait :
    (fl : Floats) (k j : Key) (b : Metric) (d : ℤ) (st : Stats)
    → counter b (at new_measurers j (observe_queue_wait fl k d st).by_key)
      ≡ counter b (at new_measurers j st.by_key)
unfolding observe_queue_wait
counter-observe_queue_wait fl k j b d st =
    counter-change_at k j b _ st (λ m. keeps_wait b m (record_duration fl d m.queue_wait_duration))

counter-observe_process :
    (fl : Floats) (k j : Key) (b : Metric) (d : ℤ) (st : Stats)
    → counter b (at new_measurers j (observe_process fl k d st).by_key)
      ≡ counter b (at new_measurers j st.by_key)
unfolding observe_process
counter-observe_process fl k j b d st =
    counter-change_at k j b _ st (λ m. keeps_process b m (record_duration fl d m.process_duration))

module _ {H : Type 0} (run : H → ℤ → Ticket → Option (Result (Unit {0}))) (fl : Floats) where
  -- A worker counts a ticket as processed, for its type and tube, exactly if the handler answers
  -- without an error; it changes no other counter, also where the handler fails or panics.
  pub process_ticket-counter :
      (r : Router H) (start finish : ℤ) (t : Ticket) (st : Stats) (j : Key) (b : Metric)
      → let done = succeeds (answer run fl (handler_for t r) t) in
        counter b (at new_measurers j (process_ticket run fl r start finish t st).by_key) ≡ (
          if done && same_key (key_of t) j && nat_eq (metric_code Metric.process) (metric_code b)
          then add64 (counter b (at new_measurers j st.by_key)) (pos 1)
          else counter b (at new_measurers j st.by_key))
  unfolding process_ticket
  process_ticket-counter r start finish t st j b =
      let k = key_of t in
      let waited = observe_queue_wait fl k (sub_time start t.ready_at) st in
      let processed = observe_process fl k (sub_time finish start) waited in
      ground (
        arith,
        counter-observe_queue_wait fl k j b (sub_time start t.ready_at) st,
        counter-observe_process fl k j b (sub_time finish start) waited,
        counter-by_key_inc k j Metric.process b processed,
      )

  -- A worker measures how long each ticket has waited since it was ready, and the time that the handler
  -- took unless it panicked.
  pub process_ticket-durations :
      (r : Router H) (start finish : ℤ) (t : Ticket) (st : Stats)
      → let before = at new_measurers (key_of t) st.by_key in
        let after =
          at new_measurers (key_of t) (process_ticket run fl r start finish t st).by_key in
        (after.queue_wait_duration
          ≡ record_duration fl (sub_time start t.ready_at) before.queue_wait_duration)
        × (after.process_duration ≡ (
            if answers (answer run fl (handler_for t r) t)
            then record_duration fl (sub_time finish start) before.process_duration
            else before.process_duration))
  unfolding process_ticket observe_queue_wait observe_process by_key_inc inc
  process_ticket-durations r start finish t st = by_answer (answer run fl (handler_for t r) t)
    where
      k : Key
      k = key_of t

      wait : Measurers → Measurers
      wait m = record m {
        queue_wait_duration = record_duration fl (sub_time start t.ready_at) m.queue_wait_duration;
      }

      time : Measurers → Measurers
      time m = record m {
        process_duration = record_duration fl (sub_time finish start) m.process_duration;
      }

      waited :
          at new_measurers k (change_at new_measurers k wait st.by_key)
          ≡ wait (at new_measurers k st.by_key)
      waited = at_self k wait st.by_key

      timed :
          at new_measurers k
            (change_at new_measurers k time (change_at new_measurers k wait st.by_key))
          ≡ time (wait (at new_measurers k st.by_key))
      timed = at_self k time (change_at new_measurers k wait st.by_key) ∙ ap time waited

      by_answer :
          (o : Option (Result (Unit {0})))
          → let before = at new_measurers k st.by_key in
            let st' = elim o as (λ _. Stats) [
              | none ↦ observe_queue_wait fl k (sub_time start t.ready_at) st
              | some (err _) ↦
                  observe_process fl k
                    (sub_time finish start)
                    (observe_queue_wait fl k (sub_time start t.ready_at) st)
              | some (ok _) ↦ by_key_inc k Metric.process (
                  observe_process fl k
                    (sub_time finish start)
                    (observe_queue_wait fl k (sub_time start t.ready_at) st))
            ] in
            let after = at new_measurers k st'.by_key in
            (after.queue_wait_duration ≡ (wait before).queue_wait_duration)
            × (after.process_duration
                ≡ (if answers o then (time before).process_duration else before.process_duration))
      by_answer none = (ap (λ m. m.queue_wait_duration) waited, ap (λ m. m.process_duration) waited)
      by_answer (some (err e)) =
          (ap (λ m. m.queue_wait_duration) timed, ap (λ m. m.process_duration) timed)
      by_answer (some (ok u)) =
          let counted =
            at_self k (inc Metric.process)
              (change_at new_measurers k time (change_at new_measurers k wait st.by_key)) in
          (
            ap (λ m. m.queue_wait_duration) counted ∙ ap (λ m. m.queue_wait_duration) timed,
            ap (λ m. m.process_duration) counted ∙ ap (λ m. m.process_duration) timed,
          )
