-- ===== src/Lifecycle/Shutdown/Handing.antt =====
-- What has been handed to the store when Run of kharon.go returns.
use lymbo.Base.{
  some, refl, String, ◌==◌, count, ℕ, ◌≡◌, ◌≢◌, sym, ap, ◌∙◌, List, [], ◌∷◌, ◌++◌, Bool, true,
  false, arith,
}
use mathlib.Core.List.{append_assoc}
use lymbo.Ticket.{UpdateSet}
use lymbo.Kharon.{Kharon}
use lymbo.Pusher.{BatchOps, Flush, Pusher, do_deletes, do_updates}
use lymbo.Pusher.Logged.{Logged, logged}
use lymbo.Pusher.Held.{
  is_deletion_of, is_update_with, in_flights, total_dels, total_upds, Step, Step-dels, Step-upds,
  receive-dels, receive-upds,
}
use lymbo.Lifecycle.Shutdown.{PusherPc, looping, System, is_ended, may_return, with_channel, Steps}
use lymbo.Lifecycle.Shutdown.Channel.{lands_outcome, flush_outcome, receive_outcome, flush_batch}

module _ {S : Type 0} (ops : BatchOps S) (capacity room : ℕ) where
  -- What was handed over and what is held, over the end of a flush in one step.
  lands-dels :
      (tid : String) (p : Pusher (Logged S)) (before after : List Flush) (f : Flush)
      (k : Kharon (Logged S))
      → p.flights ≡ before ++ f ∷ after
      → do_updates (logged ops) f.upds (do_deletes (logged ops) f.dels p.kharon) ≡ some k
      → total_dels tid (record p { flights = before ++ after; kharon = k }) ≡ total_dels tid p
  lands-dels tid p before after f k e done =
      let f' = record f { dels = [] } in
      let middle = record p {
        flights = before ++ f' ∷ after;
        kharon = do_deletes (logged ops) f.dels p.kharon;
      } in
      Step-dels ops tid (Step.updated middle before after f' k refl refl done)
      ∙ Step-dels ops tid (Step.deleted p before after f e)

  lands-upds :
      (q : UpdateSet → Bool) (p : Pusher (Logged S)) (before after : List Flush) (f : Flush)
      (k : Kharon (Logged S))
      → p.flights ≡ before ++ f ∷ after
      → do_updates (logged ops) f.upds (do_deletes (logged ops) f.dels p.kharon) ≡ some k
      → total_upds q (record p { flights = before ++ after; kharon = k }) ≡ total_upds q p
  lands-upds q p before after f k e done =
      let f' = record f { dels = [] } in
      let middle = record p {
        flights = before ++ f' ∷ after;
        kharon = do_deletes (logged ops) f.dels p.kharon;
      } in
      Step-upds ops q (Step.updated middle before after f' k refl refl done)
      ∙ Step-upds ops q (Step.deleted p before after f e)

  abbrev is_looping : PusherPc → Bool
  is_looping looping = true
  is_looping _ = false

  -- Where the messages are that were sent, and what the pusher holds.
  record Kept (s : System (Logged S)) : Type 0 where
    passed : s.sent ≡ s.taken ++ s.pusher.kharon.outcome
    drained : is_looping s.pushing ≡ false → s.pusher.batch ≡ []
    landed : is_ended s.pushing ≡ true → s.pusher.flights ≡ []
    dels : (tid : String) → count (is_deletion_of tid) s.taken ≡ total_dels tid s.pusher
    upds : (q : UpdateSet → Bool) → count (is_update_with q) s.taken ≡ total_upds q s.pusher

  has_flight : (before after : List Flush) (f : Flush) → before ++ f ∷ after ≢ []
  has_flight [] after f h = cc
  has_flight (g ∷ before) after f h = cc

  steps-Kept :
      {start s : System (Logged S)}
      → start.pushing ≡ looping
      → start.sent ≡ start.taken ++ start.pusher.kharon.outcome
      → ((tid : String) → count (is_deletion_of tid) start.taken ≡ total_dels tid start.pusher)
      → ((q : UpdateSet → Bool) → count (is_update_with q) start.taken ≡ total_upds q start.pusher)
      → Steps (logged ops) capacity room start s
      → Kept s
  steps-Kept loops same fd fu Steps.none_yet = record {
    passed = same;
    drained = λ h. absurd (ground (arith, loops));
    landed = λ h. absurd (ground (arith, loops));
    dels = fd;
    upds = fu;
  }
  steps-Kept loops same fd fu (Steps.cancels r) =
      let c = steps-Kept loops same fd fu r in
      record {
        passed = c.passed;
        drained = c.drained;
        landed = c.landed;
        dels = c.dels;
        upds = c.upds;
      }
  steps-Kept loops same fd fu (Steps.handles j ns r at) =
      let c = steps-Kept loops same fd fu r in
      record {
        passed = c.passed;
        drained = c.drained;
        landed = c.landed;
        dels = c.dels;
        upds = c.upds;
      }
  steps-Kept loops same fd fu (Steps.sends {s = s} j n ns r at fits) =
      let c = steps-Kept loops same fd fu r in
      record {
        passed =
            ap (λ xs. xs ++ n ∷ []) c.passed
            ∙ append_assoc s.taken s.pusher.kharon.outcome (n ∷ []);
        drained = c.drained;
        landed = c.landed;
        dels = c.dels;
        upds = c.upds;
      }
  steps-Kept loops same fd fu (Steps.returns j r at) =
      let c = steps-Kept loops same fd fu r in
      record {
        passed = c.passed;
        drained = c.drained;
        landed = c.landed;
        dels = c.dels;
        upds = c.upds;
      }
  steps-Kept loops same fd fu (Steps.leaves j r at done) =
      let c = steps-Kept loops same fd fu r in
      record {
        passed = c.passed;
        drained = c.drained;
        landed = c.landed;
        dels = c.dels;
        upds = c.upds;
      }
  steps-Kept loops same fd fu (Steps.takes {s = s} n rest r now e) =
      let c = steps-Kept loops same fd fu r in
      record {
        passed =
            c.passed
            ∙ ap (λ xs. s.taken ++ xs) e
            ∙ sym (append_assoc s.taken (n ∷ []) rest)
            ∙ ap (λ xs. (s.taken ++ n ∷ []) ++ xs)
                (sym (receive_outcome room n (with_channel rest s.pusher)));
        drained = λ h. absurd (ground (arith, now));
        landed = λ h. absurd (ground (arith, now));
        dels = λ tid. receive-dels room n s.taken (with_channel rest s.pusher) tid (c.dels tid);
        upds = λ q. receive-upds room n s.taken (with_channel rest s.pusher) q (c.upds q);
      }
  steps-Kept loops same fd fu (Steps.ticks {s = s} r now) =
      let c = steps-Kept loops same fd fu r in
      record {
        passed = c.passed ∙ ap (λ xs. s.taken ++ xs) (sym (flush_outcome s.pusher));
        drained = λ h. absurd (ground (arith, now));
        landed = λ h. absurd (ground (arith, now));
        dels = λ tid. c.dels tid ∙ sym (Step-dels ops tid (Step.ticked s.pusher));
        upds = λ q. c.upds q ∙ sym (Step-upds ops q (Step.ticked s.pusher));
      }
  steps-Kept loops same fd fu (Steps.lands {s = s} before after f k r e done) =
      let c = steps-Kept loops same fd fu r in
      record {
        passed =
            c.passed
            ∙ ap (λ xs. s.taken ++ xs) (sym (lands_outcome (logged ops) f s.pusher.kharon k done));
        drained = c.drained;
        landed = λ h. absurd (has_flight before after f (sym e ∙ c.landed h));
        dels = λ tid. c.dels tid ∙ sym (lands-dels tid s.pusher before after f k e done);
        upds = λ q. c.upds q ∙ sym (lands-upds q s.pusher before after f k e done);
      }
  steps-Kept loops same fd fu (Steps.drains {s = s} r now done) =
      let c = steps-Kept loops same fd fu r in
      record {
        passed = c.passed ∙ ap (λ xs. s.taken ++ xs) (sym (flush_outcome s.pusher));
        drained = λ h. flush_batch s.pusher;
        landed = λ h. cc;
        dels = λ tid. c.dels tid ∙ sym (Step-dels ops tid (Step.ticked s.pusher));
        upds = λ q. c.upds q ∙ sym (Step-upds ops q (Step.ticked s.pusher));
      }
  steps-Kept loops same fd fu (Steps.ends {s = s} r now none_left) =
      let c = steps-Kept loops same fd fu r in
      record {
        passed = c.passed;
        drained = λ h. c.drained (ground (arith, now));
        landed = λ h. none_left;
        dels = c.dels;
        upds = c.upds;
      }

  -- Over a store that logs the calls of the pusher, from a start at which nothing has been sent, taken
  -- or handed over: when Run may return, DeleteBatch has been called once with each deletion that the pusher
  -- took, and UpdateBatch once with each update set, and neither with anything else; and the messages
  -- that were sent but not taken stand in the channel, in their order.
  pub returned_handed :
      {start s : System (Logged S)}
      → start.pushing ≡ looping
      → (start.sent ≡ []) × (start.taken ≡ []) × (start.pusher.kharon.outcome ≡ [])
      → (start.pusher.batch ≡ []) × (start.pusher.flights ≡ [])
      → (start.pusher.kharon.store.deleted ≡ []) × (start.pusher.kharon.store.updated ≡ [])
      → Steps (logged ops) capacity room start s
      → may_return s ≡ true
      → ((tid : String)
          → count (is_deletion_of tid) s.taken
            ≡ count (λ d. d == tid) s.pusher.kharon.store.deleted)
        × ((q : UpdateSet → Bool)
            → count (is_update_with q) s.taken ≡ count q s.pusher.kharon.store.updated)
        × (s.sent ≡ s.taken ++ s.pusher.kharon.outcome)
  unfolding may_return count in_flights
  returned_handed loops unsent idle unlogged r h =
      let c =
        steps-Kept loops (rw (unsent.0, unsent.1, unsent.2) refl)
          (λ tid. rw (unsent.1, idle.0, idle.1, unlogged.0) refl)
          (λ q. rw (unsent.1, idle.0, idle.1, unlogged.1) refl) r in
      let batch = c.drained (ground (arith, h)) in
      let flights = c.landed (ground (arith, h)) in
      (
        λ tid. c.dels tid ∙ rw (batch, flights) (omega arith),
        λ q. c.upds q ∙ rw (batch, flights) (omega arith),
        c.passed,
      )
