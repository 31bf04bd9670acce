-- ===== src/Lifecycle/Shutdown/Blocking.antt =====
-- When the end of a Run of kharon.go never comes.
use lymbo.Base.{
  ℕ, zero, suc, ◌≡◌, ◌≢◌, sym, ap, ◌∙◌, List, [], ◌∷◌, some, true, false, arith, nat_eq, length,
  all, get_elem?, set, get_elem?-set, Bool-cases, inl, inr, some_injective,
}
use lymbo.Kharon.{Msg}
use lymbo.Pusher.{BatchOps}
use lymbo.Lifecycle.Shutdown.{
  WorkerPc, waiting, handling, gone, ended, System, is_gone, may_return, Steps,
}
use lymbo.Lifecycle.Shutdown.Channel.{lands_outcome}

not_all_gone :
    (i : ℕ) (ws : List WorkerPc) (ms : List Msg)
    → get_elem? ws i ≡ some (handling ms)
    → all is_gone ws ≡ false
unfolding get_elem? all
not_all_gone i [] ms e = ground arith
not_all_gone zero (w ∷ ws) ms e = ground arith
not_all_gone (suc i) (w ∷ ws) ms e = ground (arith, not_all_gone i ws ms e)

module _ {S : Type 0} (ops : BatchOps S) (capacity room : ℕ) where
  -- The pusher has ended, the channel is full, and a worker wants to send.
  record Blocked (i : ℕ) (m : Msg) (ms : List Msg) (s : System S) : Type 0 where
    over : s.pushing ≡ ended
    full : length s.pusher.kharon.outcome ≡ capacity
    wants : get_elem? s.workers i ≡ some (handling (m ∷ ms))

  same_index : (i j : ℕ) → nat_eq j i ≡ true → i ≡ j
  same_index i j h = ground arith

  still_wants :
      (i j : ℕ) (m : Msg) (ms : List Msg) (w v : WorkerPc) (ws : List WorkerPc)
      → get_elem? ws i ≡ some (handling (m ∷ ms))
      → get_elem? ws j ≡ some w
      → w ≢ handling (m ∷ ms)
      → get_elem? (set ws j v) i ≡ some (handling (m ∷ ms))
  still_wants i j m ms w v ws e h other = elim (Bool-cases (nat_eq j i)) [
    | inl same ↦
        absurd (other (some_injective (sym h ∙ ap (get_elem? ws) (sym (same_index i j same)) ∙ e)))
    | inr apart ↦ ground (arith, get_elem?-set ws j i w (handling (m ∷ ms)) v h e)
  ]

  steps-Blocked :
      {start s : System S} (i : ℕ) (m : Msg) (ms : List Msg)
      → Blocked i m ms start
      → Steps ops capacity room start s
      → Blocked i m ms s
  steps-Blocked i m ms b Steps.none_yet = b
  steps-Blocked i m ms b (Steps.cancels r) =
      let c = steps-Blocked i m ms b r in record { over = c.over; full = c.full; wants = c.wants }
  steps-Blocked i m ms b (Steps.handles {s = s} j ns r at) =
      let c = steps-Blocked i m ms b r in
      record {
        over = c.over;
        full = c.full;
        wants = still_wants i j m ms waiting (handling ns) s.workers c.wants at (λ h. cc);
      }
  steps-Blocked i m ms b (Steps.sends {s = s} j n ns r at fits) =
      let c = steps-Blocked i m ms b r in absurd (omega (arith, fits, c.full))
  steps-Blocked i m ms b (Steps.returns {s = s} j r at) =
      let c = steps-Blocked i m ms b r in
      record {
        over = c.over;
        full = c.full;
        wants = still_wants i j m ms (handling []) waiting s.workers c.wants at (λ h. cc);
      }
  steps-Blocked i m ms b (Steps.leaves {s = s} j r at done) =
      let c = steps-Blocked i m ms b r in
      record {
        over = c.over;
        full = c.full;
        wants = still_wants i j m ms waiting gone s.workers c.wants at (λ h. cc);
      }
  steps-Blocked i m ms b (Steps.takes n rest r loops e) =
      let c = steps-Blocked i m ms b r in absurd (cc (c.over, loops))
  steps-Blocked i m ms b (Steps.ticks r loops) =
      let c = steps-Blocked i m ms b r in absurd (cc (c.over, loops))
  steps-Blocked i m ms b (Steps.lands {s = s} before after f k r e done) =
      let c = steps-Blocked i m ms b r in
      record {
        over = c.over;
        full = ap length (lands_outcome ops f s.pusher.kharon k done) ∙ c.full;
        wants = c.wants;
      }
  steps-Blocked i m ms b (Steps.drains r loops done) =
      let c = steps-Blocked i m ms b r in absurd (cc (c.over, loops))
  steps-Blocked i m ms b (Steps.ends r drained e) =
      let c = steps-Blocked i m ms b r in absurd (cc (c.over, drained))

  -- Once the pusher has ended, the channel is full and a worker is in a handler that wants to send,
  -- the worker stays there whatever happens, and Run does not return.
  pub blocked_for_good :
      {s s' : System S} (i : ℕ) (m : Msg) (ms : List Msg)
      → s.pushing ≡ ended
      → length s.pusher.kharon.outcome ≡ capacity
      → get_elem? s.workers i ≡ some (handling (m ∷ ms))
      → Steps ops capacity room s s'
      → (get_elem? s'.workers i ≡ some (handling (m ∷ ms))) × (may_return s' ≡ false)
  unfolding may_return
  blocked_for_good {s' = s'} i m ms over full wants on =
      let c = steps-Blocked i m ms (record { over = over; full = full; wants = wants }) on in
      (c.wants, ground (arith, not_all_gone i s'.workers (m ∷ ms) c.wants))
