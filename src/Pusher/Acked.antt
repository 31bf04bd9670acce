-- ===== src/Pusher/Acked.antt =====
-- The way of an acknowledgement, from the call of kharon.go through the pusher to the in-memory store.
use lymbo.Base.{
  ℕ, suc, String, ◌≡◌, refl, sym, ap, ◌∙◌, ℤ, List, [], ◌∷◌, ◌++◌, map, none, some, true, false,
  arith, eq_iff, Option-cases, inl, inr, Bool-cases, all, some_injective, contains, lookup,
  lookup-insert,
}
use lymbo.Errors.{ok, err, ticket_not_found}
use lymbo.Ticket.{Floats, Ticket, UpdateSet}
use lymbo.Options.{to_opts}
use lymbo.Stats.{Metric}
use lymbo.Memory
use lymbo.Memory.{Tickets, Store, blockers, update_one, apply_update}
use lymbo.Memory.Invariant.{Inv}
use lymbo.Memory.Preserve.{sets_known, delete_batch-Inv, apply_update-Inv, update_batch-Inv}
use lymbo.Memory.Erasure.{lookup-delete_batch}
use lymbo.Kharon.{Kharon, Msg, ack}
use lymbo.Kharon.Groups.{memory_ops}
use lymbo.Pusher.{BatchOps, split, do_deletes, do_updates}
use lymbo.Pusher.Shared.{memory_batch_ops, stamped}
use lymbo.Pusher.Drain.{updates_some, memory-IsFitting}

abbrev pub ack_of : String → Msg
ack_of tid = record { tid = tid; upd = none; intent = Metric.ack }

split-ack :
    (tid : String) (before after : List Msg)
    → contains tid (map (λ d. d.0) (split (before ++ ack_of tid ∷ after)).dels) ≡ true
unfolding split contains
split-ack tid [] after = ground (arith, eq_iff tid tid)
split-ack tid (m ∷ before) after = ground (arith, split-ack tid before after)

module _ (fl : Floats) (now : ℤ) (clock : ℕ → ℤ) where
  abbrev ops : BatchOps Store
  ops = memory_batch_ops fl clock

  abbrev timed : List (UpdateSet × Metric) → List (ℤ × UpdateSet)
  timed us = stamped clock 0 (map (λ u. u.0) us)

  do_deletes-store :
      (ds : List (String × Metric)) (k : Kharon Store)
      → (do_deletes ops ds k).store ≡ (Memory.delete_batch (map (λ d. d.0) ds) k.store).0
  unfolding do_deletes Memory.delete_batch
  do_deletes-store [] k = refl
  do_deletes-store (d ∷ ds) k = refl

  do_updates-store :
      (us : List (UpdateSet × Metric)) (k k' : Kharon Store)
      → do_updates ops us k ≡ some k'
      → k'.store ≡ (Memory.update_batch fl (timed us) k.store).0
  unfolding do_updates Memory.update_batch stamped
  do_updates-store [] k k' e = ap (λ x. x.store) (some_injective (sym e))
  do_updates-store (u ∷ us) k k' e = ground arith

  absent_applied :
      (tid : String) (t : Ticket) (us : UpdateSet) (at : ℤ) (s : Store)
      → Inv s
      → lookup us.id s.entries ≡ some t
      → lookup tid s.entries ≡ none
      → lookup tid (apply_update fl at t us s).entries ≡ none
  unfolding apply_update update_one
  absent_applied tid t us at s v e gone = ground (
    arith,
    lookup-insert t.id tid (update_one fl at t us) s.entries,
    ap (λ k. lookup k s.entries) (v.sound us.id t e).0,
    eq_iff t.id tid,
  )

  absent_stays :
      (tid : String) (us : List (ℤ × UpdateSet)) (s : Store)
      → Inv s
      → all (λ u. sets_known u.1) us ≡ true
      → lookup tid s.entries ≡ none
      → lookup tid (Memory.update_batch fl us s).0.entries ≡ none
  unfolding Memory.update_batch all
  absent_stays tid [] s v known gone = gone
  absent_stays tid ((at, us) ∷ rest) s v known gone = elim (Option-cases (lookup us.id s.entries)) [
    | inl e ↦ rw (e, Memory.update_batch) gone
    | inr (t, e) ↦
        rw (e, Memory.update_batch)
          (absent_stays tid rest (apply_update fl at t us s)
            (apply_update-Inv fl at t us s v e (ground (arith, known))) (ground (arith, known))
            (absent_applied tid t us at s v e gone))
  ]

  known_timed :
      (i : ℕ) (us : List (UpdateSet × Metric))
      → all (λ u. sets_known u.0) us ≡ true
      → all (λ u. sets_known u.1) (stamped clock i (map (λ u. u.0) us)) ≡ true
  unfolding all stamped
  known_timed i [] h = refl
  known_timed i (u ∷ us) h = ground (arith, known_timed (suc i) us)

  nobody_waits :
      (tid fid : String) (s : Store)
      → Inv s
      → lookup tid s.entries ≡ none
      → contains tid (blockers fid s.deps) ≡ false
  nobody_waits tid fid s v gone = elim (Bool-cases (contains tid (blockers fid s.deps))) [
    | inl e ↦ absurd (ground (arith, v.waits fid tid e, gone))
    | inr e ↦ e
  ]

  -- Ack of a ticket without options only sends a message. Any flush in which that message stands,
  -- whatever stands before and behind it, can be made over an in-memory store with the invariant, where its
  -- updates set defined statuses; after it the ticket is not found and no finalizer waits for it.
  pub acked_gone :
      (range : Tickets → Tickets) (tid fid : String) (k kb : Kharon Store) (before after : List Msg)
      → Inv kb.store
      → let f = split (before ++ ack_of tid ∷ after) in
        all (λ u. sets_known u.0) f.upds ≡ true
        → (ka : Kharon Store) × (ack (memory_ops range) fl now tid [] k
            ≡ (record k { outcome = k.outcome ++ ack_of tid ∷ [] }, ok tt))
          × (do_updates ops f.upds (do_deletes ops f.dels kb) ≡ some ka)
          × (Memory.get tid ka.store ≡ err ticket_not_found)
          × (contains tid (blockers fid ka.store.deps) ≡ false)
  unfolding ack to_opts Memory.get
  acked_gone range tid fid k kb before after v known =
      let f = split (before ++ ack_of tid ∷ after) in
      let (ka, made) =
        updates_some ops (memory-IsFitting fl clock) f.upds (do_deletes ops f.dels kb) in
      let ids = map (λ d. d.0) f.dels in
      let deleted = (Memory.delete_batch ids kb.store).0 in
      let vd = delete_batch-Inv ids kb.store v in
      let gone : lookup tid deleted.entries ≡ none =
        ground (arith, lookup-delete_batch ids tid kb.store, split-ack tid before after) in
      let same : ka.store ≡ (Memory.update_batch fl (timed f.upds) deleted).0 =
        do_updates-store f.upds (do_deletes ops f.dels kb) ka made
        ∙ ap (λ s. (Memory.update_batch fl (timed f.upds) s).0) (do_deletes-store f.dels kb) in
      let ended = (Memory.update_batch fl (timed f.upds) deleted).0 in
      let ve = update_batch-Inv fl (timed f.upds) deleted (known_timed 0 f.upds known) vd in
      let none_left =
        absent_stays tid (timed f.upds) deleted vd (known_timed 0 f.upds known) gone in
      (
        ka,
        refl,
        made,
        ap (Memory.get tid) same ∙ ground (arith, none_left),
        ap (λ s. contains tid (blockers fid s.deps)) same ∙ nobody_waits tid fid ended ve none_left,
      )
