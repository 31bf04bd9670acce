-- ===== src/Pusher/Shared.antt =====
-- Flushes of the pusher of kharon.go that concern one ticket twice, over the in-memory store.
use lymbo.Base.{
  ℕ, suc, String, ◌≡◌, refl, ap, ◌∙◌, ℤ, List, [], ◌∷◌, map, Option, none, some, true, arith,
  lookup, contains,
}
use lymbo.Errors.{Result, ok, err, ticket_not_found}
use lymbo.Ticket.{Floats, UpdateSet, TransitionInfo}
use lymbo.Stats.{Metric}
use lymbo.Memory
use lymbo.Memory.{Store, get}
use lymbo.Memory.Access.{get-delete_batch}
use lymbo.Kharon.{Kharon}
use lymbo.Pusher.{BatchOps, do_deletes, do_updates, count_updated}

-- Each update reads the clock by itself: the one with the number `i` of its batch reads `clock i`.
unfoldable pub stamped : (ℕ → ℤ) → ℕ → List UpdateSet → List (ℤ × UpdateSet)
stamped clock i [] = []
stamped clock i (us ∷ sets) = (clock i, us) ∷ stamped clock (suc i) sets

-- The batches of the in-memory store. An error comes without infos.
abbrev pub memory_batch_ops : Floats → (ℕ → ℤ) → BatchOps Store
memory_batch_ops fl clock = record {
  delete_batch = Memory.delete_batch;
  update_batch = λ sets s.
      let (s', r) = Memory.update_batch fl (stamped clock 0 sets) s in
      (s', elim r [ err _ ↦ [] | ok infos ↦ infos ]);
}

absent : (k : String) (s : Store) → get k s ≡ err ticket_not_found → lookup k s.entries ≡ none
unfolding get
absent k s h = ground arith

skipped :
    (fl : Floats) (now : ℤ) (us : UpdateSet) (updates : List (ℤ × UpdateSet)) (s : Store)
    → lookup us.id s.entries ≡ none
    → Memory.update_batch fl ((now, us) ∷ updates) s ≡ (s, err ticket_not_found)
unfolding Memory.update_batch
skipped fl now us updates s h = ground arith

unmade :
    (fl : Floats) (clock : ℕ → ℤ) (us : UpdateSet) (intent : Metric)
    (upds : List (UpdateSet × Metric)) (k : Kharon Store)
    → lookup us.id k.store.entries ≡ none
    → do_updates (memory_batch_ops fl clock) ((us, intent) ∷ upds) k ≡ some k
unfolding do_updates count_updated stamped
unmade fl clock us intent upds k h =
    let updates : List (ℤ × UpdateSet) = stamped clock 1 (map (λ u. u.0) upds) in
    ap after (skipped fl (clock 0) us updates k.store h)
  where
    after : Store × Result (List TransitionInfo) → Option (Kharon Store)
    after (s, r) =
        elim (count_updated (intent ∷ map (λ x. x.1) upds)
          (elim r [ err _ ↦ [] | ok infos ↦ infos ]) k.stats) [
            | none ↦ none
            | some st ↦ some (record k { store = s; stats = st })
          ]

-- Over the in-memory store: a flush deletes before it updates, whatever the order in which the
-- messages came. Where its first
-- update is for a ticket that it also deletes, none of its updates is made and none is counted.
pub do_updates-do_deletes :
    (fl : Floats) (clock : ℕ → ℤ) (dels : List (String × Metric)) (us : UpdateSet) (intent : Metric)
    (upds : List (UpdateSet × Metric)) (k : Kharon Store)
    → contains us.id (map (λ d. d.0) dels) ≡ true
    → let ops = memory_batch_ops fl clock in
      do_updates ops ((us, intent) ∷ upds) (do_deletes ops dels k) ≡ some (do_deletes ops dels k)
unfolding do_deletes contains
do_updates-do_deletes fl clock [] us intent upds k h = ground arith
do_updates-do_deletes fl clock (d ∷ dels) us intent upds k h =
    let ids = map (λ x. x.0) (d ∷ dels) in
    let s = (Memory.delete_batch ids k.store).0 in
    let gone : get us.id s ≡ err ticket_not_found =
      get-delete_batch ids us.id k.store ∙ rw h refl in
    unmade fl clock us intent upds (do_deletes (memory_batch_ops fl clock) (d ∷ dels) k)
      (absent us.id s gone)
