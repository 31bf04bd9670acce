-- ===== src/Pusher/Logged.antt =====
-- A store that keeps a log of what the pusher of kharon.go hands to it, beside any store.
use lymbo.Base.{String, ◌≡◌, refl, sym, List, [], ◌∷◌, ◌++◌, map, some, arith}
use mathlib.Core.List.{append-nil}
use lymbo.Ticket.{UpdateSet}
use lymbo.Stats.{Metric}
use lymbo.Kharon.{Kharon}
use lymbo.Pusher.{BatchOps, do_deletes, do_updates}

pub record Logged (S : Type 0) : Type 0 where
  pub store : S
  pub deleted : List String  -- the ids that DeleteBatch was called with
  pub updated : List UpdateSet  -- the sets that UpdateBatch was called with

abbrev pub logged : {S : Type 0} → BatchOps S → BatchOps (Logged S)
logged ops = record {
  delete_batch = λ ids l.
      let (s, infos) = ops.delete_batch ids l.store in
      (record l { store = s; deleted = l.deleted ++ ids }, infos);
  update_batch = λ sets l.
      let (s, infos) = ops.update_batch sets l.store in
      (record l { store = s; updated = l.updated ++ sets }, infos);
}

module _ {S : Type 0} (ops : BatchOps S) where
  pub do_deletes-log :
      (ds : List (String × Metric)) (k : Kharon (Logged S))
      → let l = (do_deletes (logged ops) ds k).store in
        (l.deleted ≡ k.store.deleted ++ map (λ d. d.0) ds) × (l.updated ≡ k.store.updated)
  unfolding do_deletes
  do_deletes-log [] k = (sym (append-nil k.store.deleted), refl)
  do_deletes-log (d ∷ ds) k = (refl, refl)

  pub do_updates-log :
      (us : List (UpdateSet × Metric)) (k k' : Kharon (Logged S))
      → do_updates (logged ops) us k ≡ some k'
      → (k'.store.updated ≡ k.store.updated ++ map (λ u. u.0) us)
        × (k'.store.deleted ≡ k.store.deleted)
  unfolding do_updates
  do_updates-log [] k k' e = ground (arith, append-nil k.store.updated)
  do_updates-log (u ∷ us) k k' e = ground arith
