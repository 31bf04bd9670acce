-- ===== src/Pusher.antt =====
-- runPusher of kharon.go: the messages of the calls, collected in a batch and flushed to the store.
-- A flush runs beside the loop, and several may run at once: its deletions are one step and its
-- updates another, between which other steps may come. The pusher only logs an error of the store.
pub mod Logged
pub mod Held
pub mod Delivery
pub mod Shared
pub mod Drain
pub mod Acked
use lymbo.Base.{
  ℕ, zero, suc, leb, String, List, [], ◌∷◌, ◌++◌, map, Option, none, some, or_else, if◌then◌else◌,
  length, lookup, insert,
}
use lymbo.Ticket.{UpdateSet, TransitionInfo}
use lymbo.Stats.{Metric, Stats, by_key_inc}
use lymbo.Kharon.{Kharon, Msg}

-- DeleteBatch and UpdateBatch of a store, with the infos that they return, also beside an error.
pub record BatchOps (S : Type 0) : Type 0 where
  pub delete_batch : List String → S → S × List TransitionInfo
  pub update_batch : List UpdateSet → S → S × List TransitionInfo

-- The messages of a flush, with their intents.
pub record Flush : Type 0 where
  pub dels : List (String × Metric)
  pub upds : List (UpdateSet × Metric)

-- The loop of flush that tells deletions from updates.
unfoldable pub split : List Msg → Flush
split [] = record { dels = []; upds = [] }
split (m ∷ ms) =
    let rest = split ms in
    elim m.upd [
      | none ↦ record rest { dels = (m.tid, m.intent) ∷ rest.dels }
      | some us ↦ record rest { upds = (us, m.intent) ∷ rest.upds }
    ]

-- intentByID, after what was entered before.
unfoldable pub intents_from :
    List (String × Metric) → List (String × Metric) → List (String × Metric)
intents_from acc [] = acc
intents_from acc ((id, intent) ∷ dels) = intents_from (insert id intent acc) dels

-- The counting of deleted tickets; an id that is not in the map reads as the first metric.
unfoldable pub count_deleted : List (String × Metric) → List TransitionInfo → Stats → Stats
count_deleted intents [] st = st
count_deleted intents (info ∷ infos) st = count_deleted intents infos (
    by_key_inc (record { type = info.type; tube = info.tube })
      (or_else (lookup info.id intents) Metric.add) st)

-- The counting of updated tickets; more infos than intents are a panic, `none`.
unfoldable pub count_updated : List Metric → List TransitionInfo → Stats → Option Stats
count_updated intents [] st = some st
count_updated [] (info ∷ infos) st = none
count_updated (intent ∷ intents) (info ∷ infos) st =
    count_updated intents infos
      (by_key_inc (record { type = info.type; tube = info.tube }) intent st)

module _ {S : Type 0} (ops : BatchOps S) where
  -- The deletions of doflush.
  unfoldable pub do_deletes : List (String × Metric) → Kharon S → Kharon S
  do_deletes [] k = k
  do_deletes (d ∷ dels) k =
      let (s, infos) = ops.delete_batch (map (λ x. x.0) (d ∷ dels)) k.store in
      record k { store = s; stats = count_deleted (intents_from [] (d ∷ dels)) infos k.stats }

  -- Its updates.
  unfoldable pub do_updates : List (UpdateSet × Metric) → Kharon S → Option (Kharon S)
  do_updates [] k = some k
  do_updates (u ∷ upds) k =
      let (s, infos) = ops.update_batch (map (λ x. x.0) (u ∷ upds)) k.store in
      elim (count_updated (map (λ x. x.1) (u ∷ upds)) infos k.stats) [
        | none ↦ none
        | some st ↦ some (record k { store = s; stats = st })
      ]

-- The batch of the loop, the flushes that have not ended, and the Kharon.
pub record Pusher (S : Type 0) : Type 0 where
  pub batch : List Msg
  pub flights : List Flush
  pub kharon : Kharon S

module _ {S : Type 0} where
  -- flush, up to the start of doflush.
  unfoldable pub flush : Pusher S → Pusher S
  flush p = elim p.batch [
    | [] ↦ p
    | _ ∷ _ ↦ record p { batch = []; flights = p.flights ++ split p.batch ∷ [] }
  ]

  -- The case of the loop that takes a message; `capacity` is cap(batch).
  unfoldable pub receive : ℕ → Msg → Pusher S → Pusher S
  unfolding flush
  receive capacity m p =
      let p' = record p { batch = p.batch ++ m ∷ [] } in
      if leb capacity (length p'.batch) then flush p' else p'
