-- ===== src/Pusher/Drain.antt =====
-- That the flushes of the pusher of kharon.go come to an end.
use lymbo.Base.{
  suc, ◌+◌, ◌==◌, Bool, count, ℤ, Option-cases, inl, inr, lookup, ℕ, ◌≤◌, String, ◌≡◌, refl, ap,
  List, [], ◌∷◌, map, Option, none, some, arith, length,
}
use lymbo.Base.Members.{length-map}
use lymbo.Errors.{Result, ok, err}
use lymbo.Ticket.{Floats, UpdateSet, TransitionInfo}
use lymbo.Stats.{Metric, Stats}
use lymbo.Kharon.{Kharon}
use lymbo.Pusher.{BatchOps, Pusher, do_updates, count_updated}
use lymbo.Memory.{Store, update_batch, apply_update}
use lymbo.Pusher.Shared.{memory_batch_ops, stamped}
use lymbo.Pusher.Logged.{Logged}
use lymbo.Pusher.Held.{Step, held_dels, held_upds}

-- A store returns at most one info for each update set.
abbrev pub IsFitting : {S : Type 0} → BatchOps S → Type 0
IsFitting {S = S} ops =
    (sets : List UpdateSet) (s : S) → length (ops.update_batch sets s).1 ≤ length sets

counts_some :
    (intents : List Metric) (infos : List TransitionInfo) (st : Stats)
    → length infos ≤ length intents
    → (st' : Stats) × (count_updated intents infos st ≡ some st')
unfolding count_updated
counts_some intents [] st h = (st, refl)
counts_some [] (info ∷ infos) st h = absurd (omega arith)
counts_some (intent ∷ intents) (info ∷ infos) st h = counts_some intents infos _ (omega arith)

module _ {S : Type 0} (ops : BatchOps S) (fitting : IsFitting ops) where
  pub updates_some :
      (upds : List (UpdateSet × Metric)) (k : Kharon S)
      → (k' : Kharon S) × (do_updates ops upds k ≡ some k')
  unfolding do_updates
  updates_some [] k = (k, refl)
  updates_some (u ∷ upds) k =
      let sets = map (λ x. x.0) (u ∷ upds) in
      let (s, infos) = ops.update_batch sets k.store in
      let (st, e) = counts_some (map (λ x. x.1) (u ∷ upds)) infos k.stats (
        omega (
          arith,
          fitting sets k.store,
          length-map (λ x. x.0) (u ∷ upds),
          length-map (λ x. x.1) (u ∷ upds),
        )) in
      (
        record k { store = s; stats = st },
        ap
            (λ o. elim o as (λ _. Option (Kharon S)) [
              | none ↦ none
              | some st' ↦ some (record k { store = s; stats = st' })
            ])
            e,
      )

module _ {S : Type 0} (ops : BatchOps S) (fitting : IsFitting ops) where
  -- Steps of the pusher from one state to another.
  pub data Leads : Pusher (Logged S) → Pusher (Logged S) → Type 0 where
    here : (p : Pusher (Logged S)) → Leads p p
    then : {p q r : Pusher (Logged S)} → Step ops p q → Leads q r → Leads p r

  -- From this state the pusher comes to one in which it holds nothing.
  abbrev pub Drains : Pusher (Logged S) → Type 0
  Drains p =
      (p' : Pusher (Logged S)) × Leads p p'
      × (p'.batch ≡ [])
      × (p'.flights ≡ [])
      × ((tid : String)
          → count (λ d. d == tid) p'.kharon.store.deleted
            ≡ count (λ d. d == tid) p.kharon.store.deleted + held_dels tid p)
      × ((q : UpdateSet → Bool)
          → count q p'.kharon.store.updated ≡ count q p.kharon.store.updated + held_upds q p)

reported : Result (List TransitionInfo) → List TransitionInfo
reported (err e) = []
reported (ok infos) = infos

length-reported :
    (fl : Floats) (updates : List (ℤ × UpdateSet)) (s : Store)
    → length (reported (update_batch fl updates s).1) ≤ length updates
unfolding update_batch reported
length-reported fl [] s = omega arith
length-reported fl ((now, us) ∷ updates) s = elim (Option-cases (lookup us.id s.entries)) [
  | inl e ↦ ground arith
  | inr (t, e) ↦ ground (arith, length-reported fl updates (apply_update fl now t us s))
]

length-stamped :
    (clock : ℕ → ℤ) (i : ℕ) (sets : List UpdateSet) → length (stamped clock i sets) ≡ length sets
unfolding stamped
length-stamped clock i [] = refl
length-stamped clock i (us ∷ sets) = ap suc (length-stamped clock (suc i) sets)

pub memory-IsFitting : (fl : Floats) (clock : ℕ → ℤ) → IsFitting (memory_batch_ops fl clock)
unfolding reported
memory-IsFitting fl clock sets s =
    let updates = stamped clock 0 sets in
    by_result (update_batch fl updates s).1
      (omega (arith, length-reported fl updates s, length-stamped clock 0 sets))
  where
    by_result :
        (r : Result (List TransitionInfo))
        → length (reported r) ≤ length sets
        → length (elim r as (λ _. List TransitionInfo) [ err _ ↦ [] | ok infos ↦ infos ])
          ≤ length sets
    by_result (err e) h = h
    by_result (ok infos) h = h
