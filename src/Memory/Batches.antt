-- ===== src/Memory/Batches.antt =====
-- DeleteBatch and UpdateBatch of store/memory/memory.go as sequences of single steps.
use mathlib.Core.Option
use lymbo.Base.{
  String, ◌≡◌, inl, inr, ℤ, List, [], ◌∷◌, ◌++◌, Option, none, some, arith, ◌==◌, if◌then◌else◌,
  or_else, over, Option-cases, lookup, lookup-insert,
}
use lymbo.Errors.{ok, err, ticket_not_found}
use lymbo.Ticket.{Floats, Ticket, UpdateSet, TransitionInfo, info_of}
use lymbo.Memory.{Store, get, runat_after, update_one, apply_update, update_batch}

-- The updates of a batch one after the other, for as long as their tickets are there: the store that
-- they lead to, with the infos of the updated tickets. `none`: some ticket is missing.
unfoldable pub update_each :
    Floats → List (ℤ × UpdateSet) → Store → Option (Store × List TransitionInfo)
update_each fl [] s = some (s, [])
update_each fl ((now, us) ∷ updates) s = elim (lookup us.id s.entries) [
  | none ↦ none
  | some t ↦
      Option.map (λ r. (r.0, info_of (update_one fl now t us) ∷ r.1))
        (update_each fl updates (apply_update fl now t us s))
]

-- Where a ticket is missing, the updates before it have been made and stay, the one for it and all
-- behind it are skipped, and only the error is returned.
pub update_batch_missing :
    (fl : Floats) (before after : List (ℤ × UpdateSet)) (now : ℤ) (us : UpdateSet) (s s' : Store)
    (infos : List TransitionInfo)
    → update_each fl before s ≡ some (s', infos)
    → lookup us.id s'.entries ≡ none
    → update_batch fl (before ++ (now, us) ∷ after) s ≡ (s', err ticket_not_found)
unfolding update_each update_batch
update_batch_missing fl [] after now us s s' infos h miss = ground arith
update_batch_missing fl ((now', us') ∷ before) after now us s s' infos h miss =
    elim (Option-cases (lookup us'.id s.entries)) [
      | inl e ↦ absurd (ground arith)
      | inr (t, e) ↦ elim (Option-cases (update_each fl before (apply_update fl now' t us' s))) [
        | inl e' ↦ absurd (ground arith)
        | inr ((s₁, infos₁), e') ↦
            let ih =
              update_batch_missing fl before after now us (apply_update fl now' t us' s) s' infos₁
                (ground arith) miss in
            ground arith
      ]
    ]

-- Where no ticket is missing, a batch makes its updates in order and returns their infos in order.
pub update_batch_all :
    (fl : Floats) (updates : List (ℤ × UpdateSet)) (s s' : Store) (infos : List TransitionInfo)
    → update_each fl updates s ≡ some (s', infos)
    → update_batch fl updates s ≡ (s', ok infos)
unfolding update_each update_batch
update_batch_all fl [] s s' infos h = ground arith
update_batch_all fl ((now, us) ∷ updates) s s' infos h =
    elim (Option-cases (lookup us.id s.entries)) [
      | inl e ↦ absurd (ground arith)
      | inr (t, e) ↦ elim (Option-cases (update_each fl updates (apply_update fl now t us s))) [
        | inl e' ↦ absurd (ground arith)
        | inr ((s₁, infos₁), e') ↦
            let ih = update_batch_all fl updates (apply_update fl now t us s) s₁ infos₁ e' in
            ground arith
      ]
    ]

-- An update writes the fields that it sets and no others; a backoff goes before a fixed Runat; the
-- id, the type, the times of creation and change and the attempts never change. All other tickets
-- stay as they were.
pub get-apply_update :
    (fl : Floats) (now : ℤ) (t : Ticket) (us : UpdateSet) (s : Store) (k : String)
    → get k (apply_update fl now t us s) ≡ (
        if t.id == k
        then ok (record t {
          status = or_else us.status t.status;
          tube = or_else us.tube t.tube;
          group_id = over us.group_id t.group_id;
          runat = runat_after fl now t us;
          nice = or_else us.nice t.nice;
          payload = over us.payload t.payload;
          error_reason = over us.error_reason t.error_reason;
        })
        else get k s)
unfolding get apply_update update_one
get-apply_update fl now t us s k =
    ground (arith, lookup-insert t.id k (update_one fl now t us) s.entries)
