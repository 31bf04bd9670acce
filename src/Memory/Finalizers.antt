-- ===== src/Memory/Finalizers.antt =====
-- Finalizers: PutAfterGroup of store/memory/memory.go and the operations that end a wait.
use lymbo.Base.{
  String, ◌≡◌, refl, ◌≢◌, inl, inr, ℤ, ◌↔◌, ap, sym, ◌∙◌, List, [], ◌∷◌, none, some, true, false,
  ◌&&◌, ◌||◌, not, arith, ◌==◌, ==_self, eq_iff, Option-cases, contains, length, lookup, insert,
  lookup-insert, insert-IsMap, IsMap, test_at, count-perm, nat_eq,
}
use lymbo.Base.Members.{count-eq-zero_iff}
use lymbo.Errors.{Result, ok, err}
use lymbo.Status.{pending, is_terminal}
use lymbo.Ticket.{Floats, Ticket, UpdateSet, PollRequest}
use lymbo.Memory.{
  Tickets, Store, blockers, is_pending_member, put_after_group, update, update_one, apply_update,
  count_pending_in_group,
}
use lymbo.Memory.Deps.{blockers-wire-map, blockers-unblock}
use lymbo.Memory.Polling.{is_due}
use lymbo.Memory.History.{IsRange}

-- Where no key stands twice, PutAfterGroup of a ticket whose id is not empty and not taken stores
-- it as pending and adds to what it waits for exactly the other pending tickets of the group,
-- whatever the order in which the loop visits the tickets. It changes no other wait and no other
-- ticket.
pub put_after_group-waits :
    (range : Tickets → Tickets) (t : Ticket) (group : String) (s : Store)
    → IsRange range
    → IsMap s.entries
    → t.id ≢ ""
    → lookup t.id s.entries ≡ none
    → let (s', r) = put_after_group range t group s in
      (r ≡ ok tt)
      × (s'.entries ≡ insert t.id (record t { status = pending }) s.entries)
      × ((f b : String)
          → contains b (blockers f s'.deps) ≡ (
              contains b (blockers f s.deps)
              || (t.id == f
                  && not (b == t.id)
                  && test_at b
                      (λ u.
                        u.status.slug == "pending"
                        && elim u.group_id [ none ↦ false | some g ↦ g == group ])
                      s.entries)))
unfolding put_after_group is_pending_member
put_after_group-waits range t group s shuffle m named free = (
  ground (arith, eq_iff t.id ""),
  ground (arith, eq_iff t.id ""),
  λ f b.
      let entries = insert t.id (record t { status = pending }) s.entries in
      ground (
        arith,
        eq_iff t.id "",
        eq_iff t.id b,
        eq_iff b t.id,
        lookup-insert t.id b (record t { status = pending }) s.entries,
        blockers-wire-map range t.id group f b entries s.deps (shuffle entries)
            (insert-IsMap t.id (record t { status = pending }) s.entries m),
      ),
)

-- PutAfterGroup of an id that is taken reports success and changes nothing.
pub put_after_group_again :
    (range : Tickets → Tickets) (t u : Ticket) (group : String) (s : Store)
    → t.id ≢ ""
    → lookup t.id s.entries ≡ some u
    → put_after_group range t group s ≡ (s, ok tt)
unfolding put_after_group
put_after_group_again range t u group s named taken = ground (arith, eq_iff t.id "")

pub no_members : (xs : List String) → ((b : String) → contains b xs ≡ false) → length xs ≡ 0
unfolding contains
no_members [] h = refl
no_members (x ∷ xs) h = ground (arith, h x, ==_self x)

pub some_member :
    (b : String) (xs : List String) → contains b xs ≡ true → nat_eq (length xs) 0 ≡ false
unfolding contains
some_member b [] h = ground arith
some_member b (x ∷ xs) h = ground arith

-- An update to a terminal status ends every wait for the ticket, and any other update ends none.
pub apply_update-waits :
    (fl : Floats) (now : ℤ) (t : Ticket) (us : UpdateSet) (s : Store) (f b : String)
    → contains b (blockers f (apply_update fl now t us s).deps) ≡ (
        not (is_terminal (update_one fl now t us).status && t.id == b)
        && contains b (blockers f s.deps))
unfolding apply_update update_one
apply_update-waits fl now t us s f b = ground (arith, blockers-unblock t.id f b s.deps)

update-deps :
    (tid : String) (fn : Ticket → Result Ticket) (s : Store) → (update tid fn s).0.deps ≡ s.deps
unfolding update
update-deps tid fn s = elim (Option-cases (lookup tid s.entries)) [
  | inl e ↦ rw (e, update) refl
  | inr (t, e) ↦ rw (e, update) (by_result (fn t))
]
  where
    by_result :
        (r : Result Ticket)
        → (elim r as (λ _. Store × Result (Unit {0})) [
          | err e ↦ (s, err e)
          | ok t' ↦ (record s { entries = insert tid t' s.entries }, ok tt)
        ]).0.deps
          ≡ s.deps
    by_result (err e) = refl
    by_result (ok t') = refl

-- Update ends no wait, whatever status the function sets: a finalizer that waits for the ticket is
-- not taken by any poll of the new store.
pub update_strands :
    (tid : String) (fn : Ticket → Result Ticket) (s : Store) (f : Ticket) (req : PollRequest)
    → contains tid (blockers f.id s.deps) ≡ true
    → ((update tid fn s).0.deps ≡ s.deps) × (is_due req (update tid fn s).0 f ≡ false)
update_strands tid fn s f req waits = (
  update-deps tid fn s,
  ground (
    arith,
    ap (blockers f.id) (update-deps tid fn s),
    some_member tid (blockers f.id s.deps) waits,
  ),
)

-- The number of pending members of a group is that of the stored tickets with this group and
-- status, whatever the order in which the loop visits them; it is zero exactly when no id holds
-- such a ticket.
pub count_pending_in_group_lem :
    (range : Tickets → Tickets) (group : String) (s : Store)
    → IsRange range
    → IsMap s.entries
    → (count_pending_in_group range group s ≡ 0)
      ↔ ((k : String) → test_at k (is_pending_member group) s.entries ≡ false)
unfolding count_pending_in_group
count_pending_in_group_lem range group s shuffle m =
    let visited =
      count-perm (λ (e : String × Ticket). is_pending_member group e.1) (shuffle s.entries) in
    let zero_iff = count-eq-zero_iff (is_pending_member group) s.entries m in
    (λ h. zero_iff.0 (sym visited ∙ h), λ h. visited ∙ zero_iff.1 h)
