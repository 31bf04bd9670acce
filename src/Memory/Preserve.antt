-- ===== src/Memory/Preserve.antt =====
-- The operations that write single tickets or batches keep the invariant of the in-memory store.
use lymbo.Base.{
  contains, ap, ◌∙◌, String, ◌≡◌, refl, inl, inr, ℤ, List, [], ◌∷◌, none, some, Bool, true, arith,
  eq_iff, if◌then◌else◌, Option-cases, lookup, insert, test_at, all, Perm,
}
use lymbo.Errors.{Result, ok, err}
use lymbo.Status.{pending, is, is_terminal, is_known}
use lymbo.Ticket.{Floats, Ticket, UpdateSet}
use lymbo.Memory.{
  Tickets, Store, blockers, is_pending_member, unblock, remove_dep, wire, put, put_after_group,
  delete, delete_one, delete_batch, update_one, apply_update, update_batch, update,
}
use lymbo.Memory.Deps.{
  blockers-unblock, blockers-remove_dep, unblock-IsMap, remove_dep-IsMap, wire-IsMap,
  blockers-wire-map,
}
use lymbo.Memory.Invariant.{Inv, write-Inv, erase-Inv, rewire-Inv}

abbrev store_pending : Ticket → Store → Store
store_pending t s = record s { entries = insert t.id (record t { status = pending }) s.entries }

store_pending-Inv : (t : Ticket) (s : Store) → Inv s → Inv (store_pending t s)
store_pending-Inv t s v =
    write-Inv s t.id (record t { status = pending }) s.deps v refl refl v.deps_map
      (λ f b h. (h, λ e. refl))

pub put-Inv : (t : Ticket) (s : Store) → Inv s → Inv (put t s).0
unfolding put
put-Inv t s v = ground (arith, store_pending-Inv t s v)

pub delete-Inv : (id : String) (s : Store) → Inv s → Inv (delete id s).0
unfolding delete
delete-Inv id s v =
    erase-Inv s id (remove_dep id s.deps) v (remove_dep-IsMap id s.deps v.deps_map)
      (λ f b h. ground (arith, blockers-remove_dep id f b s.deps))

member_pending :
    (b group : String) (entries : Tickets)
    → test_at b (is_pending_member group) entries ≡ true
    → test_at b (λ t. is t.status pending) entries ≡ true
unfolding is_pending_member
member_pending b group entries h = ground arith

wired-Inv :
    (range : Tickets → Tickets) (t : Ticket) (group : String) (s : Store)
    → ((m : Tickets) → Perm (range m) m)
    → Inv s
    → let s' = store_pending t s in
      Inv (record s' { deps = wire t.id group (range s'.entries) s.deps })
wired-Inv range t group s p v =
    let s' = store_pending t s in
    let v' = store_pending-Inv t s v in
    rewire-Inv s' (wire t.id group (range s'.entries) s.deps) v'
      (wire-IsMap t.id group (range s'.entries) s.deps v.deps_map)
      (λ f b h. ground (
        arith,
        blockers-wire-map range t.id group f b s'.entries s.deps (p s'.entries) v'.entries_map,
        member_pending b group s'.entries,
      ))

pub put_after_group-Inv :
    (range : Tickets → Tickets) (t : Ticket) (group : String) (s : Store)
    → ((m : Tickets) → Perm (range m) m)
    → Inv s
    → Inv (put_after_group range t group s).0
unfolding put_after_group
put_after_group-Inv range t group s p v = ground (arith, wired-Inv range t group s p v)

pub delete_one-Inv : (id : String) (s : Store) → Inv s → Inv (delete_one id s).0
unfolding delete_one delete
delete_one-Inv id s v = ground (arith, delete-Inv id s v)

pub delete_batch-Inv : (ids : List String) (s : Store) → Inv s → Inv (delete_batch ids s).0
unfolding delete_batch
delete_batch-Inv [] s v = v
delete_batch-Inv (id ∷ ids) s v = delete_batch-Inv ids (delete_one id s).0 (delete_one-Inv id s v)

-- The update sets the status, if at all, to one that the package defines.
abbrev pub sets_known : UpdateSet → Bool
sets_known us = elim us.status [ none ↦ true | some st ↦ is_known st ]

pub apply_update-Inv :
    (fl : Floats) (now : ℤ) (t : Ticket) (us : UpdateSet) (s : Store)
    → Inv s
    → lookup us.id s.entries ≡ some t
    → sets_known us ≡ true
    → Inv (apply_update fl now t us s)
unfolding apply_update update_one
apply_update-Inv fl now t us s v found k =
    let t' = update_one fl now t us in
    write-Inv s t.id t' (if is_terminal t'.status then unblock t.id s.deps else s.deps) v refl
      (ground (arith, v.sound us.id t))
      (ground (arith, unblock-IsMap t.id s.deps v.deps_map, v.deps_map))
      (λ f b h. (
        ground (arith, blockers-unblock t.id f b s.deps),
        λ e. ground (arith, eq_iff t.id b, blockers-unblock t.id f b s.deps, v.sound us.id t),
      ))

pub update_batch-Inv :
    (fl : Floats) (updates : List (ℤ × UpdateSet)) (s : Store)
    → all (λ u. sets_known u.1) updates ≡ true
    → Inv s
    → Inv (update_batch fl updates s).0
unfolding update_batch all
update_batch-Inv fl [] s k v = v
update_batch-Inv fl ((now, us) ∷ updates) s k v = elim (Option-cases (lookup us.id s.entries)) [
  | inl e ↦ rw (e, update_batch) v
  | inr (t, e) ↦
      rw (e, update_batch)
        (update_batch-Inv fl updates (apply_update fl now t us s) (ground arith)
          (apply_update-Inv fl now t us s v e (ground arith)))
]

-- What `update` needs of the function that it is given, at a store: it keeps the id of the ticket, sets
-- a defined status, and leaves a ticket pending that a finalizer waits for.
abbrev pub UpdateFits : String → (Ticket → Result Ticket) → Store → Type 0
UpdateFits tid fn s =
    (t t' : Ticket)
    → lookup tid s.entries ≡ some t
    → fn t ≡ ok t'
    → (t'.id ≡ t.id)
      × (is_known t'.status ≡ true)
      × ((f : String) → contains tid (blockers f s.deps) ≡ true → is t'.status pending ≡ true)

pub update-Inv :
    (tid : String) (fn : Ticket → Result Ticket) (s : Store)
    → UpdateFits tid fn s
    → Inv s
    → Inv (update tid fn s).0
unfolding update
update-Inv tid fn s keeps v = elim (Option-cases (lookup tid s.entries)) [
  | inl e ↦ rw (e, update) v
  | inr (t, e) ↦ rw (e, update) (written t e (fn t) refl)
]
  where
    written :
        (t : Ticket)
        → lookup tid s.entries ≡ some t
        → (r : Result Ticket) → fn t ≡ r
        → Inv
            (elim r as (λ _. Store × Result (Unit {0})) [
              | err e ↦ (s, err e)
              | ok t' ↦ (record s { entries = insert tid t' s.entries }, ok tt)
            ]).0
    written t e (err x) f = v
    written t e (ok t') f =
        let (same, known, open_still) = keeps t t' e f in
        write-Inv s tid t' s.deps v (same ∙ (v.sound tid t e).0) known v.deps_map
          (λ g b h. (h, λ q. open_still g (ap (λ k. contains k (blockers g s.deps)) q ∙ h)))
