-- ===== src/Memory/Invariant.antt =====
-- What holds of the in-memory store between two operations.
use lymbo.Base.{
  String, ◌≡◌, ◌⊎◌, inl, inr, some, true, false, arith, ◌==◌, eq_iff, contains, lookup, insert,
  remove, IsMap, test_at, lookup-insert, lookup-remove, insert-IsMap, remove-IsMap,
}
use lymbo.Status.{pending, is, is_known}
use lymbo.Ticket.{Ticket}
use lymbo.Memory.{Deps, Store, new_store, blockers}

-- Keys are not repeated; a ticket stands under its id and has a defined status; and whatever a
-- finalizer waits for is a stored ticket that is still pending.
pub record Inv (s : Store) : Type 0 where
  pub entries_map : IsMap s.entries
  pub deps_map : IsMap s.deps
  pub sound :
      (k : String) (t : Ticket)
      → lookup k s.entries ≡ some t
      → (t.id ≡ k) × (is_known t.status ≡ true)
  pub waits :
      (f b : String)
      → contains b (blockers f s.deps) ≡ true
      → test_at b (λ t. is t.status pending) s.entries ≡ true

pub new_store-Inv : Inv new_store
unfolding lookup contains blockers
new_store-Inv = record {
  entries_map = tt;
  deps_map = tt;
  sound = λ k t h. ground arith;
  waits = λ f b h. ground arith;
}

-- A ticket is written under its id, and nobody waits for it unless it is pending.
pub write-Inv :
    (s : Store) (id : String) (t : Ticket) (deps : Deps)
    → Inv s
    → t.id ≡ id
    → is_known t.status ≡ true
    → IsMap deps
    → ((f b : String)
        → contains b (blockers f deps) ≡ true
        → (contains b (blockers f s.deps) ≡ true) × (id ≡ b → is t.status pending ≡ true))
    → Inv (record { entries = insert id t s.entries; deps = deps })
write-Inv s id t deps v e known m keep = record {
  entries_map = insert-IsMap id t s.entries v.entries_map;
  deps_map = m;
  sound = λ k u h. ground (arith, eq_iff id k, lookup-insert id k t s.entries, v.sound k u);
  waits =
      λ f b h. ground (arith, eq_iff id b, lookup-insert id b t s.entries, keep f b h, v.waits f b);
}

-- A ticket for which nobody waits any more is deleted.
pub erase-Inv :
    (s : Store) (id : String) (deps : Deps)
    → Inv s
    → IsMap deps
    → ((f b : String)
        → contains b (blockers f deps) ≡ true
        → (contains b (blockers f s.deps) ≡ true) × ((id == b) ≡ false))
    → Inv (record { entries = remove id s.entries; deps = deps })
erase-Inv s id deps v m keep = record {
  entries_map = remove-IsMap id s.entries v.entries_map;
  deps_map = m;
  sound = λ k u h. ground (arith, lookup-remove id k s.entries, v.sound k u);
  waits = λ f b h. ground (arith, lookup-remove id b s.entries, keep f b h, v.waits f b);
}

-- New waits are for pending tickets.
pub rewire-Inv :
    (s : Store) (deps : Deps)
    → Inv s
    → IsMap deps
    → ((f b : String)
        → contains b (blockers f deps) ≡ true
        → (contains b (blockers f s.deps) ≡ true)
          ⊎ (test_at b (λ t. is t.status pending) s.entries ≡ true))
    → Inv (record s { deps = deps })
rewire-Inv s deps v m keep = record {
  entries_map = v.entries_map;
  deps_map = m;
  sound = v.sound;
  waits = λ f b h. elim (keep f b h) [ inl old ↦ v.waits f b old | inr new ↦ new ];
}

-- A ticket that somebody waits for has not been deleted and is not in a terminal state.
pub unwaited :
    (s : Store) (f b : String) (t : Ticket)
    → Inv s
    → lookup b s.entries ≡ some t
    → is t.status pending ≡ false
    → contains b (blockers f s.deps) ≡ false
unwaited s f b t v h np = ground (arith, v.waits f b)
