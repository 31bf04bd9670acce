-- ===== src/Memory/Access.antt =====
-- What Get of store/memory/memory.go reads after the operations that write single tickets.
use lymbo.Base.{
  String, ◌≡◌, refl, List, [], ◌∷◌, ◌&&◌, not, arith, ◌==◌, eq_iff, if◌then◌else◌, contains,
  lookup-insert, lookup-remove,
}
use lymbo.Errors.{ok, err, ticket_not_found, ticket_id_empty}
use lymbo.Status.{pending}
use lymbo.Ticket.{Ticket}
use lymbo.Memory.{Store, get, put, delete, delete_one, delete_batch, blockers}
use lymbo.Memory.Deps.{blockers-remove_dep}

-- Put refuses a ticket with an empty id and then changes nothing. Else Get returns the ticket as
-- pending under its id, and what it returned before under any other id.
pub get-put :
    (t : Ticket) (k : String) (s : Store)
    → ((put t s).1 ≡ (if t.id == "" then err ticket_id_empty else ok tt))
      × (get k (put t s).0
          ≡ (if not (t.id == "") && t.id == k then ok (record t { status = pending }) else get k s))
unfolding put get
get-put t k s =
    (ground arith, ground (arith, lookup-insert t.id k (record t { status = pending }) s.entries))

-- After Delete the ticket is not found, nothing waits for it and it waits for nothing; all other
-- tickets and waits stay. Delete reports no error, also for an id that is not there.
pub get-delete :
    (id : String) (s : Store)
    → ((delete id s).1 ≡ ok tt)
      × ((k : String) → get k (delete id s).0 ≡ (if id == k then err ticket_not_found else get k s))
      × ((f b : String)
          → contains b (blockers f (delete id s).0.deps)
            ≡ (not (id == b) && not (id == f) && contains b (blockers f s.deps)))
unfolding delete get
get-delete id s = (
  refl,
  λ k. ground (arith, lookup-remove id k s.entries),
  λ f b. blockers-remove_dep id f b s.deps,
)

get-delete_one :
    (id k : String) (s : Store)
    → get k (delete_one id s).0 ≡ (if id == k then err ticket_not_found else get k s)
unfolding delete_one get
get-delete_one id k s = ground (arith, eq_iff id k, lookup-remove id k s.entries)

-- After DeleteBatch none of the ids is found, and all other tickets are as they were.
pub get-delete_batch :
    (ids : List String) (k : String) (s : Store)
    → get k (delete_batch ids s).0 ≡ (if contains k ids then err ticket_not_found else get k s)
unfolding delete_batch contains
get-delete_batch [] k s = refl
get-delete_batch (id ∷ ids) k s =
    ground (arith, get-delete_one id k s, get-delete_batch ids k (delete_one id s).0)
