-- ===== src/Memory.antt =====
-- store/memory/memory.go: the tickets and the sets of tickets that finalizers wait for, behind one
-- mutex. An operation is atomic: it takes the store and returns the new one beside its result.
-- Go visits a map in an order of its own at each loop: an operation that loops over the tickets
-- takes that order as `range`, which lists the entries of the map that it is given.
pub mod Deps
pub mod Invariant
pub mod Preserve
pub mod Expire
pub mod Poll
pub mod Sorted
pub mod Polling
pub mod Leases
pub mod Handout
pub mod Redelivery
pub mod Release
pub mod History
pub mod Access
pub mod Finalizers
pub mod Batches
pub mod Erasure
use lymbo.Base.{
  ℕ, String, ℤ, pos, ◌+ℤ◌, add64, ltb_ℤ, leb_ℤ, eqb_ℤ, List, [], ◌∷◌, ◌++◌, Option, none, some,
  Bool, true, false, ◌&&◌, ◌||◌, not, ◌==◌, if◌then◌else◌, or_else, over, length, take, select,
  count, lookup, insert, remove, contains,
}
use lymbo.Base.Order.{sort, compact, binary_search}
use lymbo.Errors.{Result, ok, err, ticket_not_found, ticket_id_empty, limit_invalid}
use lymbo.Status.{pending, is, is_terminal}
use lymbo.Ticket.{
  Floats, Ticket, UpdateSet, DelayBackoff, PollRequest, TransitionInfo, backoff, info_of,
}

abbrev pub Tickets : Type 0
Tickets = List (String × Ticket)

-- deps[ticket_id] = set of blocked_by ids
abbrev pub Deps : Type 0
Deps = List (String × List String)

pub record Store : Type 0 where
  pub entries : Tickets
  pub deps : Deps

abbrev pub new_store : Store
new_store = record { entries = []; deps = [] }

unfoldable pub get : String → Store → Result Ticket
get id s = elim (lookup id s.entries) [ none ↦ err ticket_not_found | some t ↦ ok t ]

unfoldable pub put : Ticket → Store → Store × Result (Unit {0})
put t s =
    if t.id == ""
    then (s, err ticket_id_empty)
    else (record s { entries = insert t.id (record t { status = pending }) s.entries }, ok tt)

-- delete(depSet, id)
unfoldable pub without : String → List String → List String
without id = select (λ x. not (x == id))

-- The loop that takes id out of every dep set.
unfoldable pub unblock : String → Deps → Deps
unblock id [] = []
unblock id ((k, set) ∷ deps) = (k, without id set) ∷ unblock id deps

unfoldable pub remove_dep : String → Deps → Deps
remove_dep id deps = remove id (unblock id deps)

unfoldable pub delete : String → Store → Store × Result (Unit {0})
delete id s = (record { entries = remove id s.entries; deps = remove_dep id s.deps }, ok tt)

-- len(m.deps[id]) counts these; a missing set has none.
unfoldable pub blockers : String → Deps → List String
blockers id deps = or_else (lookup id deps) []

-- depSet[id] = struct{}{}
unfoldable pub with : String → List String → List String
with id set = if contains id set then set else id ∷ set

-- A pending member of the group.
unfoldable pub is_pending_member : String → Ticket → Bool
is_pending_member group t =
    elim t.group_id [ none ↦ false | some g ↦ g == group ] && is t.status pending

-- The loop of PutAfterGroup: the finalizer waits for every other pending member.
unfoldable pub wire : String → String → Tickets → Deps → Deps
wire fid group [] deps = deps
wire fid group ((id, member) ∷ rest) deps = wire fid group rest (
    if not (id == fid) && is_pending_member group member
    then insert fid (with id (blockers fid deps)) deps
    else deps)

unfoldable pub put_after_group :
    (Tickets → Tickets) → Ticket → String → Store → Store × Result (Unit {0})
put_after_group range t group s =
    if t.id == "" then (s, err ticket_id_empty) else elim (lookup t.id s.entries) [
      | some _ ↦ (s, ok tt)
      | none ↦
          let entries = insert t.id (record t { status = pending }) s.entries in
          (record { entries = entries; deps = wire t.id group (range entries) s.deps }, ok tt)
    ]

-- One round of DeleteBatch: a ticket that is not there is passed over.
unfoldable pub delete_one : String → Store → Store × List TransitionInfo
delete_one id s = elim (lookup id s.entries) [
  | none ↦ (s, [])
  | some t ↦ (record { entries = remove id s.entries; deps = remove_dep id s.deps }, info_of t ∷ [])
]

unfoldable pub delete_batch : List String → Store → Store × List TransitionInfo
delete_batch [] s = (s, [])
delete_batch (id ∷ ids) s =
    let (s', info) = delete_one id s in
    let (s'', infos) = delete_batch ids s' in (s'', info ++ infos)

-- The new Runat of updateOne.
unfoldable pub runat_after : Floats → ℤ → Ticket → UpdateSet → ℤ
runat_after fl now t us = elim us.backoff [
  | some b ↦ now +ℤ add64 (backoff fl b.base b.max_delay t.attempts) b.jitter
  | none ↦ or_else us.runat t.runat
]

unfoldable pub update_one : Floats → ℤ → Ticket → UpdateSet → Ticket
unfolding runat_after
update_one fl now t us = record t {
  status = or_else us.status t.status;
  nice = or_else us.nice t.nice;
  runat = runat_after fl now t us;
  payload = over us.payload t.payload;
  error_reason = over us.error_reason t.error_reason;
  tube = or_else us.tube t.tube;
  group_id = over us.group_id t.group_id;
}

-- The store after an update of a ticket that was found: the ticket is written back, and a terminal
-- one blocks nobody any more.
unfoldable pub apply_update : Floats → ℤ → Ticket → UpdateSet → Store → Store
apply_update fl now t us s =
    let t' = update_one fl now t us in
    record {
      entries = insert t'.id t' s.entries;
      deps = if is_terminal t'.status then unblock t'.id s.deps else s.deps;
    }

-- Each update comes with the time that the clock shows when it is made.
unfoldable pub update_batch :
    Floats → List (ℤ × UpdateSet) → Store → Store × Result (List TransitionInfo)
update_batch fl [] s = (s, ok [])
update_batch fl ((now, us) ∷ updates) s = elim (lookup us.id s.entries) [
  | none ↦ (s, err ticket_not_found)
  | some t ↦
      let (s', rest) = update_batch fl updates (apply_update fl now t us s) in
      (s', elim rest [ err e ↦ err e | ok infos ↦ ok (info_of (update_one fl now t us) ∷ infos) ])
]

-- The function changes a copy, which is written back if there is no error.
unfoldable pub update : String → (Ticket → Result Ticket) → Store → Store × Result (Unit {0})
update tid fn s = elim (lookup tid s.entries) [
  | none ↦ (s, err ticket_not_found)
  | some t ↦ elim (fn t) [
    | err e ↦ (s, err e)
    | ok t' ↦ (record s { entries = insert tid t' s.entries }, ok tt)
  ]
]

unfoldable pub count_pending_in_group : (Tickets → Tickets) → String → Store → ℕ
count_pending_in_group range group s = count (λ e. is_pending_member group e.1) (range s.entries)

-- A ticket that ExpireTickets takes.
unfoldable pub is_expired : ℤ → Ticket → Bool
is_expired now t = not (is t.status pending) && leb_ℤ t.runat now

-- The loop of ExpireTickets: what is left, and what was taken so far.
unfoldable pub expire_loop :
    ℤ → ℤ → Tickets → Tickets → List TransitionInfo → Tickets × List TransitionInfo
expire_loop limit now [] left infos = (left, infos)
expire_loop limit now ((tid, t) ∷ rest) left infos =
    let taken = expire_loop limit now rest (remove tid left) (infos ++ info_of t ∷ []) in
    let passed = expire_loop limit now rest left infos in
    if eqb_ℤ (pos (length infos)) limit
    then (left, infos)
    else if is_expired now t
    then taken
    else passed

unfoldable pub expire_tickets : (Tickets → Tickets) → ℤ → ℤ → Store → Store × List TransitionInfo
expire_tickets range limit now s =
    let (left, infos) = expire_loop limit now (range s.entries) s.entries [] in
    (record s { entries = left }, infos)
