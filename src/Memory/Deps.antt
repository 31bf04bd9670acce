-- ===== src/Memory/Deps.antt =====
-- The dep sets of store/memory/memory.go, read through `blockers`.
use lymbo.Base.{
  String, ◌≡◌, refl, ◌∙◌, List, [], ◌∷◌, none, ◌&&◌, ◌||◌, not, arith, ◌==◌, eq_iff, contains,
  select, lookup, insert, any, Perm, any-perm, lookup-insert, lookup-remove, IsMap, insert-IsMap,
  remove-IsMap, test_at, any-test_at, ap,
}
use lymbo.Memory.{
  Tickets, Deps, without, unblock, remove_dep, blockers, with, is_pending_member, wire,
}

pub contains-without :
    (x id : String) (set : List String)
    → contains x (without id set) ≡ (not (id == x) && contains x set)
unfolding contains without select
contains-without x id [] = ground arith
contains-without x id (y ∷ set) =
    ground (arith, eq_iff y id, eq_iff y x, eq_iff id x, contains-without x id set)

pub contains-with :
    (x id : String) (set : List String) → contains x (with id set) ≡ (id == x || contains x set)
unfolding contains with
contains-with x id set = ground (arith, eq_iff id x)

lookup-unblock :
    (id f : String) (deps : Deps) → blockers f (unblock id deps) ≡ without id (blockers f deps)
unfolding blockers unblock lookup without select
lookup-unblock id f [] = refl
lookup-unblock id f ((k, set) ∷ deps) = ground (arith, lookup-unblock id f deps)

-- Who waits for whom once `id` is out of every set.
pub blockers-unblock :
    (id f b : String) (deps : Deps)
    → contains b (blockers f (unblock id deps)) ≡ (not (id == b) && contains b (blockers f deps))
blockers-unblock id f b deps =
    ap (contains b) (lookup-unblock id f deps) ∙ contains-without b id (blockers f deps)

pub blockers-remove_dep :
    (id f b : String) (deps : Deps)
    → contains b (blockers f (remove_dep id deps))
      ≡ (not (id == b) && not (id == f) && contains b (blockers f deps))
unfolding remove_dep blockers contains
blockers-remove_dep id f b deps =
    ground (arith, lookup-remove id f (unblock id deps), blockers-unblock id f b deps)

unblock_absent :
    (id k : String) (deps : Deps) → lookup k deps ≡ none → lookup k (unblock id deps) ≡ none
unfolding lookup unblock
unblock_absent id k [] h = refl
unblock_absent id k ((j, set) ∷ deps) h = ground (arith, unblock_absent id k deps)

pub unblock-IsMap : (id : String) (deps : Deps) → IsMap deps → IsMap (unblock id deps)
unfolding unblock
unblock-IsMap id [] h = h
unblock-IsMap id ((k, set) ∷ deps) h = (unblock_absent id k deps h.0, unblock-IsMap id deps h.1)

pub remove_dep-IsMap : (id : String) (deps : Deps) → IsMap deps → IsMap (remove_dep id deps)
unfolding remove_dep
remove_dep-IsMap id deps h = remove-IsMap id (unblock id deps) (unblock-IsMap id deps h)

pub wire-IsMap :
    (fid group : String) (entries : Tickets) (deps : Deps)
    → IsMap deps
    → IsMap (wire fid group entries deps)
unfolding wire
wire-IsMap fid group [] deps h = h
wire-IsMap fid group ((id, member) ∷ rest) deps h = ground (
  arith,
  wire-IsMap fid group rest deps,
  wire-IsMap fid group rest (insert fid (with id (blockers fid deps)) deps),
  insert-IsMap fid (with id (blockers fid deps)) deps,
)

blockers-insert :
    (fid id f b : String) (deps : Deps)
    → contains b (blockers f (insert fid (with id (blockers fid deps)) deps))
      ≡ ((fid == f && id == b) || contains b (blockers f deps))
unfolding blockers
blockers-insert fid id f b deps = ground (
  arith,
  eq_iff fid f,
  lookup-insert fid f (with id (blockers fid deps)) deps,
  contains-with b id (blockers fid deps),
)

-- The loop adds to the finalizer's set the other pending members that it visits, and nothing else.
blockers-wire :
    (fid group f b : String) (entries : Tickets) (deps : Deps)
    → contains b (blockers f (wire fid group entries deps)) ≡ (
        contains b (blockers f deps)
        || (fid == f
            && not (b == fid)
            && any (λ e. e.0 == b && is_pending_member group e.1) entries))
unfolding wire any
blockers-wire fid group f b [] deps = ground arith
blockers-wire fid group f b ((id, member) ∷ rest) deps = ground (
  arith,
  eq_iff id b,
  eq_iff b fid,
  eq_iff id fid,
  blockers-insert fid id f b deps,
  blockers-wire fid group f b rest deps,
  blockers-wire fid group f b rest (insert fid (with id (blockers fid deps)) deps),
)

-- Over a map, in any order of the visits.
pub blockers-wire-map :
    (range : Tickets → Tickets) (fid group f b : String) (entries : Tickets) (deps : Deps)
    → Perm (range entries) entries
    → IsMap entries
    → contains b (blockers f (wire fid group (range entries) deps)) ≡ (
        contains b (blockers f deps)
        || (fid == f && not (b == fid) && test_at b (is_pending_member group) entries))
blockers-wire-map range fid group f b entries deps p m = ground (
  arith,
  blockers-wire fid group f b (range entries) deps,
  any-perm (λ e. e.0 == b && is_pending_member group e.1) p,
  any-test_at b (is_pending_member group) entries m,
)
