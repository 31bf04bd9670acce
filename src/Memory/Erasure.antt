-- ===== src/Memory/Erasure.antt =====
-- What DeleteBatch of store/memory/memory.go leaves of the tickets and of the dep sets.
use lymbo.Base.{
  String, ◌≡◌, refl, List, [], ◌∷◌, none, true, ◌&&◌, not, arith, ◌==◌, eq_iff, contains, lookup,
  test_at, lookup-remove, if◌then◌else◌,
}
use lymbo.Memory.{Store, blockers, delete_one, delete_batch}
use lymbo.Memory.Deps.{blockers-remove_dep}
use lymbo.Memory.Invariant.{Inv}
use lymbo.Memory.Preserve.{delete_one-Inv}

-- Only stored tickets wait.
abbrev pub WaitersStored : Store → Type 0
WaitersStored s =
    (f b : String) → contains b (blockers f s.deps) ≡ true → test_at f (λ _. true) s.entries ≡ true

lookup-delete_one :
    (id k : String) (s : Store)
    → lookup k (delete_one id s).0.entries ≡ (if id == k then none else lookup k s.entries)
unfolding delete_one
lookup-delete_one id k s = ground (arith, eq_iff id k, lookup-remove id k s.entries)

pub lookup-delete_batch :
    (ids : List String) (k : String) (s : Store)
    → lookup k (delete_batch ids s).0.entries
      ≡ (if contains k ids then none else lookup k s.entries)
unfolding delete_batch contains
lookup-delete_batch [] k s = refl
lookup-delete_batch (id ∷ ids) k s =
    ground (arith, lookup-delete_one id k s, lookup-delete_batch ids k (delete_one id s).0)

blockers-delete_one :
    (id f b : String) (s : Store)
    → Inv s
    → WaitersStored s
    → contains b (blockers f (delete_one id s).0.deps)
      ≡ (not (id == f) && not (id == b) && contains b (blockers f s.deps))
unfolding delete_one
blockers-delete_one id f b s v w =
    ground (arith, blockers-remove_dep id f b s.deps, v.waits f b, w f b, eq_iff id f, eq_iff id b)

delete_one-WaitersStored :
    (id : String) (s : Store) → Inv s → WaitersStored s → WaitersStored (delete_one id s).0
delete_one-WaitersStored id s v w =
    λ f b h. ground (arith, h, blockers-delete_one id f b s v w, lookup-delete_one id f s, w f b)

-- Nobody waits for a deleted ticket and a deleted ticket does not wait; other waits stay.
pub blockers-delete_batch :
    (ids : List String) (f b : String) (s : Store)
    → Inv s
    → WaitersStored s
    → contains b (blockers f (delete_batch ids s).0.deps)
      ≡ (not (contains f ids) && not (contains b ids) && contains b (blockers f s.deps))
unfolding delete_batch contains
blockers-delete_batch [] f b s v w = refl
blockers-delete_batch (id ∷ ids) f b s v w = ground (
  arith,
  blockers-delete_one id f b s v w,
  blockers-delete_batch ids f b (delete_one id s).0 (delete_one-Inv id s v)
      (delete_one-WaitersStored id s v w),
)
