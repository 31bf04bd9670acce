-- ===== src/Memory/Release.antt =====
-- When the deletions of store/memory/memory.go let a finalizer go.
use lymbo.Base.{
  String, ◌≡◌, ◌∙◌, sym, ap, inl, inr, leb_ℤ, List, [], ◌∷◌, some, Bool, true, false, ◌&&◌, arith,
  eq_iff, Bool-cases, all, contains, lookup, nat_eq, length,
}
use lymbo.Status.{pending, is}
use lymbo.Ticket.{Ticket, PollRequest}
use lymbo.Memory.{Store, blockers, delete_batch}
use lymbo.Memory.Invariant.{Inv}
use lymbo.Memory.Polling.{is_due}
use lymbo.Memory.Finalizers.{no_members, some_member}
use lymbo.Memory.Erasure.{WaitersStored, lookup-delete_batch, blockers-delete_batch}

all-contains :
    (p : String → Bool) (b : String) (xs : List String)
    → all p xs ≡ true
    → contains b xs ≡ true
    → p b ≡ true
unfolding all contains
all-contains p b [] h m = absurd (ground (arith, m))
all-contains p b (x ∷ xs) h m = ground (arith, eq_iff x b, all-contains p b xs)

left_over :
    (p : String → Bool) (xs : List String)
    → all p xs ≡ false
    → (b : String) × (contains b xs ≡ true) × (p b ≡ false)
unfolding all contains
left_over p [] h = absurd (ground (arith, h))
left_over p (x ∷ xs) h = elim (Bool-cases (p x)) [
  | inl e ↦ let (b, m, n) = left_over p xs (ground (arith, h, e)) in (b, ground (arith, m), n)
  | inr e ↦ (x, ground (arith, eq_iff x x), e)
]

module _ (ids : List String) (s : Store) (v : Inv s) (stored : WaitersStored s) (t : Ticket)
    (kept : contains t.id ids ≡ false) where
  abbrev after : Store
  after = (delete_batch ids s).0

  free :
      nat_eq (length (blockers t.id after.deps)) 0
      ≡ all (λ b. contains b ids) (blockers t.id s.deps)
  free = elim (Bool-cases (all (λ b. contains b ids) (blockers t.id s.deps))) [
    | inl gone ↦
        ap (λ n. nat_eq n 0)
          (no_members (blockers t.id after.deps) (λ b. ground (
            arith,
            blockers-delete_batch ids t.id b s v stored,
            all-contains (λ x. contains x ids) b (blockers t.id s.deps) gone,
            Bool-cases (contains b (blockers t.id s.deps)),
          )))
        ∙ sym gone
    | inr rest ↦
        let (b, m, n) = left_over (λ x. contains x ids) (blockers t.id s.deps) rest in
        some_member b (blockers t.id after.deps)
          (ground (arith, blockers-delete_batch ids t.id b s v stored, m, n, kept))
        ∙ sym rest
  ]

  -- In a store with the invariant, in which only stored tickets wait: DeleteBatch leaves a stored ticket
  -- that it does not delete, and lets it be due exactly if it is pending, its Runat is reached, its tube is
  -- requested, and each ticket that it waited for is among the deleted ones.
  pub delete_batch_releases :
      (req : PollRequest)
      → lookup t.id s.entries ≡ some t
      → (lookup t.id (delete_batch ids s).0.entries ≡ some t)
        × (is_due req (delete_batch ids s).0 t ≡ (
            is t.status pending
            && leb_ℤ t.runat req.now
            && contains t.tube req.request_tubes
            && all (λ b. contains b ids) (blockers t.id s.deps)))
  delete_batch_releases req at =
      (ground (arith, lookup-delete_batch ids t.id s, at, kept), ground (arith, free))
