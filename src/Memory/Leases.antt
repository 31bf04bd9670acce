-- ===== src/Memory/Leases.antt =====
-- What PollPending of store/memory/memory.go writes: the leases of the tickets that it hands out.
use mathlib.Core.Option
use mathlib.Core.List.{Mem, mem-cons_self, mem-cons_of_mem}
use lymbo.Base.{
  String, ◌≡◌, refl, inl, inr, List, [], ◌∷◌, some, Bool, true, false, arith, ◌==◌, eq_iff,
  if◌then◌else◌, Bool-cases, leb_ℤ, any, all, lookup, insert, lookup-insert, Perm,
}
use lymbo.Base.Members.{witness}
use lymbo.Status.{pending, is}
use lymbo.Ticket.{Floats, Ticket, PollRequest}
use lymbo.Memory.{Tickets, Store}
use lymbo.Memory.Poll.{leased, lease_all, chosen}
use lymbo.Memory.Invariant.{Inv, write-Inv}
use lymbo.Memory.Sorted.{IsSortSlice}
use lymbo.Memory.Polling.{chosen_stored}

module _ (fl : Floats) (req : PollRequest) where
  -- After the loop the taken ids hold leases of what they held, and all others are untouched.
  pub lookup-lease_all :
      (ts : List Ticket) (m m₀ : Tickets) (k : String)
      → ((t : Ticket) → Mem t ts → lookup t.id m₀ ≡ some t)
      → lookup k (lease_all fl req ts m)
        ≡ (if any (λ t. t.id == k) ts then Option.map (leased fl req) (lookup k m₀) else lookup k m)
  unfolding lease_all any
  lookup-lease_all [] m m₀ k h = refl
  lookup-lease_all (t ∷ ts) m m₀ k h = ground (
    arith,
    eq_iff t.id k,
    h t mem-cons_self,
    lookup-insert t.id k (leased fl req t) m,
    lookup-lease_all ts (insert t.id (leased fl req t) m) m₀ k (λ u n. h u (mem-cons_of_mem t n)),
  )

  pub lease_all-Inv :
      (ts : List Ticket) (s : Store)
      → all (λ t. is t.status pending) ts ≡ true
      → Inv s
      → Inv (record s { entries = lease_all fl req ts s.entries })
  unfolding lease_all all leased
  lease_all-Inv [] s p v = v
  lease_all-Inv (t ∷ ts) s p v =
      lease_all-Inv ts (record s { entries = insert t.id (leased fl req t) s.entries })
        (ground arith)
        (write-Inv s t.id (leased fl req t) s.deps v refl (ground arith) v.deps_map
          (λ f b h. (h, λ e. ground arith)))

module _ (fl : Floats) (sort_slice : (Ticket → Ticket → Bool) → List Ticket → List Ticket)
    (range : Tickets → Tickets) (sorting : IsSortSlice sort_slice)
    (shuffle : (m : Tickets) → Perm (range m) m) where
  -- The entries after the leases of a poll.
  pub lookup-leases :
      (req : PollRequest) (s : Store)
      → Inv s
      → (k : String)
      → let ts = chosen fl sort_slice range req s in
        lookup k (lease_all fl req ts s.entries) ≡ (
          if any (λ t. t.id == k) ts
          then Option.map (leased fl req) (lookup k s.entries)
          else lookup k s.entries)
  lookup-leases req s v k =
      lookup-lease_all fl req (chosen fl sort_slice range req s) s.entries s.entries k
        (λ t m. (chosen_stored fl sort_slice range sorting shuffle req s v t m).0)

  -- A ticket whose lease runs past the time of a poll is not taken by it.
  pub leased_not_chosen :
      (req : PollRequest) (s : Store)
      → Inv s
      → (k : String) (u : Ticket) → lookup k s.entries ≡ some u
      → leb_ℤ u.runat req.now ≡ false
      → any (λ t. t.id == k) (chosen fl sort_slice range req s) ≡ false
  leased_not_chosen req s v k u e late =
      elim (Bool-cases (any (λ t. t.id == k) (chosen fl sort_slice range req s))) [
        | inr no_one ↦ no_one
        | inl some_one ↦
            let (t, m, q) = witness (λ t. t.id == k) (chosen fl sort_slice range req s) some_one in
            let (at, due) = chosen_stored fl sort_slice range sorting shuffle req s v t ∣ m ∣₁ in
            ground (arith, eq_iff t.id k)
      ]
