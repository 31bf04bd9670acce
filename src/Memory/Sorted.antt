-- ===== src/Memory/Sorted.antt =====
-- What PollPending assumes of `sort.Slice`, and what follows of a sorted list.
use mathlib.Core.List.{Mem}
use lymbo.Base.{
  ◌≡◌, refl, List, [], ◌∷◌, ◌++◌, Bool, true, false, not, arith, all, all-take, all-append, Perm,
  take, ℕ, zero, suc, map,
}
use lymbo.Base.Members.{all-mem, all-map}
use lymbo.Ticket.{Ticket}
use lymbo.Memory.Poll.{precedes, with_ready_at}

-- A strict weak order, as `sort.Slice` wants of its `less`.
pub record IsStrictWeak {ℓ} {A : Type ℓ} (less : A → A → Bool) : Type ℓ where
  pub irrefl : (x : A) → less x x ≡ false
  pub trans : (x y z : A) → less x y ≡ true → less y z ≡ true → less x z ≡ true
  pub tied : (x y z : A) → less x y ≡ false → less y z ≡ false → less x z ≡ false

-- No entry precedes one that stands before it.
abbrev pub Sorted {ℓ} : {A : Type ℓ} → (A → A → Bool) → List A → Type 0
Sorted less [] = Unit {0}
Sorted less (x ∷ xs) = (all (λ y. not (less y x)) xs ≡ true) × Sorted less xs

-- `sort.Slice` permutes the slice, and sorts it by a strict weak order.
pub record IsSortSlice (sort_slice : (Ticket → Ticket → Bool) → List Ticket → List Ticket)
    : Type 0 where
  pub permutes : (less : Ticket → Ticket → Bool) (xs : List Ticket) → Perm (sort_slice less xs) xs
  pub sorts :
      (less : Ticket → Ticket → Bool)
      → IsStrictWeak less
      → (xs : List Ticket) → Sorted less (sort_slice less xs)

pub precedes-IsStrictWeak : IsStrictWeak precedes
unfolding precedes
precedes-IsStrictWeak = record {
  irrefl = λ x. ground arith;
  trans = λ x y z h k. ground arith;
  tied = λ x y z h k. ground arith;
}

module _ {ℓ} {A : Type ℓ} (less : A → A → Bool) where
  pub Sorted-take : (n : ℕ) (xs : List A) → Sorted less xs → Sorted less (take n xs)
  unfolding all
  Sorted-take zero xs h = tt
  Sorted-take (suc n) [] h = tt
  Sorted-take (suc n) (x ∷ xs) h = (all-take (λ y. not (less y x)) n xs h.0, Sorted-take n xs h.1)

  -- What stands behind a prefix precedes none of its entries.
  pub not_precedes :
      (xs ys : List A) (u : A)
      → Sorted less (xs ++ ys)
      → Mem u ys
      → all (λ t. not (less u t)) xs ≡ true
  unfolding all
  not_precedes [] ys u h m = refl
  not_precedes (x ∷ xs) ys u h m = ground (
    arith,
    all-append (λ y. not (less y x)) xs ys,
    all-mem (λ y. not (less y x)) u m,
    not_precedes xs ys u h.1 m,
  )

-- The copy of Runat into ReadyAt does not change the order.
pub Sorted-with_ready_at :
    (ts : List Ticket) → Sorted precedes ts → Sorted precedes (map with_ready_at ts)
unfolding all precedes
Sorted-with_ready_at [] h = tt
Sorted-with_ready_at (t ∷ ts) h = (
  rw (all-map (λ y. not (precedes y (with_ready_at t))) with_ready_at ts) h.0,
  Sorted-with_ready_at ts h.1,
)
