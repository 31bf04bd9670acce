-- ===== src/Base/Range.antt =====
-- A loop over a Go map visits each entry once, in no particular order: the visits are a permutation
-- of the entries. Such a listing is a map itself and has the same lookups.
use mathlib.Core.Logic.{∥∥₁_elim}
use mathlib.Core.List.{Permᴰ}
use lymbo.Base.{
  ℕ, String, ◌≤◌, ◌≡◌, refl, ◌∙◌, List, [], ◌∷◌, none, arith, ◌==◌, eq_iff, count, lookup, IsMap,
  Perm, count-perm,
}

module _ {ℓ} {V : Type ℓ} where
  -- How often a key stands in a list of entries.
  uses : String → List (String × V) → ℕ
  uses k = count (λ e. e.0 == k)

  uses_absent : (k : String) (m : List (String × V)) → lookup k m ≡ none → uses k m ≡ 0
  unfolding uses lookup count
  uses_absent k [] h = refl
  uses_absent k ((j, v) ∷ m) h = ground (arith, uses_absent k m)

  absent_of_uses : (k : String) (m : List (String × V)) → uses k m ≡ 0 → lookup k m ≡ none
  unfolding uses lookup count
  absent_of_uses k [] h = refl
  absent_of_uses k ((j, v) ∷ m) h = ground (arith, absent_of_uses k m)

  uses_once : (k : String) (m : List (String × V)) → IsMap m → uses k m ≤ 1
  unfolding uses count
  uses_once k [] h = omega arith
  uses_once k ((j, v) ∷ m) h = ground (arith, eq_iff j k, uses_absent k m, uses_once k m h.1)

  IsMap-of_uses : (m : List (String × V)) → ((k : String) → uses k m ≤ 1) → IsMap m
  unfolding uses count
  IsMap-of_uses [] h = tt
  IsMap-of_uses ((j, v) ∷ m) h = (
    absent_of_uses j m (ground (arith, h j, eq_iff j j)),
    IsMap-of_uses m (λ k. ground (arith, h k)),
  )

  pub IsMap-perm : {l m : List (String × V)} → Perm l m → IsMap m → IsMap l
  unfolding uses
  IsMap-perm {l} {m} p h =
      IsMap-of_uses l (λ k. omega (arith, count-perm (λ e. e.0 == k) p, uses_once k m h))

  lookup-permᴰ :
      (k : String) {l m : List (String × V)} → Permᴰ l m → IsMap m → lookup k l ≡ lookup k m
  unfolding lookup
  lookup-permᴰ k Permᴰ.nil h = refl
  lookup-permᴰ k (Permᴰ.cons {b = e} p q) h = ground (arith, lookup-permᴰ k q h.1)
  lookup-permᴰ k (Permᴰ.swap {a = e} {b = f} p q) h =
      ground (arith, eq_iff e.0 k, eq_iff f.0 k, eq_iff e.0 f.0, eq_iff f.0 e.0)
  lookup-permᴰ k (Permᴰ.trans p q) h = lookup-permᴰ k p (IsMap-perm ∣ q ∣₁ h) ∙ lookup-permᴰ k q h

  pub lookup-perm :
      IsSet V
      → (k : String) {l m : List (String × V)} → Perm l m
      → IsMap m
      → lookup k l ≡ lookup k m
  lookup-perm set k p h = ∥∥₁_elim p (hlevel set) (λ q. lookup-permᴰ k q h)
