-- ===== src/Base/Counts.antt =====
-- Two maps with the same lookups count the same entries, whatever the order of the entries is.
use lymbo.Base.{
  String, ◌+◌, ◌≡◌, refl, sym, List, [], ◌∷◌, none, some, Bool, false, arith, eq_iff, if◌then◌else◌,
  count, lookup, remove, lookup-remove, remove-IsMap, IsMap,
}

module _ {ℓ} {V : Type ℓ} where
  -- Whether the entry of a key passes a test on the key and the value.
  abbrev pub passes_at : String → (String → V → Bool) → List (String × V) → Bool
  passes_at k p m = elim (lookup k m) [ none ↦ false | some v ↦ p k v ]

  remove_absent : (k : String) (m : List (String × V)) → lookup k m ≡ none → remove k m ≡ m
  unfolding lookup remove
  remove_absent k [] h = refl
  remove_absent k ((j, v) ∷ m) h = ground (arith, remove_absent k m)

  count-remove :
      (p : String → V → Bool) (k : String) (m : List (String × V))
      → IsMap m
      → count (λ e. p e.0 e.1) m
        ≡ (if passes_at k p m then 1 else 0) + count (λ e. p e.0 e.1) (remove k m)
  unfolding count lookup remove
  count-remove p k [] h = omega arith
  count-remove p k ((j, v) ∷ m) h =
      ground (arith, eq_iff j k, count-remove p k m h.1, remove_absent k m)

  none_pass :
      (p : String → V → Bool) (m : List (String × V))
      → IsMap m
      → ((k : String) → passes_at k p m ≡ false)
      → count (λ e. p e.0 e.1) m ≡ 0
  unfolding count lookup
  none_pass p [] h no_pass = refl
  none_pass p ((j, v) ∷ m) h no_pass = ground (
    arith,
    no_pass j,
    eq_iff j j,
    none_pass p m h.1 (λ k. ground (arith, no_pass k, eq_iff j k, h.0)),
  )

-- The maps may hold values of different types.
pub count-maps {ℓ κ} :
    {V : Type ℓ} {W : Type κ} (p : String → V → Bool) (q : String → W → Bool)
    (m : List (String × V)) (n : List (String × W))
    → IsMap m
    → IsMap n
    → ((k : String) → passes_at k p m ≡ passes_at k q n)
    → count (λ e. p e.0 e.1) m ≡ count (λ e. q e.0 e.1) n
unfolding count lookup
count-maps p q [] n h i same = sym (none_pass q n i (λ k. sym (same k)))
count-maps p q ((j, v) ∷ m) n h i same = ground (
  arith,
  same j,
  eq_iff j j,
  count-remove q j n i,
  count-maps p q m (remove j n) h.1 (remove-IsMap j n i)
      (λ k. ground (arith, same k, eq_iff j k, h.0, lookup-remove j k n)),
)
