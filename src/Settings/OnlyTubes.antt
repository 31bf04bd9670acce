-- ===== src/Settings/OnlyTubes.antt =====
-- The tubes that WithOnlyTubes of settings.go keeps.
use lymbo.Base.{
  String, ◌≡◌, refl, ◌∙◌, List, [], ◌∷◌, ◌&&◌, not, arith, ◌==◌, eq_iff, is_empty, contains, select,
}
use lymbo.Base.Order.{
  sort, IsStrict, sort-IsSorted, compact-IsStrict, contains-sort, contains-compact,
}
use lymbo.Settings.{Settings, with_only_tubes}

contains-named :
    (x : String) (names : List String)
    → contains x (select (λ t. not (t == "")) names) ≡ (not (x == "") && contains x names)
unfolding contains select
contains-named x [] = ground arith
contains-named x (t ∷ names) =
    ground (arith, eq_iff t x, eq_iff t "", eq_iff x "", contains-named x names)

-- The tubes come in strictly rising order, so none is repeated. They are the given names but the
-- empty one, and tubes are on exactly if there is one.
pub with_only_tubes_lem :
    (names : List String) (s : Settings)
    → let s' = with_only_tubes names s in
      IsStrict s'.tubes
      × ((x : String) → contains x s'.tubes ≡ (not (x == "") && contains x names))
      × (s'.tubes_on ≡ not (is_empty s'.tubes))
unfolding with_only_tubes
with_only_tubes_lem names s =
    let named = select (λ t. not (t == "")) names in
    (
      compact-IsStrict (sort named) (sort-IsSorted named),
      λ x. contains-compact x (sort named) ∙ contains-sort x named ∙ contains-named x names,
      refl,
    )
