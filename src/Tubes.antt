-- ===== src/Tubes.antt =====
-- The subscriptions of a Kharon in kharon.go: Subscribe, Unsubscribe, Tubes and IsSubscribedTo.
-- Their lock makes each atomic. A loop over a map of names takes its order as `range`.
use lymbo.Base.{
  ◌≤◌, String, ◌≡◌, refl, sym, ◌∙◌, List, [], ◌∷◌, ◌++◌, Bool, false, ◌&&◌, ◌||◌, not, arith, ◌==◌,
  eq_iff, if◌then◌else◌, contains, select, count, count-append, count-perm, any, any-perm, Perm,
}
use lymbo.Errors.{Result, ok, err, tubes_not_enabled}
use lymbo.Ticket.{default_tube}

pub record Subscriptions : Type 0 where
  pub tubes : List String
  pub tubeson : Bool

-- The set of the names that are not empty, as a list without repetition.
unfoldable pub name_set : List String → List String
name_set [] = []
name_set (v ∷ vs) = let rest = name_set vs in if v == "" || contains v rest then rest else v ∷ rest

-- delete(add, e) for each tube e
unfoldable pub delete_all : List String → List String → List String
delete_all tubes names = select (λ a. not (contains a tubes)) names

unfoldable pub subscribe :
    (List String → List String) → List String → Subscriptions → Subscriptions × Result (Unit {0})
subscribe range add k =
    if k.tubeson
    then (record k { tubes = k.tubes ++ range (delete_all k.tubes (name_set add)) }, ok tt)
    else (k, err tubes_not_enabled)

unfoldable pub unsubscribe : List String → Subscriptions → Subscriptions × Result (Unit {0})
unsubscribe del k =
    if k.tubeson
    then (record k { tubes = select (λ t. not (contains t del)) k.tubes }, ok tt)
    else (k, err tubes_not_enabled)

-- Tubes
unfoldable pub tubes_of : Subscriptions → List String
tubes_of k = if k.tubeson then k.tubes else default_tube ∷ []

unfoldable pub is_subscribed_to : String → Subscriptions → Bool
is_subscribed_to tube k = if k.tubeson then contains tube k.tubes else tube == default_tube

contains-append :
    (x : String) (xs ys : List String) → contains x (xs ++ ys) ≡ (contains x xs || contains x ys)
unfolding contains
contains-append x [] ys = refl
contains-append x (y ∷ xs) ys = ground (arith, contains-append x xs ys)

contains-any : (x : String) (xs : List String) → contains x xs ≡ any (λ y. y == x) xs
unfolding contains any
contains-any x [] = refl
contains-any x (y ∷ xs) = ground (arith, contains-any x xs)

contains-perm : (x : String) {xs ys : List String} → Perm xs ys → contains x xs ≡ contains x ys
contains-perm x {xs} {ys} p = contains-any x xs ∙ any-perm (λ y. y == x) p ∙ sym (contains-any x ys)

contains-select :
    (p : String → Bool) (x : String) (xs : List String)
    → contains x (select p xs) ≡ (p x && contains x xs)
unfolding contains select
contains-select p x [] = ground arith
contains-select p x (y ∷ xs) = ground (arith, eq_iff y x, contains-select p x xs)

contains-name_set :
    (x : String) (vs : List String) → contains x (name_set vs) ≡ (not (x == "") && contains x vs)
unfolding contains name_set
contains-name_set x [] = ground arith
contains-name_set x (v ∷ vs) =
    ground (arith, eq_iff v x, eq_iff v "", eq_iff x "", contains-name_set x vs)

-- IsSubscribedTo tells whether a tube is among Tubes, with tubes on or off.
pub is_subscribed_to-tubes_of :
    (tube : String) (k : Subscriptions) → is_subscribed_to tube k ≡ contains tube (tubes_of k)
unfolding is_subscribed_to tubes_of contains
is_subscribed_to-tubes_of tube k =
    ground (arith, eq_iff tube default_tube, eq_iff default_tube tube)

-- Where the loop visits each name once, Subscribe adds the names that are not empty and
-- Unsubscribe takes names out, and they do so with tubes on only; with tubes off, both report
-- ErrTubesNotEnabled.
pub subscriptions_after :
    (range : List String → List String) (names : List String) (k : Subscriptions) (x : String)
    → ((m : List String) → Perm (range m) m)
    → let error = if k.tubeson then ok tt else err tubes_not_enabled in
      ((subscribe range names k).1 ≡ error)
      × ((unsubscribe names k).1 ≡ error)
      × (contains x (subscribe range names k).0.tubes
          ≡ (contains x k.tubes || (k.tubeson && not (x == "") && contains x names)))
      × (contains x (unsubscribe names k).0.tubes
          ≡ (contains x k.tubes && not (k.tubeson && contains x names)))
unfolding subscribe unsubscribe delete_all
subscriptions_after range names k x shuffle =
    let fresh = delete_all k.tubes (name_set names) in
    (
      ground arith,
      ground arith,
      ground (
        arith,
        contains-append x k.tubes (range fresh),
        contains-perm x (shuffle fresh),
        contains-select (λ a. not (contains a k.tubes)) x (name_set names),
        contains-name_set x names,
      ),
      ground (arith, contains-select (λ t. not (contains t names)) x k.tubes),
    )

-- No tube stands twice.
abbrev pub NoRepeat : List String → Type 0
NoRepeat ts = (x : String) → count (λ y. y == x) ts ≤ 1

count_absent : (x : String) (xs : List String) → contains x xs ≡ false → count (λ y. y == x) xs ≡ 0
unfolding contains count
count_absent x [] h = refl
count_absent x (y ∷ xs) h = ground (arith, count_absent x xs)

name_set-NoRepeat : (vs : List String) → NoRepeat (name_set vs)
unfolding name_set count
name_set-NoRepeat [] x = omega arith
name_set-NoRepeat (v ∷ vs) x =
    ground (arith, eq_iff v x, count_absent x (name_set vs), name_set-NoRepeat vs x)

select-NoRepeat :
    (p : String → Bool) (xs : List String) (x : String)
    → count (λ y. y == x) (select p xs) ≤ count (λ y. y == x) xs
unfolding select count
select-NoRepeat p [] x = omega arith
select-NoRepeat p (y ∷ xs) x = ground (arith, select-NoRepeat p xs x)

-- Where the loop visits each name once, Subscribe and Unsubscribe never make a tube stand twice.
pub subscriptions-NoRepeat :
    (range : List String → List String) (names : List String) (k : Subscriptions)
    → ((m : List String) → Perm (range m) m)
    → NoRepeat k.tubes
    → NoRepeat (subscribe range names k).0.tubes × NoRepeat (unsubscribe names k).0.tubes
unfolding subscribe unsubscribe delete_all
subscriptions-NoRepeat range names k shuffle once = (
  λ x.
      let fresh = delete_all k.tubes (name_set names) in
      ground (
        arith,
        once x,
        count-append (λ y. y == x) k.tubes (range fresh),
        count-perm (λ y. y == x) (shuffle fresh),
        select-NoRepeat (λ a. not (contains a k.tubes)) (name_set names) x,
        name_set-NoRepeat names x,
        contains-select (λ a. not (contains a k.tubes)) x (name_set names),
        count_absent x fresh,
        count_absent x k.tubes,
      ),
  λ x. ground (arith, once x, select-NoRepeat (λ t. not (contains t names)) k.tubes x),
)
