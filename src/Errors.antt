-- ===== src/Errors.antt =====
-- errors.go, and the other error values of the package: ticket.go, router.go, status/status.go.
-- A Go function that returns an error returns a `Result`.
use lymbo.Base.{String, ◌≡◌, refl, ◌⊎◌, inl, inr}

pub data Error : Type 0 where
  handler_not_found limit_invalid ticket_id_empty ticket_id_invalid ticket_not_found : Error
  invalid_status_transition finalizer_in_group tubes_not_enabled already_running : Error
  tid_empty type_empty tube_empty : Error
  status_unknown invalid_json : Error
  route_empty handler_nil route_taken : Error
  scale_out_of_range : Error
  no_rows too_many_tubes empty_tube : Error  -- pgx.ErrNoRows, and two texts of store/postgres
  -- An error of code outside the package, such as an option's or a handler's.
  other : String → Error

pub data Result {ℓ} (A : Type ℓ) : Type ℓ where
  ok : A → Result A
  err : Error → Result A

infixl 5 ◌>>=◌
abbrev pub ◌>>=◌ {ℓ κ} : {A : Type ℓ} {B : Type κ} → Result A → (A → Result B) → Result B
ok a >>= f = f a
err e >>= f = err e

-- What a Result is, with the equation kept.
pub Result-cases {ℓ} :
    {A : Type ℓ} (r : Result A) → ((a : A) × (r ≡ ok a)) ⊎ ((failure : Error) × (r ≡ err failure))
Result-cases (err failure) = inr (failure, refl)
Result-cases (ok a) = inl (a, refl)

-- Where a call and what follows it succeed, so does the call.
pub >>=-parts {κ ℓ} :
    {B : Type κ} {A : Type ℓ} {next : A → Result B} (first : Result A) {last : B}
    → (first >>= next) ≡ ok last
    → (middle : A) × (first ≡ ok middle) × (next middle ≡ ok last)
>>=-parts (err failure) e = absurd (cc)
>>=-parts (ok middle) e = (middle, refl, e)
