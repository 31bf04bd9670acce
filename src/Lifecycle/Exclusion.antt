-- ===== src/Lifecycle/Exclusion.antt =====
-- That at most one call of Run is at work on a Kharon, and what a return of Stop means.
use lymbo.Base.{
  Bool, ℕ, suc, ◌≡◌, refl, ◌↔◌, List, [], ◌∷◌, Option, none, some, true, false, not, arith, nat_eq,
  select, any, all, leb, is_empty,
}
use lymbo.Errors.{Error, ok, err, already_running}
use lymbo.Lifecycle.{
  Life, new_life, run_begins, run_unlocks, run_cancels, run_closes, stop_cancels, stop_may_return,
}

-- The calls of Run that are past their start and not yet at the unlock of their end, and those behind it
-- that have yet to close their channel, beside the Kharon, after any steps of any number of calls of
-- Run and Stop.
pub data Steps : Life → List ℕ → List ℕ → Type 0 where
  fresh : Steps new_life [] []
  began :
      {l l' : Life} {running leaving : List ℕ} (id : ℕ)
      → Steps l running leaving
      → run_begins l ≡ (l', ok id)
      → Steps l' (id ∷ running) leaving
  refused :
      {l l' : Life} {running leaving : List ℕ} (e : Error)
      → Steps l running leaving
      → run_begins l ≡ (l', err e)
      → Steps l' running leaving
  unlocked :
      {l : Life} {running leaving : List ℕ} (id : ℕ)
      → Steps l running leaving
      → any (λ r. nat_eq r id) running ≡ true
      → Steps (run_unlocks l) (select (λ r. not (nat_eq r id)) running) (id ∷ leaving)
  left :
      {l : Life} {running leaving : List ℕ} (id : ℕ)
      → Steps l running leaving
      → any (λ r. nat_eq r id) leaving ≡ true
      → Steps (run_cancels id l) running leaving
  closes :
      {l : Life} {running leaving : List ℕ} (id : ℕ)
      → Steps l running leaving
      → any (λ r. nat_eq r id) leaving ≡ true
      → Steps (run_closes id l) running (select (λ r. not (nat_eq r id)) leaving)
  cancelled :
      {l : Life} {running leaving : List ℕ} (seen : Option ℕ)
      → Steps l running leaving
      → Steps (stop_cancels seen l) running leaving

-- The run that the Kharon names is the one that is at work; its number has been given out, and no
-- closed channel is its own, nor that of a call behind its unlock.
pub record Exclusive (l : Life) (running leaving : List ℕ) : Type 0 where
  pub alone : running ≡ elim l.run_done [ none ↦ [] | some id ↦ id ∷ [] ]
  pub given : all (λ r. leb (suc r) l.made) running ≡ true
  pub past : all (λ c. leb (suc c) l.made) l.closed ≡ true
  pub past_leaving : all (λ c. leb (suc c) l.made) leaving ≡ true
  pub open_still :
      (id : ℕ) → any (λ c. nat_eq c id) l.closed ≡ true → any (λ r. nat_eq r id) running ≡ false
  pub apart :
      (id : ℕ) → any (λ c. nat_eq c id) leaving ≡ true → any (λ r. nat_eq r id) running ≡ false

all-suc :
    (n : ℕ) (xs : List ℕ)
    → all (λ c. leb (suc c) n) xs ≡ true
    → all (λ c. leb (suc c) (suc n)) xs ≡ true
unfolding all
all-suc n [] h = refl
all-suc n (x ∷ xs) h = ground (arith, all-suc n xs)

not_given :
    (n : ℕ) (xs : List ℕ) → all (λ c. leb (suc c) n) xs ≡ true → any (λ c. nat_eq c n) xs ≡ false
unfolding all any
not_given n [] h = refl
not_given n (x ∷ xs) h = ground (arith, not_given n xs)

made_at :
    (n id : ℕ) (xs : List ℕ)
    → all (λ c. leb (suc c) n) xs ≡ true
    → any (λ c. nat_eq c id) xs ≡ true
    → leb (suc id) n ≡ true
unfolding all any
made_at n id [] h k = absurd (ground (arith, k))
made_at n id (x ∷ xs) h k = ground (arith, made_at n id xs)

all-select : (p q : ℕ → Bool) (xs : List ℕ) → all p xs ≡ true → all p (select q xs) ≡ true
unfolding all select
all-select p q [] h = refl
all-select p q (x ∷ xs) h = ground (arith, all-select p q xs)

any-select : (p q : ℕ → Bool) (xs : List ℕ) → any p (select q xs) ≡ true → any p xs ≡ true
unfolding any select
any-select p q [] h = h
any-select p q (x ∷ xs) h = ground (arith, any-select p q xs)

-- At most one call of Run is at work, and it is the one that the Kharon names; and the channel of a
-- call that is at work is not closed.
pub steps-Exclusive :
    {l : Life} {running leaving : List ℕ} → Steps l running leaving → Exclusive l running leaving
unfolding run_begins run_unlocks run_cancels run_closes stop_cancels all any select
steps-Exclusive fresh = record {
  alone = refl;
  given = refl;
  past = refl;
  past_leaving = refl;
  open_still = λ id h. refl;
  apart = λ id h. refl;
}
steps-Exclusive (began {l = l} {leaving = leaving} id s e) =
    let v = steps-Exclusive s in
    record {
      alone = ground (arith, v.alone);
      given = ground (arith, v.alone);
      past = ground (arith, all-suc l.made l.closed v.past);
      past_leaving = ground (arith, all-suc l.made leaving v.past_leaving);
      open_still = λ c h. ground (arith, v.alone, not_given l.made l.closed v.past);
      apart = λ c h. ground (arith, v.alone, not_given l.made leaving v.past_leaving);
    }
steps-Exclusive (refused {l = l} {running = running} {leaving = leaving} x s e) =
    let v = steps-Exclusive s in
    record {
      alone = ground (arith, v.alone);
      given = ground (arith, all-suc l.made running v.given);
      past = ground (arith, all-suc l.made l.closed v.past);
      past_leaving = ground (arith, all-suc l.made leaving v.past_leaving);
      open_still = λ c h. ground (arith, v.open_still c);
      apart = v.apart;
    }
steps-Exclusive (unlocked id s at_work) =
    let v = steps-Exclusive s in
    record {
      alone = ground (arith, v.alone);
      given = ground (arith, v.alone, v.given);
      past = v.past;
      past_leaving = ground (arith, v.past_leaving, v.alone, v.given);
      open_still = λ c h. ground (arith, v.alone);
      apart = λ c h. ground (arith, v.alone);
    }
steps-Exclusive (left id s behind) =
    let v = steps-Exclusive s in
    record {
      alone = v.alone;
      given = v.given;
      past = v.past;
      past_leaving = v.past_leaving;
      open_still = v.open_still;
      apart = v.apart;
    }
steps-Exclusive (closes {l = l} {leaving = leaving} id s behind) =
    let v = steps-Exclusive s in
    record {
      alone = v.alone;
      given = v.given;
      past = ground (arith, v.past, made_at l.made id leaving v.past_leaving behind);
      past_leaving = all-select _ (λ r. not (nat_eq r id)) leaving v.past_leaving;
      open_still = λ c h. ground (arith, h, v.open_still c, v.apart id behind);
      apart = λ c h. v.apart c (any-select _ (λ r. not (nat_eq r id)) leaving h);
    }
steps-Exclusive (cancelled seen s) =
    let v = steps-Exclusive s in
    record {
      alone = ground (arith, v.alone);
      given = ground (arith, v.given);
      past = ground (arith, v.past);
      past_leaving = ground (arith, v.past_leaving);
      open_still = λ c h. ground (arith, v.open_still c);
      apart = v.apart;
    }

-- A call of Run is refused exactly if a call of Run is at work.
pub run_begins_iff :
    {l : Life} {running leaving : List ℕ}
    → Steps l running leaving
    → ((run_begins l).1 ≡ err already_running) ↔ (is_empty running ≡ false)
unfolding run_begins
run_begins_iff s =
    let v = steps-Exclusive s in (λ h. ground (arith, v.alone), λ h. ground (arith, v.alone))

-- In any state in which Stop may return nil, the call of Run that it saw is not at work.
pub stop_waited :
    {l : Life} {running leaving : List ℕ} (id : ℕ)
    → Steps l running leaving
    → stop_may_return (some id) l ≡ true
    → any (λ r. nat_eq r id) running ≡ false
unfolding stop_may_return
stop_waited id s h = (steps-Exclusive s).open_still id h
