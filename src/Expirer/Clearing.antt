-- ===== src/Expirer/Clearing.antt =====
-- What the expiration of kharon.go does to the in-memory store.
use lymbo.Base.{
  ◌*◌, ◌<◌, ◌≡◌, ◌⊎◌, inl, inr, String, ℤ, pos, leb_ℤ, ltb_ℤ, ◌||◌, eqb_ℤ, List, [], ◌∷◌, none,
  some, true, false, arith, ◌==◌, Bool-cases, length, lookup, remove, lookup-remove, all, Perm,
}
use lymbo.Errors.{ok}
use lymbo.Ticket.{Ticket}
use lymbo.Memory.{Tickets, Store, is_expired, expire_tickets}
use lymbo.Memory.Invariant.{Inv}
use lymbo.Memory.Expire.{
  expire_rule, expire_tickets-Inv, expire_tickets_count, expire_tickets_complete,
  expire_tickets_safe,
}
use lymbo.Status.{pending, is}
use lymbo.Expirer.{ExpireOps, expiration_batch_size, run_expiration}

abbrev pub memory_expire_ops : (Tickets → Tickets) → ExpireOps Store
memory_expire_ops range = record {
  expire_tickets =
      λ limit now s. let (s', infos) = expire_tickets range limit now s in (s', ok infos);
}

older :
    (now later : ℤ) (t : Ticket)
    → is_expired now t ≡ true
    → leb_ℤ now later ≡ true
    → is_expired later t ≡ true
unfolding is_expired
older now later t old h = ground arith

ended_old :
    (now : ℤ) (t : Ticket)
    → is t.status pending ≡ false
    → leb_ℤ t.runat now ≡ true
    → is_expired now t ≡ true
unfolding is_expired
ended_old now t over due = ground arith

kept_young :
    (last : ℤ) (t : Ticket)
    → (is t.status pending || ltb_ℤ last t.runat) ≡ true
    → is_expired last t ≡ false
unfolding is_expired
kept_young last t young = ground arith

waiting_young : (now : ℤ) (t : Ticket) → is t.status pending ≡ true → is_expired now t ≡ false
unfolding is_expired
waiting_young now t h = ground arith

limit_met :
    {A : Type 0} (xs : List A)
    → eqb_ℤ (pos (length xs)) expiration_batch_size ≡ true
    → length xs ≡ 1000
limit_met xs h = ground arith

module _ (range : Tickets → Tickets) (shuffle : (m : Tickets) → Perm (range m) m) where
  gone_or_same :
      (limit now : ℤ) (s : Store)
      → Inv s
      → (k : String) (t : Ticket) → lookup k s.entries ≡ some t
      → let left = (expire_tickets range limit now s).0.entries in
        (lookup k left ≡ none) ⊎ (lookup k left ≡ some t)
  gone_or_same limit now s v k t e =
      expire_rule range shuffle limit now s v
        (λ left infos. (lookup k left ≡ none) ⊎ (lookup k left ≡ some t))
        (λ tid u left infos found old room p. after tid left p) (inr e)
    where
      after :
          (tid : String) (left : Tickets)
          → (lookup k left ≡ none) ⊎ (lookup k left ≡ some t)
          → (lookup k (remove tid left) ≡ none) ⊎ (lookup k (remove tid left) ≡ some t)
      after tid left p = elim (Bool-cases (tid == k)) [
        | inl hit ↦ inl (ground (arith, lookup-remove tid k left))
        | inr miss ↦ elim p [
          | inl a ↦ inl (ground (arith, lookup-remove tid k left))
          | inr a ↦ inr (ground (arith, lookup-remove tid k left))
        ]
      ]

  gone_stays :
      (limit now : ℤ) (s : Store)
      → Inv s
      → (k : String) → lookup k s.entries ≡ none
      → lookup k (expire_tickets range limit now s).0.entries ≡ none
  gone_stays limit now s v k e =
      expire_rule range shuffle limit now s v (λ left infos. lookup k left ≡ none)
        (λ tid u left infos found old room p. ground (arith, lookup-remove tid k left)) e

  still_gone :
      (ticks : List ℤ) (s : Store)
      → Inv s
      → (k : String) → lookup k s.entries ≡ none
      → lookup k (run_expiration (memory_expire_ops range) ticks s).entries ≡ none
  unfolding run_expiration
  still_gone [] s v k e = e
  still_gone (now ∷ ticks) s v k e =
      still_gone ticks (expire_tickets range expiration_batch_size now s).0
        (expire_tickets-Inv range shuffle expiration_batch_size now s v) k
        (gone_stays expiration_batch_size now s v k e)

  clears :
      (now : ℤ) (ticks : List ℤ) (s : Store)
      → Inv s
      → (k : String) (t : Ticket) → lookup k s.entries ≡ some t
      → is_expired now t ≡ true
      → all (leb_ℤ now) ticks ≡ true
      → length s.entries < 1000 * length ticks
      → lookup k (run_expiration (memory_expire_ops range) ticks s).entries ≡ none
  unfolding run_expiration all
  clears now [] s v k t e old late many = absurd (omega (arith, many))
  clears now (tick ∷ ticks) s v k t e old late many =
      let r = expire_tickets range expiration_batch_size tick s in
      let v' = expire_tickets-Inv range shuffle expiration_batch_size tick s v in
      elim (gone_or_same expiration_batch_size tick s v k t e) [
        | inl gone ↦ still_gone ticks r.0 v' k gone
        | inr same ↦ elim (Bool-cases (eqb_ℤ (pos (length r.1)) expiration_batch_size)) [
          | inl full ↦ clears now ticks r.0 v' k t same old (ground (arith, late)) (
              omega (
                arith,
                many,
                expire_tickets_count range shuffle expiration_batch_size tick s v,
                limit_met r.1 full,
              ))
          | inr few ↦ still_gone ticks r.0 v' k (
              expire_tickets_complete range expiration_batch_size tick s shuffle v.entries_map k t e
                (older now tick t old (ground arith)) few)
        ]
      ]

  keeps :
      (last : ℤ) (ticks : List ℤ) (s : Store)
      → Inv s
      → (k : String) (t : Ticket) → lookup k s.entries ≡ some t
      → is_expired last t ≡ false
      → all (λ tick. leb_ℤ tick last) ticks ≡ true
      → lookup k (run_expiration (memory_expire_ops range) ticks s).entries ≡ some t
  unfolding run_expiration all
  keeps last [] s v k t e young early = e
  keeps last (tick ∷ ticks) s v k t e young early =
      keeps last ticks (expire_tickets range expiration_batch_size tick s).0
        (expire_tickets-Inv range shuffle expiration_batch_size tick s v) k t
        (expire_tickets_safe range shuffle expiration_batch_size tick s v k t e
          (ground (arith, Bool-cases (is_expired tick t), older tick last t)))
        young (ground (arith, early))

  -- Let the expiration worker tick over an in-memory store with the invariant, at times from `now` to
  -- `last`, and let no other call change the store between. After more ticks than a thousandth of the number of stored
  -- tickets, each ticket that had ended and was due at `now` is gone, and each ticket that is
  -- pending, or due only after `last`, is as before.
  pub run_expiration_clears :
      (now last : ℤ) (ticks : List ℤ) (s : Store)
      → Inv s
      → all (leb_ℤ now) ticks ≡ true
      → all (λ tick. leb_ℤ tick last) ticks ≡ true
      → length s.entries < 1000 * length ticks
      → (k : String) (t : Ticket) → lookup k s.entries ≡ some t
      → is t.status pending ≡ false
      → leb_ℤ t.runat now ≡ true
      → (k' : String) (t' : Ticket) → lookup k' s.entries ≡ some t'
      → (is t'.status pending || ltb_ℤ last t'.runat) ≡ true
      → let after = run_expiration (memory_expire_ops range) ticks s in
        (lookup k after.entries ≡ none) × (lookup k' after.entries ≡ some t')
  run_expiration_clears now last ticks s v late early many k t e over due k' t' e' young = (
    clears now ticks s v k t e (ended_old now t over due) late many,
    keeps last ticks s v k' t' e' (kept_young last t' young) early,
  )
