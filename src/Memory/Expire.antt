-- ===== src/Memory/Expire.antt =====
-- ExpireTickets of store/memory/memory.go.
use text.Mathlib.TextEquality.{IsScalar-prop}
use lymbo.Base.{
  contains, ℕ, ◌+◌, ◌≤◌, String, ◌≡◌, ◌∙◌, sym, inl, inr, ℤ, pos, eqb_ℤ, List, [], ◌∷◌, ◌++◌, none,
  some, true, false, arith, ◌==◌, eq_iff, Bool-cases, length, length-append, lookup, remove,
  lookup-remove, remove-IsMap, length-remove, IsMap, Perm,
}
use lymbo.Base.Range.{IsMap-perm, lookup-perm}
use lymbo.Status.{pending, is}
use lymbo.Ticket.{Ticket, TransitionInfo, info_of}
use lymbo.Memory.{Tickets, Store, blockers, is_expired, expire_loop, expire_tickets}
use lymbo.Memory.Invariant.{Inv, erase-Inv, unwaited}

pub Ticket-set : IsSet Ticket
Ticket-set = hlevel IsScalar-prop

expired_not_pending : (now : ℤ) (t : Ticket) → is_expired now t ≡ true → is t.status pending ≡ false
unfolding is_expired
expired_not_pending now t h = ground arith

-- What the loop has yet to visit still stands in the map.
abbrev Held : Tickets → Tickets → Type 0
Held rest left = (k : String) (t : Ticket) → lookup k rest ≡ some t → lookup k left ≡ some t

Held-tail :
    (tid : String) (t : Ticket) (rest left : Tickets)
    → IsMap ((tid, t) ∷ rest)
    → Held ((tid, t) ∷ rest) left
    → Held rest left
unfolding lookup
Held-tail tid t rest left m h k u e = ground (arith, eq_iff tid k, h k u)

Held-remove :
    (tid : String) (t : Ticket) (rest left : Tickets)
    → IsMap ((tid, t) ∷ rest)
    → Held ((tid, t) ∷ rest) left
    → Held rest (remove tid left)
unfolding lookup
Held-remove tid t rest left m h k u e =
    ground (arith, eq_iff tid k, h k u, lookup-remove tid k left)

Held-head :
    (tid : String) (t : Ticket) (rest left : Tickets)
    → Held ((tid, t) ∷ rest) left
    → lookup tid left ≡ some t
unfolding lookup
Held-head tid t rest left h = ground (arith, eq_iff tid tid, h tid t)

-- A rule for the loop: what each deletion keeps, the loop keeps.
module _ {ℓ} (limit now : ℤ) (P : Tickets → List TransitionInfo → Type ℓ)
    (keep : (tid : String) (t : Ticket) (left : Tickets) (infos : List TransitionInfo)
      → lookup tid left ≡ some t
      → is_expired now t ≡ true
      → eqb_ℤ (pos (length infos)) limit ≡ false
      → P left infos
      → P (remove tid left) (infos ++ info_of t ∷ [])) where
  loop_rule :
      (rest left : Tickets) (infos : List TransitionInfo)
      → IsMap rest
      → Held rest left
      → P left infos
      → let r = expire_loop limit now rest left infos in P r.0 r.1
  unfolding expire_loop
  loop_rule [] left infos m h p = p
  loop_rule ((tid, t) ∷ rest) left infos m h p =
      elim (Bool-cases (eqb_ℤ (pos (length infos)) limit)) [
        | inl full ↦ rw full p
        | inr room ↦ elim (Bool-cases (is_expired now t)) [
          | inl old ↦
              rw (room, old)
                (loop_rule rest (remove tid left) (infos ++ info_of t ∷ []) m.1
                  (Held-remove tid t rest left m h)
                  (keep tid t left infos (Held-head tid t rest left h) old room p))
          | inr young ↦
              rw (room, young) (loop_rule rest left infos m.1 (Held-tail tid t rest left m h) p)
        ]
      ]

module _ (range : Tickets → Tickets) (shuffle : (m : Tickets) → Perm (range m) m) (limit now : ℤ)
    (s : Store) (v : Inv s) where
  pub expire_rule {ℓ} :
      (P : Tickets → List TransitionInfo → Type ℓ)
      → ((tid : String) (t : Ticket) (left : Tickets) (infos : List TransitionInfo)
          → lookup tid left ≡ some t
          → is_expired now t ≡ true
          → eqb_ℤ (pos (length infos)) limit ≡ false
          → P left infos
          → P (remove tid left) (infos ++ info_of t ∷ []))
      → P s.entries []
      → let r = expire_tickets range limit now s in P r.0.entries r.1
  unfolding expire_tickets
  expire_rule P keep p =
      loop_rule limit now P keep (range s.entries) s.entries []
        (IsMap-perm (shuffle s.entries) v.entries_map)
        (λ k t e. sym (lookup-perm Ticket-set k (shuffle s.entries) v.entries_map) ∙ e) p

  pub expire_tickets-Inv : Inv (expire_tickets range limit now s).0
  unfolding expire_tickets
  expire_tickets-Inv =
      expire_rule (λ left infos. Inv (record s { entries = left }))
        (λ tid t left infos found old room i.
          erase-Inv (record s { entries = left }) tid s.deps i i.deps_map
            (λ f b h. (h, not_waited tid t left i found old f b h)))
        v
    where
      not_waited :
          (tid : String) (t : Ticket) (left : Tickets)
          → Inv (record s { entries = left })
          → lookup tid left ≡ some t
          → is_expired now t ≡ true
          → (f b : String) → contains b (blockers f s.deps) ≡ true
          → (tid == b) ≡ false
      not_waited tid t left i found old f b h = ground (
        arith,
        eq_iff tid b,
        unwaited (record s { entries = left }) f b t i,
        expired_not_pending now t old,
      )

  -- Where the store has the invariant and the loop visits each entry once, a ticket that is
  -- pending, or not due yet, is still there afterwards.
  pub expire_tickets_safe :
      (k : String) (t : Ticket)
      → lookup k s.entries ≡ some t
      → is_expired now t ≡ false
      → lookup k (expire_tickets range limit now s).0.entries ≡ some t
  expire_tickets_safe k t e young =
      expire_rule (λ left infos. lookup k left ≡ some t)
        (λ tid u left infos found old room p.
          ground (arith, eq_iff tid k, lookup-remove tid k left))
        e

  -- Where the store has the invariant and the loop visits each entry once, as many tickets are
  -- gone as are reported.
  pub expire_tickets_count :
      let r = expire_tickets range limit now s in length r.0.entries + length r.1 ≡ length s.entries
  expire_tickets_count =
      (expire_rule (λ left infos. IsMap left × (length left + length infos ≡ length s.entries))
        (λ tid t left infos found old room p. (
          remove-IsMap tid left p.0,
          omega (
            arith,
            length-remove tid left t p.0 found,
            length-append infos (info_of t ∷ []),
            p.1,
          ),
        ))
        (v.entries_map, omega arith)).1

  -- Where the store has the invariant and the loop visits each entry once, a limit that is not
  -- negative bounds the number of reported tickets.
  pub expire_tickets_limit :
      (n : ℕ) → limit ≡ pos n → length (expire_tickets range limit now s).1 ≤ n
  expire_tickets_limit n e =
      expire_rule (λ left infos. length infos ≤ n)
        (λ tid t left infos found old room p. ground (arith, length-append infos (info_of t ∷ [])))
        (omega arith)

gone_stays :
    (limit now : ℤ) (rest left : Tickets) (infos : List TransitionInfo) (k : String)
    → lookup k left ≡ none
    → lookup k (expire_loop limit now rest left infos).0 ≡ none
unfolding expire_loop
gone_stays limit now [] left infos k h = h
gone_stays limit now ((tid, t) ∷ rest) left infos k h = ground (
  arith,
  lookup-remove tid k left,
  gone_stays limit now rest left infos k h,
  gone_stays limit now rest (remove tid left) (infos ++ info_of t ∷ []) k,
)

loop_complete :
    (limit now : ℤ) (rest left : Tickets) (infos : List TransitionInfo) (k : String) (t : Ticket)
    → lookup k rest ≡ some t
    → is_expired now t ≡ true
    → eqb_ℤ (pos (length (expire_loop limit now rest left infos).1)) limit ≡ false
    → lookup k (expire_loop limit now rest left infos).0 ≡ none
unfolding expire_loop lookup
loop_complete limit now [] left infos k t e old room = ground arith
loop_complete limit now ((tid, u) ∷ rest) left infos k t e old room = ground (
  arith,
  eq_iff tid k,
  lookup-remove tid k left,
  gone_stays limit now rest (remove tid left) (infos ++ info_of u ∷ []) k,
  loop_complete limit now rest left infos k t,
  loop_complete limit now rest (remove tid left) (infos ++ info_of u ∷ []) k t,
)

-- No ticket appears.
pub expire_tickets_none :
    (range : Tickets → Tickets) (limit now : ℤ) (s : Store) (k : String)
    → lookup k s.entries ≡ none
    → lookup k (expire_tickets range limit now s).0.entries ≡ none
unfolding expire_tickets
expire_tickets_none range limit now s k = gone_stays limit now (range s.entries) s.entries [] k

-- Where no key stands twice, the loop visits each entry once and the number of reported tickets is
-- not the limit, no expired ticket is left.
pub expire_tickets_complete :
    (range : Tickets → Tickets) (limit now : ℤ) (s : Store)
    → ((m : Tickets) → Perm (range m) m)
    → IsMap s.entries
    → (k : String) (t : Ticket) → lookup k s.entries ≡ some t
    → is_expired now t ≡ true
    → eqb_ℤ (pos (length (expire_tickets range limit now s).1)) limit ≡ false
    → lookup k (expire_tickets range limit now s).0.entries ≡ none
unfolding expire_tickets
expire_tickets_complete range limit now s shuffle m k t e old room =
    loop_complete limit now (range s.entries) s.entries [] k t
      (lookup-perm Ticket-set k (shuffle s.entries) m ∙ e) old room
