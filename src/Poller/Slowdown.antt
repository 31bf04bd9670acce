-- ===== src/Poller/Slowdown.antt =====
-- How the poller of kharon.go slows down and speeds up.
use lymbo.Base.{
  ℕ, zero, suc, ◌+◌, ◌-◌, ◌≤◌, ◌<◌, ◌≡◌, ℤ, pos, List, [], ◌∷◌, true, arith, if◌then◌else◌, all,
  length, nat_eq, leb,
}
use lymbo.Poller.{next_slowdown}

-- The slowdown after polls with these numbers of tickets.
unfoldable pub slowdown_after : ℤ → List ℕ → ℕ → ℕ
slowdown_after batch [] n = n
slowdown_after batch (size ∷ sizes) n = slowdown_after batch sizes (next_slowdown batch size n)

-- A full batch brings the poller to full speed. A poll without tickets slows it down by one step, and
-- any other poll speeds it up by one step, unless it is at full speed.
pub next_slowdown_lem :
    (batch size n : ℕ)
    → 0 < batch
    → next_slowdown (pos batch) size n
      ≡ (if nat_eq size 0 then n + 1 else if nat_eq size batch then 0 else n - 1)
unfolding next_slowdown
next_slowdown_lem batch zero n h = ground arith
next_slowdown_lem batch (suc size) zero h = ground arith
next_slowdown_lem batch (suc size) (suc n) h = ground arith

-- After as many polls with tickets as the slowdown counts, the poller is at full speed, and it stays so
-- while each poll returns a ticket.
pub full_speed :
    (batch : ℕ) (sizes : List ℕ) (n : ℕ)
    → 0 < batch
    → all (λ size. leb 1 size) sizes ≡ true
    → n ≤ length sizes
    → slowdown_after (pos batch) sizes n ≡ 0
unfolding slowdown_after all
full_speed batch [] n p h k = omega arith
full_speed batch (size ∷ sizes) n p h k =
    full_speed batch sizes (next_slowdown (pos batch) size n) p (ground arith)
      (ground (arith, next_slowdown_lem batch size n p))
