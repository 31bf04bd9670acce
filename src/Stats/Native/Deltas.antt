-- ===== src/Stats/Native/Deltas.antt =====
-- That the deltas of stats/hist.go give the counts back.
use lymbo.Base.{ℕ, ◌^◌, ◌<◌, ◌≡◌, ℤ, pos, ◌+ℤ◌, ◌-ℤ◌, signed64, word64, arith}
use lymbo.Stats.Native.{sub64}

-- A count that is read from a delta and the count before it.
abbrev pub add_delta : ℕ → ℤ → ℕ
add_delta prev d = word64 (pos prev +ℤ d)

pub add_delta-sub64 :
    (prev c : ℕ)
    → prev < 2 ^ 64
    → c < 2 ^ 64
    → add_delta prev (sub64 (signed64 c) (signed64 prev)) ≡ c
unfolding sub64 ◌-ℤ◌ ◌+ℤ◌
add_delta-sub64 prev c h k = ground arith
