-- ===== src/Tests/Parts.antt =====
-- Runs of the parts around the store: statuses, settings, tubes, routers and counters.
use lymbo.Base.{ℕ, ◌≡◌, pos, arith, if◌then◌else◌, nat_eq, ◌+ℤ◌}
use lymbo.Errors.{Result, ok, err, handler_not_found}
use lymbo.Stats.Histogram.{new_hist, inc_bucket}
use lymbo.Stats.Histogram.Buckets.{bucket, bucket-inc_bucket}
use lymbo.Ticket.{Ticket}

-- Handlers that are numbers; the handler 0 fails.
abbrev run : ℕ → Ticket → Result (Unit {0})
run n t = if nat_eq n 0 then err handler_not_found else ok tt

abbrev one : ℕ
one = 1

bucket-inc_bucket_example : bucket (pos 4) (inc_bucket (pos 4) (new_hist (pos 2))) ≡ 1
unfolding ◌+ℤ◌
bucket-inc_bucket_example = bucket-inc_bucket (pos 4) (pos 4) (new_hist (pos 2)) (record {
  low = omega arith;
  high = omega arith;
  offset_low = omega arith;
  last_high = omega arith;
})
