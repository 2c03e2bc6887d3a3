-- ===== src/Tests/Retry.antt =====
-- The theorem on the delay at the third attempt.
use attention.Prelude.{◌≡◌, ◌*◌, ◌^◌, ◌-◌, min, arith}
use attention.Orchestrator.Retry.{max_int64, retry_backoff_delay, retry_backoff_delay-min}

retry_backoff_delay-min_example :
    retry_backoff_delay 2000000000 3 ≡ min (2000000000 * 2 ^ (3 - 1)) max_int64
retry_backoff_delay-min_example = retry_backoff_delay-min 2000000000 3 (omega arith) (omega arith)
