-- ===== src/Upstream/Retry.antt =====
-- upstream/retry.go
use daigate.Prelude.{ℕ, ◌==◌, ◌||◌, if◌then◌else◌, Bool, true}

-- Retryable(status, err); the second argument says whether there is an error.
unfoldable pub retryable : ℕ → Bool → Bool
retryable status failed =
    if failed
    then true
    else status == 402 || status == 429 || status == 502 || status == 503 || status == 504
