-- ===== src/Observability.antt =====
-- The labels of internal/adapters/observability: `WagerOutcome` of service.go and `statusClass` of
-- metrics.go.
use jungle_wager_engine.Base.{ℕ, Text, codes, is_empty, leb, if◌then◌else◌}
use jungle_wager_engine.Domain.Errors.{Result, ok, err}
use jungle_wager_engine.Domain.Wager.{
  Status, pending, pending_reference, processed, rejected, failed, other_status,
}
use jungle_wager_engine.Application.{AppResult}

-- The text of a status.
unfoldable pub status_text : Status → Text
status_text pending = codes "PENDING"
status_text pending_reference = codes "PENDING_REFERENCE"
status_text processed = codes "PROCESSED"
status_text rejected = codes "REJECTED"
status_text failed = codes "FAILED"
status_text (other_status t) = t

unfoldable pub wager_outcome : Result AppResult → Text
wager_outcome (err e) = codes "ERROR"
wager_outcome (ok r) =
    if r.idempotent_replay
    then codes "REPLAY"
    else if is_empty (status_text r.status)
    then codes "UNKNOWN"
    else status_text r.status

unfoldable pub status_class : ℕ → Text
status_class status =
    if leb 500 status
    then codes "5xx"
    else if leb 400 status
    then codes "4xx"
    else if leb 300 status
    then codes "3xx"
    else codes "2xx"
