-- ===== src/HttpApi/Statuses.antt =====
-- What a client can tell from a status.
use jungle_wager_engine.Base.{◌≤◌, ◌≡◌, arith, codes, eq_text→eq, ◌⊎◌}
use jungle_wager_engine.Domain.Errors.{Error, error_code}
use jungle_wager_engine.HttpApi.{answer_of, application_error}

-- A failure of the server is answered as UNAVAILABLE, whatever the error is, and any other answer
-- shows the error's own code.
pub application_error-hides :
    (e : Error)
    → ((500 ≤ (application_error e).status) × ((application_error e).code ≡ codes "UNAVAILABLE"))
      ⊎ (((application_error e).status ≤ 422) × ((application_error e).code ≡ error_code e))
unfolding application_error answer_of
application_error-hides e = ground (arith, eq_text→eq (error_code e) (codes "UNAVAILABLE"))
