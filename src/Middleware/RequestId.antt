-- ===== src/Middleware/RequestId.antt =====
-- `RequestID` of internal/middleware/requestid.go: the identifier of a request. Its handing on to the
-- logger is left out.
use team_tasks.Base.{String, str_eq, if◌then◌else◌}
use team_tasks.Action.{Action, pure, ◌>>=◌}
use team_tasks.Platform.{Platform}

-- A draw that fails is answered by a status 500.
unfoldable pub request_id : {W : Type 0} → Platform W → String → Action W String
request_id p header =
    if str_eq header "" then p.new_uuid >>= (λ id. pure (p.formats.uuid_string id)) else pure header
