-- ===== src/Platform/Health.antt =====
-- health/handler.go
use distributed_order_proces.Base.{Bool, if◌then◌else◌, not}
use distributed_order_proces.Http.Message.{
  Response, write_error_json, write_json, plain_text, checks,
}

unfoldable pub live_z : Response
live_z = record { status = 200; body = plain_text "OK" }

-- The two pings. Redis is only reported.
unfoldable pub ready_z : Bool → Bool → Response
ready_z db_up redis_up =
    if not db_up
    then write_error_json 503 "DB is not ready"
    else write_json 200 (checks "up" (if redis_up then "up" else "down"))
