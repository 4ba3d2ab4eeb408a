-- ===== src/Platform/Tracing.antt =====
-- tracing/tracing.go, logger/logger.go and logger/trace_handler.go: the provider of traces, and the ids
-- of the running span in every log record.
use distributed_order_proces.Base.{
  String, Bool, true, false, Option, none, some, List, [], ◌∷◌, ◌++◌, str_eq, if◌then◌else◌,
}
use distributed_order_proces.Platform.Config.{Parsers, Config}

-- What OpenTelemetry does: an exporter for a URL and a resource for a service's name can fail.
pub record Otel : Type 0 where
  pub new_exporter : String → Bool
  pub new_resource : String → Bool

pub record TracerProvider (p : Parsers) : Type 0 where
  pub endpoint : String
  pub service_name : String
  pub ratio : p.Float64

abbrev pub with_exporter : {p : Parsers} → Otel → Config p → Bool → Option (TracerProvider p)
with_exporter otel cfg false = none
with_exporter otel cfg true =
    if otel.new_resource cfg.otel_service_name
    then some (record {
      endpoint = cfg.otel_exporter_endpoint;
      service_name = cfg.otel_service_name;
      ratio = cfg.otel_sample_ratio;
    })
    else none

unfoldable pub new_tracing : {p : Parsers} → Otel → Config p → Option (TracerProvider p)
new_tracing otel cfg = with_exporter otel cfg (otel.new_exporter cfg.otel_exporter_endpoint)

pub data Level : Type 0 where
  debug info warn error : Level

-- The level from which the logger writes.
unfoldable pub level_of : String → Level
level_of env = if str_eq env "production" then info else debug

pub record SpanContext : Type 0 where
  pub valid : Bool
  pub trace_id : String
  pub span_id : String

pub record LogRecord : Type 0 where
  pub message : String
  pub attrs : List (String × String)

-- The interface slog.Handler. A handler is a value of `Carrier`; `handle` writes the record or fails.
pub record SlogHandler : Type 1 where
  pub Carrier : Type 0
  pub Written : Type 0
  pub enabled : Carrier → SpanContext → Level → Bool
  pub handle : Carrier → SpanContext → LogRecord → Written
  pub with_attrs : Carrier → List (String × String) → Carrier
  pub with_group : Carrier → String → Carrier

abbrev pub add_ids : SpanContext → LogRecord → LogRecord
add_ids sc r =
    if sc.valid
    then record r { attrs = r.attrs ++ ("trace_id", sc.trace_id) ∷ ("span_id", sc.span_id) ∷ [] }
    else r

-- `TraceHandler`, which keeps the handler it wraps.
abbrev pub trace_handler : SlogHandler → SlogHandler
trace_handler next = record {
  Carrier = next.Carrier;
  Written = next.Written;
  enabled = next.enabled;
  handle = λ h sc r. next.handle h sc (add_ids sc r);
  with_attrs = next.with_attrs;
  with_group = next.with_group;
}
